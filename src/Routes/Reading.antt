-- ===== src/Routes/Reading.antt =====
-- A body that arrives whole: `readJson` of packages/server/src/routes.ts.
use haikit.Prelude.{
  ℕ, ◌+◌, ◌≤◌, ◌≡◌, refl, ap, ◌∙◌, ltb, true, false, Bool-cases, inl, inr, Option, some, List, [],
  ◌∷◌, ◌++◌, append-nil, append_assoc, length, length-append, if◌then◌else◌, arith,
}
use haikit.Core.Json.{Json, Fields}
use haikit.Routes.Body.{
  Arrival, chunk, ended, BodyRead, too_large, parse_body, read_chunks, read_json, is_over,
}

-- The bytes of chunks, one after another.
unfoldable pub joined : List (List ℕ) → List ℕ
joined [] = []
joined (bs ∷ cs) = bs ++ joined cs

unfoldable pub arrive : List (List ℕ) → List Arrival
arrive [] = ended ∷ []
arrive (bs ∷ cs) = chunk bs ∷ arrive cs

within : (max size : ℕ) → ltb max size ≡ false → size ≤ max
within max size p = ground arith

not_over : (max size : ℕ) → size ≤ max → ltb max (size + 0) ≡ false
not_over max size l = ground arith

still_over :
    (max size more total : ℕ) → total ≡ more + size → ltb max size ≡ true → ltb max total ≡ true
still_over max size more total e p = ground arith

module _ (parse : List ℕ → Option Json) (empty : Fields) where
  abbrev outcome : ℕ → ℕ → List ℕ → Option BodyRead
  outcome max n bs = some (if ltb max n then too_large else parse_body parse empty bs)

  read_chunks-joined :
      (max : ℕ) (kept : List ℕ) (size : ℕ) (cs : List (List ℕ))
      → size ≤ max
      → read_chunks parse empty max kept size (arrive cs)
        ≡ some (
            if ltb max (size + length (joined cs))
            then too_large
            else parse_body parse empty (kept ++ joined cs))
  unfolding read_chunks arrive joined
  read_chunks-joined max kept size [] fits = rw (not_over max size fits, append-nil kept) refl
  read_chunks-joined max kept size (bs ∷ cs) fits = elim (Bool-cases (ltb max (size + length bs))) [
    | inl p ↦
        rw
          (
            p,
            still_over max (size + length bs) (length (joined cs)) (size + length (bs ++ joined cs))
                (let l = length-append bs (joined cs) in omega arith) p,
          )
          refl
    | inr p ↦ rw p (
        read_chunks-joined max (kept ++ bs) (size + length bs) cs (within max (size + length bs) p)
        ∙ ap (λ n. outcome max n ((kept ++ bs) ++ joined cs))
            (let l = length-append bs (joined cs) in omega arith)
        ∙ ap (outcome max (size + length (bs ++ joined cs))) (append_assoc kept bs (joined cs)))
  ]

-- A body that ends is refused as too large just where its declared length or what arrived of it, in
-- whatever chunks, is over the limit; else it is read as the bytes of the chunks, one after another.
pub read_json-joined :
    (parse : List ℕ → Option Json) (empty : Fields) (max : ℕ) (declared : Option ℕ)
    (cs : List (List ℕ))
    → read_json parse empty max declared (arrive cs)
      ≡ some (
          if is_over max declared
          then too_large
          else if ltb max (length (joined cs))
          then too_large
          else parse_body parse empty (joined cs))
unfolding read_json
read_json-joined parse empty max declared cs = elim (Bool-cases (is_over max declared)) [
  | inl p ↦ rw p refl
  | inr p ↦ rw p (
      read_chunks-joined parse empty max [] 0 cs (omega arith)
      ∙ ap (λ n. some (if ltb max n then too_large else parse_body parse empty (joined cs)))
          (omega arith))
]
