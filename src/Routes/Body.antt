-- ===== src/Routes/Body.antt =====
-- A request's body: `readJson` of packages/server/src/routes.ts.
use haikit.Prelude.{
  ℕ, ◌+◌, ltb, Bool, false, Option, none, some, List, [], ◌∷◌, ◌++◌, length, if◌then◌else◌,
}
use haikit.Core.Json.{Json, obj, Fields}

-- What arrives, by its bytes; at last the body breaks off or ends.
pub data Arrival : Type 0 where
  chunk : List ℕ → Arrival
  broken ended : Arrival

pub data BodyRead : Type 0 where
  too_large malformed : BodyRead
  body : Fields → BodyRead

-- Over the limit by its declared length.
abbrev pub is_over : ℕ → Option ℕ → Bool
is_over max none = false
is_over max (some n) = ltb max n

-- `JSON.parse` of the bytes' text, which gives none where it throws; an empty body is `{}`.
module _ (parse : List ℕ → Option Json) (empty : Fields) where
  unfoldable pub parse_body : List ℕ → BodyRead
  parse_body [] = body empty
  parse_body (b ∷ bs) = elim (parse (b ∷ bs)) [
    | none ↦ malformed
    | some (obj fs) ↦ body fs
    | some _ ↦ malformed
  ]

  -- What was kept so far, and its size; a body that never ends is never read.
  unfoldable pub read_chunks : ℕ → List ℕ → ℕ → List Arrival → Option BodyRead
  unfolding parse_body
  read_chunks max kept size [] = none
  read_chunks max kept size (ended ∷ rest) = some (parse_body kept)
  read_chunks max kept size (broken ∷ rest) = some malformed
  read_chunks max kept size (chunk bs ∷ rest) =
      let next = read_chunks max (kept ++ bs) (size + length bs) rest in
      if ltb max (size + length bs) then some too_large else next

  unfoldable pub read_json : ℕ → Option ℕ → List Arrival → Option BodyRead
  unfolding read_chunks
  read_json max declared arrivals =
      if is_over max declared then some too_large else read_chunks max [] 0 arrivals
