-- ===== src/Runtime/Limits.antt =====
-- The limit on turns that notices start: `maxWakes` in `wakeTurn` of packages/server/src/runtime.ts.
use haikit.Prelude.{
  ℕ, suc, ◌-◌, ◌≤◌, ◌<◌, leb, ltb, ◌≡◌, refl, sym, ap, subst, ◌∙◌, false, Bool-cases, inl, inr,
  List, [], ◌∷◌, ◌++◌, length, if◌then◌else◌, arith,
}
use haikit.Runtime.Wake.{recent_wakes, add_wake, count_start}

-- A chance to start at each of the times, with what counts so far and the starts so far.
unfoldable pub starts_at : ℕ → ℕ → List ℕ → List ℕ → List ℕ → List ℕ
unfolding count_start
starts_at count per_ms [] wakes starts = starts
starts_at count per_ms (now ∷ times) wakes starts =
    let counted = count_start count per_ms now wakes in
    starts_at count per_ms times (counted.0) (if counted.1 then starts ++ now ∷ [] else starts)

-- The times go on from this one, none before the last, up to the other.
unfoldable pub Ascends : ℕ → List ℕ → ℕ → Type 0
Ascends from [] last = from ≤ last
Ascends from (now ∷ times) last = (from ≤ now) × Ascends now times last

-- How many of the times lie less than this long before the last one.
unfoldable pub started_within : ℕ → ℕ → List ℕ → ℕ
started_within per last [] = 0
started_within per last (t ∷ ts) =
    let rest = started_within per last ts in if ltb (last - t) per then suc rest else rest

length-recent_wakes :
    (per last : ℕ) (ts : List ℕ) → length (recent_wakes per last ts) ≡ started_within per last ts
unfolding recent_wakes started_within
length-recent_wakes per last [] = refl
length-recent_wakes per last (t ∷ ts) = ground (arith, length-recent_wakes per last ts)

recent-append :
    (per now : ℕ) (xs ys : List ℕ)
    → recent_wakes per now (xs ++ ys) ≡ recent_wakes per now xs ++ recent_wakes per now ys
unfolding recent_wakes
recent-append per now [] ys = refl
recent-append per now (x ∷ xs) ys = ground (arith, recent-append per now xs ys)

-- What is too old now is too old later.
recent-recent :
    (per now later : ℕ) (xs : List ℕ)
    → now ≤ later
    → recent_wakes per later (recent_wakes per now xs) ≡ recent_wakes per later xs
unfolding recent_wakes
recent-recent per now later [] l = refl
recent-recent per now later (x ∷ xs) l = ground (arith, recent-recent per now later xs l)

length-recent : (per now : ℕ) (xs : List ℕ) → length (recent_wakes per now xs) ≤ length xs
unfolding recent_wakes
length-recent per now [] = omega arith
length-recent per now (x ∷ xs) = ground (arith, length-recent per now xs)

length-push : (xs : List ℕ) (x : ℕ) → length (xs ++ x ∷ []) ≡ suc (length xs)
length-push [] x = refl
length-push (y ∷ xs) x = ap (λ n. suc n) (length-push xs x)

add_wake-fits :
    (count now : ℕ) (recent : List ℕ)
    → length recent < count
    → add_wake count now recent ≡ recent ++ now ∷ []
unfolding add_wake
add_wake-fits count now recent l =
    let pushed = length-push recent now in
    let none_over : length (recent ++ now ∷ []) - count ≡ 0 = omega arith in rw none_over refl

le_trans : {a b c : ℕ} → a ≤ b → b ≤ c → a ≤ c
le_trans l m = omega arith

below : {a b : ℕ} → leb a b ≡ false → b < a
below p = ground arith

module _ (count per : ℕ) where
  -- What counts is what the starts still make count, and no more than the limit.
  module _ (from now : ℕ) (wakes starts : List ℕ) (ascends : from ≤ now)
      (kept : (later : ℕ)
        → from ≤ later
        → recent_wakes per later wakes ≡ recent_wakes per later starts)
      (few : (later : ℕ) → from ≤ later → length (recent_wakes per later starts) ≤ count) where
    forgotten :
        (later : ℕ)
        → now ≤ later
        → recent_wakes per later (recent_wakes per now wakes) ≡ recent_wakes per later starts
    forgotten later l = recent-recent per now later wakes l ∙ kept later (omega arith)

    counted-kept :
        (later : ℕ)
        → now ≤ later
        → recent_wakes per later (recent_wakes per now wakes ++ now ∷ [])
          ≡ recent_wakes per later (starts ++ now ∷ [])
    counted-kept later l =
        recent-append per later (recent_wakes per now wakes) (now ∷ [])
        ∙ ap (λ xs. xs ++ recent_wakes per later (now ∷ [])) (forgotten later l)
        ∙ sym (recent-append per later starts (now ∷ []))

    counted-few :
        length (recent_wakes per now wakes) < count
        → (later : ℕ) → now ≤ later
        → length (recent_wakes per later (starts ++ now ∷ [])) ≤ count
    counted-few room later l =
        let all = recent_wakes per now wakes ++ now ∷ [] in
        let same = ap (λ xs. length xs) (counted-kept later l) in
        let shorter = length-recent per later all in
        let pushed = length-push (recent_wakes per now wakes) now in omega arith

  starts_at-few :
      (times : List ℕ) (from last : ℕ) (wakes starts : List ℕ)
      → Ascends from times last
      → ((later : ℕ) → from ≤ later → recent_wakes per later wakes ≡ recent_wakes per later starts)
      → ((later : ℕ) → from ≤ later → length (recent_wakes per later starts) ≤ count)
      → length (recent_wakes per last (starts_at count per times wakes starts)) ≤ count
  unfolding starts_at Ascends count_start
  starts_at-few [] from last wakes starts a kept few = few last a
  starts_at-few (now ∷ times) from last wakes starts a kept few =
      elim (Bool-cases (leb count (length (recent_wakes per now wakes)))) [
        | inl p ↦ rw p (
            starts_at-few times now last (recent_wakes per now wakes) starts (a.1)
              (forgotten from now wakes starts (a.0) kept few)
              (λ later l. few later (le_trans (a.0) l)))
        | inr p ↦
            rw (p, add_wake-fits count now (recent_wakes per now wakes) (below p))
              (starts_at-few times now last (recent_wakes per now wakes ++ now ∷ [])
                (starts ++ now ∷ []) (a.1) (counted-kept from now wakes starts (a.0) kept few)
                (counted-few from now wakes starts (a.0) kept few (below p)))
      ]

-- However often notices could start a turn, at times that do not go back: at no time have more of
-- them started one within the last `perMs` milliseconds than `maxWakes` allows.
pub starts_at-bound :
    (count per_ms last : ℕ) (times : List ℕ)
    → Ascends 0 times last
    → started_within per_ms last (starts_at count per_ms times [] []) ≤ count
unfolding recent_wakes
starts_at-bound count per_ms last times a =
    let few =
      starts_at-few count per_ms times 0 last [] [] a (λ later l. refl) (λ later l. omega arith) in
    subst (λ n. n ≤ count) (length-recent_wakes per_ms last (starts_at count per_ms times [] []))
      few
