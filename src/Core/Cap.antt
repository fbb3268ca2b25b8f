-- ===== src/Core/Cap.antt =====
-- `makeCap` of packages/core/src/index.ts: a result set as text that says how much of it is shown.
use haikit.Prelude.{
  ℕ, zero, suc, ◌+◌, ◌-◌, ◌≤◌, ◌<◌, min, ltb, ◌==◌, ◌≡◌, ◌∙◌, refl, sym, subst, ap, append-nil,
  append_assoc, ◌⊎◌, inl, inr, Bool-cases, List, [], ◌∷◌, ◌++◌, map, length, length-append, take,
  get_elem?, some, if◌then◌else◌, Text, lit, decimal, arith,
}

pub record Capped : Type 0 where
  pub text : Text
  pub shown : ℕ
  pub total : ℕ

-- The lines that fit, up to the first that does not; each has counted one more for its end.
unfoldable pub cap_lines : ℕ → ℕ → List Text → List Text
cap_lines max_chars chars [] = []
cap_lines max_chars chars (line ∷ rows) =
    let rest = cap_lines max_chars (chars + length line + 1) rows in
    if ltb max_chars (chars + length line) then [] else line ∷ rest

-- `lines.join("\n")`.
unfoldable pub join_lines : List Text → Text
join_lines [] = []
join_lines (l ∷ []) = l
join_lines (l ∷ m ∷ ls) = l ++ lit "\n" ++ join_lines (m ∷ ls)

unfoldable pub cap_head : ℕ → ℕ → ℕ → Text
cap_head rows total shown =
    if rows == 0
    then lit "0 of " ++ decimal total ++ lit " match."
    else decimal rows
      ++ lit " of "
      ++ decimal total
      ++ lit " match. "
      ++ decimal shown
      ++ lit " shown"
      ++ (if ltb 0 (rows - shown) then lit ", " ++ decimal (rows - shown) ++ lit " omitted" else [])
      ++ lit ":"

unfoldable pub cap_text : Text → List Text → Text
unfolding join_lines
cap_text head [] = head
cap_text head (l ∷ ls) = head ++ lit "\n" ++ join_lines (l ∷ ls)

-- `cap`, with the bounds that its options give.
unfoldable pub cap : {A : Type 0} → ℕ → List A → (A → Text) → ℕ → ℕ → Capped
unfolding cap_lines cap_text cap_head
cap total rows fmt max_rows max_chars =
    let lines = cap_lines max_chars 0 (map fmt (take max_rows rows)) in
    let head = cap_head (length rows) total (length lines) in
    record { text = cap_text head lines; shown = length lines; total = total }

-- Each line on its own, after what comes before it.
abbrev pub after_break : List Text → Text
after_break [] = []
after_break (l ∷ ls) = lit "\n" ++ (l ++ after_break ls)

join_lines-after_break : (l : Text) (ls : List Text) → join_lines (l ∷ ls) ≡ l ++ after_break ls
unfolding join_lines
join_lines-after_break l [] = sym (append-nil l)
join_lines-after_break l (m ∷ ms) =
    ap (λ t. l ++ lit "\n" ++ t) (join_lines-after_break m ms)
    ∙ append_assoc l (lit "\n") (m ++ after_break ms)

cap_text-after_break : (head : Text) (ls : List Text) → cap_text head ls ≡ head ++ after_break ls
unfolding cap_text
cap_text-after_break head [] = sym (append-nil head)
cap_text-after_break head (l ∷ ls) =
    ap (λ t. head ++ lit "\n" ++ t) (join_lines-after_break l ls)
    ∙ append_assoc head (lit "\n") (l ++ after_break ls)

-- The room that lines take, their ends counted.
unfoldable pub weight : List Text → ℕ
weight [] = 0
weight (l ∷ ls) = length l + 1 + weight ls

cap_lines-take :
    (max_chars chars : ℕ) (ls : List Text)
    → cap_lines max_chars chars ls ≡ take (length (cap_lines max_chars chars ls)) ls
unfolding cap_lines
cap_lines-take max_chars chars [] = refl
cap_lines-take max_chars chars (l ∷ ls) = elim (Bool-cases (ltb max_chars (chars + length l))) [
  | inl p ↦ rw p refl
  | inr p ↦ rw p (ap (λ xs. l ∷ xs) (cap_lines-take max_chars (chars + length l + 1) ls))
]

weight-bound :
    (max_chars chars : ℕ) (ls : List Text)
    → chars ≤ max_chars + 1
    → chars + weight (cap_lines max_chars chars ls) ≤ max_chars + 1
unfolding cap_lines weight
weight-bound max_chars chars [] c = omega arith
weight-bound max_chars chars (l ∷ ls) c =
    ground (arith, c, weight-bound max_chars (chars + length l + 1) ls)

join_lines-bound : (ls : List Text) (n : ℕ) → weight ls ≤ n + 1 → length (join_lines ls) ≤ n
unfolding join_lines weight
join_lines-bound [] n w = omega arith
join_lines-bound (l ∷ []) n w = omega arith
join_lines-bound (l ∷ m ∷ ls) n w =
    let rest = join_lines-bound (m ∷ ls) (n - length l - 1) (omega arith) in
    let fits : length l + 1 + length (join_lines (m ∷ ls)) ≤ n = omega arith in
    rw (length-append (l ++ lit "\n") (join_lines (m ∷ ls)), length-append l (lit "\n")) fits

-- The loop stopped at the end, or at a line that did not fit.
unfoldable pub Stopped : ℕ → ℕ → List Text → List Text → Type 0
Stopped max_chars chars ls shown =
    (length shown ≡ length ls)
    ⊎ ((line : Text) × (get_elem? ls (length shown) ≡ some line)
        × (max_chars < chars + weight shown + length line))

Stopped-cons :
    (max_chars chars : ℕ) (l : Text) (ls shown : List Text)
    → Stopped max_chars (chars + length l + 1) ls shown
    → Stopped max_chars chars (l ∷ ls) (l ∷ shown)
unfolding Stopped weight
Stopped-cons max_chars chars l ls shown (inl e) = inl (ap (λ n. suc n) e)
Stopped-cons max_chars chars l ls shown (inr (line, e, b)) = inr (line, e, omega arith)

cap_lines-Stopped :
    (max_chars chars : ℕ) (ls : List Text)
    → Stopped max_chars chars ls (cap_lines max_chars chars ls)
unfolding cap_lines weight Stopped
cap_lines-Stopped max_chars chars [] = inl refl
cap_lines-Stopped max_chars chars (l ∷ ls) = elim (Bool-cases (ltb max_chars (chars + length l))) [
  | inl p ↦ rw p (inr (l, refl, ground (arith, p)))
  | inr p ↦
      rw p (
        Stopped-cons max_chars chars l ls _ (cap_lines-Stopped max_chars (chars + length l + 1) ls))
]

length-cap_lines :
    (max_chars chars : ℕ) (ls : List Text) → length (cap_lines max_chars chars ls) ≤ length ls
unfolding cap_lines
length-cap_lines max_chars chars [] = omega arith
length-cap_lines max_chars chars (l ∷ ls) =
    ground (arith, length-cap_lines max_chars (chars + length l + 1) ls)

length-rows :
    {A : Type 0} (fmt : A → Text) (m : ℕ) (rows : List A)
    → length (map fmt (take m rows)) ≡ min m (length rows)
length-rows fmt zero rows = omega arith
length-rows fmt (suc m) [] = omega arith
length-rows fmt (suc m) (r ∷ rows) = let rest = length-rows fmt m rows in omega arith

take-rows :
    {A : Type 0} (fmt : A → Text) (n m : ℕ) (rows : List A)
    → n ≤ m
    → take n (map fmt (take m rows)) ≡ take n (map fmt rows)
take-rows fmt zero m rows l = refl
take-rows fmt (suc n) zero rows l = absurd (omega arith)
take-rows fmt (suc n) (suc m) [] l = refl
take-rows fmt (suc n) (suc m) (r ∷ rows) l =
    ap (λ xs. fmt r ∷ xs) (take-rows fmt n m rows (omega arith))

-- The text is a head and, each after a line break, the lines of the first rows, as many as it says
-- are shown: no more of them than `maxRows`, and together no longer than `maxChars`. Every row up to `maxRows` is shown, unless
-- the next one's line, after the ends of those before it, would pass `maxChars`.
pub cap-bound :
    {A : Type 0} (total : ℕ) (rows : List A) (fmt : A → Text) (max_rows max_chars : ℕ)
    → let r = cap total rows fmt max_rows max_chars in
      let lines = take r.shown (map fmt rows) in
      (r.text ≡ cap_head (length rows) total r.shown ++ after_break lines)
      × (r.shown ≤ max_rows)
      × (length (join_lines lines) ≤ max_chars)
      × Stopped max_chars 0 (map fmt (take max_rows rows)) lines
unfolding cap
cap-bound total rows fmt max_rows max_chars =
    let ls = map fmt (take max_rows rows) in
    let shown = cap_lines max_chars 0 ls in
    let few : length shown ≤ max_rows =
      (let some_lines = length-cap_lines max_chars 0 ls in
        let rows_taken = length-rows fmt max_rows rows in omega arith) in
    let first : shown ≡ take (length shown) (map fmt rows) =
      cap_lines-take max_chars 0 ls ∙ take-rows fmt (length shown) max_rows rows few in
    (
      cap_text-after_break (cap_head (length rows) total (length shown)) shown
          ∙ ap (λ xs. cap_head (length rows) total (length shown) ++ after_break xs) first,
      few,
      subst (λ xs. length (join_lines xs) ≤ max_chars) first
          (join_lines-bound shown max_chars
            (let bound = weight-bound max_chars 0 ls (omega arith) in omega arith)),
      subst (Stopped max_chars 0 ls) first (cap_lines-Stopped max_chars 0 ls),
    )
