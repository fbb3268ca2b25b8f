-- ===== src/Store/Storable.antt =====
-- `storable` and `storableJson` of packages/server/src/store.ts: what Postgres refuses in a string
-- becomes U+FFFD, the replacement character.
use haikit.Prelude.{
  ℕ, ◌≡◌, refl, subst, ◌↔◌, Bool, true, false, not, ◌&&◌, ◌||◌, [], ◌∷◌, arith, leb, ◌==◌,
  if◌then◌else◌, Text, ◌=t=◌, length, inl, inr, Bool-cases,
}
use haikit.Core.Json.{Json, null, bool, num, str, arr, obj, Items, nil, cons, Fields, end, field}

abbrev pub is_high : ℕ → Bool
is_high u = leb 0xD800 u && leb u 0xDBFF

abbrev pub is_low : ℕ → Bool
is_low u = leb 0xDC00 u && leb u 0xDFFF

-- The unit that a lookahead sees; 0 at the end, which is no surrogate.
abbrev pub next_unit : Text → ℕ
next_unit [] = 0
next_unit (u ∷ s) = u

-- A match of `UNSTORABLE` at `u`, after the unit `before` and in front of `next`.
abbrev pub is_unstorable : ℕ → ℕ → ℕ → Bool
is_unstorable before u next =
    u == 0 || is_high u && not (is_low next) || is_low u && not (is_high before)

-- `s.replace(UNSTORABLE, "\uFFFD")`: the lookbehind and the lookahead read the original text.
replace_from : ℕ → Text → Text
replace_from before [] = []
replace_from before (u ∷ s) =
    (if is_unstorable before u (next_unit s) then 0xFFFD else u) ∷ replace_from u s

-- `MAYBE_UNSTORABLE.test(s)`.
unfoldable pub maybe_unstorable : Text → Bool
maybe_unstorable [] = false
maybe_unstorable (u ∷ s) = u == 0 || leb 0xD800 u && leb u 0xDFFF || maybe_unstorable s

unfoldable pub storable : Text → Text
unfolding maybe_unstorable replace_from
storable s = if maybe_unstorable s then replace_from 0 s else s

-- `Object.fromEntries`: of two entries with one key the later value stays, in the first one's place.
unfoldable pub set_field : Text → Json → Fields → Fields
set_field k v end = field k v end
set_field k v (field j w fs) = if j =t= k then field j v fs else field j w (set_field k v fs)

-- `JSON.parse(JSON.stringify(value, storableJson))` on a JSON value.
unfoldable mutual
  pub copy_json : Json → Json
  copy_json null = null
  copy_json (bool b) = bool b
  copy_json (num n) = num n
  copy_json (str s) = str (storable s)
  copy_json (arr xs) = arr (copy_items xs)
  copy_json (obj fs) = obj (copy_fields end fs)

  pub copy_items : Items → Items
  copy_items nil = nil
  copy_items (cons x xs) = cons (copy_json x) (copy_items xs)

  -- The fields copied so far come first.
  pub copy_fields : Fields → Fields → Fields
  copy_fields done end = done
  copy_fields done (field k v fs) = copy_fields (set_field (storable k) (copy_json v) done) fs

-- No unit of the text matches `UNSTORABLE`.
abbrev pub IsStorableFrom : ℕ → Text → Type 0
IsStorableFrom before [] = Unit
IsStorableFrom before (u ∷ s) = (is_unstorable before u (next_unit s) ≡ false) × IsStorableFrom u s

abbrev pub IsStorable : Text → Type 0
IsStorable s = IsStorableFrom 0 s

-- What is replaced on the left of a unit changes no lookbehind that the unit needs.
replace_from-IsStorableFrom :
    (before left : ℕ) (s : Text)
    → (is_low (next_unit s) ≡ true → is_high left ≡ is_high before)
    → IsStorableFrom left (replace_from before s)
unfolding replace_from
replace_from-IsStorableFrom before left [] h = tt
replace_from-IsStorableFrom before left (u ∷ []) h = (ground arith, tt)
replace_from-IsStorableFrom before left (u ∷ v ∷ s) h = (
  ground arith,
  replace_from-IsStorableFrom u (if is_unstorable before u v then 0xFFFD else u) (v ∷ s)
      (λ l. ground arith),
)

replace_from_id : (before : ℕ) (s : Text) → IsStorableFrom before s → replace_from before s ≡ s
unfolding replace_from
replace_from_id before [] h = refl
replace_from_id before (u ∷ s) h = rw (h.0, replace_from_id u s h.1)

IsStorableFrom-of_plain :
    (before : ℕ) (s : Text) → maybe_unstorable s ≡ false → IsStorableFrom before s
unfolding maybe_unstorable
IsStorableFrom-of_plain before [] h = tt
IsStorableFrom-of_plain before (u ∷ s) h =
    (ground arith, IsStorableFrom-of_plain u s (ground arith))

pub storable-IsStorable : (s : Text) → IsStorable (storable s)
unfolding storable
storable-IsStorable s = elim (Bool-cases (maybe_unstorable s)) [
  | inl e ↦ rw e (replace_from-IsStorableFrom 0 0 s (λ _. refl))
  | inr e ↦ rw e (IsStorableFrom-of_plain 0 s e)
]

pub storable_id : (s : Text) → IsStorable s → storable s ≡ s
unfolding storable
storable_id s h = elim (Bool-cases (maybe_unstorable s)) [
  | inl e ↦ rw e (replace_from_id 0 s h)
  | inr e ↦ rw e refl
]

length-replace_from : (before : ℕ) (s : Text) → length (replace_from before s) ≡ length s
unfolding replace_from
length-replace_from before [] = refl
length-replace_from before (u ∷ s) = omega (arith, length-replace_from u s)

length-storable : (s : Text) → length (storable s) ≡ length s
unfolding storable
length-storable s = elim (Bool-cases (maybe_unstorable s)) [
  | inl e ↦ rw e (length-replace_from 0 s)
  | inr e ↦ rw e refl
]

-- Every string becomes one that Postgres takes, of the same length; exactly those that it takes
-- already are kept as they are; so storing what was read back changes nothing.
pub storable_total :
    (s : Text)
    → IsStorable (storable s)
      × (length (storable s) ≡ length s)
      × (IsStorable s ↔ (storable s ≡ s))
      × (storable (storable s) ≡ storable s)
storable_total s = (
  storable-IsStorable s,
  length-storable s,
  (storable_id s, λ e. subst IsStorable e (storable-IsStorable s)),
  storable_id (storable s) (storable-IsStorable s),
)
