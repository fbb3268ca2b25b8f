-- ===== src/Prelude/Decimal.antt =====
-- Numbers in template strings: decimal digits, and `padStart`.
use Prim.Native.Nat.{ℕ, zero, suc, ◌+◌, ◌-◌, ◌*◌, ◌/◌, ◌%◌, ◌<◌}
use mathlib.Core.Path.{◌≡◌, refl, ap, ◌∙◌, sym}
use mathlib.Core.Logic.{inl, inr}
use mathlib.Core.List.{[], ◌∷◌, ◌++◌}
use native.Mathlib.Omega.{arith}
use haikit.Prelude.Tests.{ltb, ◌==◌, if◌then◌else◌, Bool-cases}
use haikit.Prelude.Lists.{All}
use haikit.Prelude.Strings.{Text, lit}

decimal_from : ℕ → ℕ → Text
decimal_from zero n = []
decimal_from (suc fuel) n =
    let rest = decimal_from fuel (n / 10) ++ (48 + n % 10) ∷ [] in
    if ltb n 10 then (48 + n) ∷ [] else rest

-- `String(n)`: each round divides by ten, so `n + 1` rounds are enough.
unfoldable pub decimal : ℕ → Text
unfolding decimal_from
decimal n = decimal_from (suc n) n

-- `s.padStart(2, "0")`.
unfoldable pub pad_start_2 : Text → Text
pad_start_2 [] = lit "00"
pad_start_2 (d ∷ []) = lit "0" ++ d ∷ []
pad_start_2 (d ∷ e ∷ s) = d ∷ e ∷ s

-- What a digit string stands for.
value_from : ℕ → Text → ℕ
value_from v [] = v
value_from v (d ∷ s) = value_from (v * 10 + (d - 48)) s

pub value : Text → ℕ
value s = value_from 0 s

value_from-append :
    (v : ℕ) (s : Text) (d : ℕ) → value_from v (s ++ d ∷ []) ≡ value_from v s * 10 + (d - 48)
unfolding value_from
value_from-append v [] d = refl
value_from-append v (x ∷ s) d = value_from-append (v * 10 + (x - 48)) s d

value-decimal_from : (fuel n : ℕ) → n < fuel → value_from 0 (decimal_from fuel n) ≡ n
unfolding decimal_from
value-decimal_from zero n h = elim h [ ]
value-decimal_from (suc fuel) n h = elim (Bool-cases (ltb n 10)) [
  | inl small ↦ rw small (unfold value_from in omega arith)
  | inr big ↦ rw big (
      rw (value_from-append 0 (decimal_from fuel (n / 10)) (48 + n % 10))
        (rw (value-decimal_from fuel (n / 10) (ground arith)) (omega arith)))
]

value-decimal : (n : ℕ) → value (decimal n) ≡ n
unfolding value decimal
value-decimal n = value-decimal_from (suc n) n (omega arith)

value-pad_start_2 : (s : Text) → value (pad_start_2 s) ≡ value s
unfolding value pad_start_2 value_from
value-pad_start_2 [] = refl
value-pad_start_2 (d ∷ []) = refl
value-pad_start_2 (d ∷ e ∷ s) = refl

-- Two numbers that are padded to one string are one number.
pub pad_start_2-decimal_injective :
    (m n : ℕ) → pad_start_2 (decimal m) ≡ pad_start_2 (decimal n) → m ≡ n
pad_start_2-decimal_injective m n e =
    sym (value-decimal m)
    ∙ sym (value-pad_start_2 (decimal m))
    ∙ ap value e
    ∙ value-pad_start_2 (decimal n)
    ∙ value-decimal n

-- The number in front of the first underscore.
read_from : ℕ → Text → ℕ
read_from v [] = v
read_from v (d ∷ s) = let rest = read_from (v * 10 + (d - 48)) s in if d == 95 then v else rest

abbrev IsPlain : Text → Type 0
IsPlain = All (λ d. d < 95)

read_from-append : (v : ℕ) (s t : Text) → IsPlain s → read_from v (s ++ 95 ∷ t) ≡ value_from v s
unfolding read_from value_from
read_from-append v [] t h = refl
read_from-append v (d ∷ s) t h = ground (arith, h.0, read_from-append (v * 10 + (d - 48)) s t h.1)

IsPlain-append : (s : Text) (d : ℕ) → IsPlain s → d < 95 → IsPlain (s ++ d ∷ [])
IsPlain-append [] d h l = (l, tt)
IsPlain-append (x ∷ s) d h l = (h.0, IsPlain-append s d h.1 l)

decimal_from-IsPlain : (fuel n : ℕ) → IsPlain (decimal_from fuel n)
unfolding decimal_from
decimal_from-IsPlain zero n = tt
decimal_from-IsPlain (suc fuel) n = elim (Bool-cases (ltb n 10)) [
  | inl small ↦ rw small (ground arith, tt)
  | inr big ↦ rw big (
      IsPlain-append (decimal_from fuel (n / 10)) (48 + n % 10) (decimal_from-IsPlain fuel (n / 10))
        (omega arith))
]

read-decimal : (n : ℕ) (t : Text) → read_from 0 (decimal n ++ 95 ∷ t) ≡ n
unfolding decimal
read-decimal n t =
    read_from-append 0 (decimal_from (suc n) n) t (decimal_from-IsPlain (suc n) n)
    ∙ value-decimal_from (suc n) n (omega arith)

-- A number in front of an underscore can be read back.
pub decimal-append_injective :
    (m n : ℕ) (s t : Text) → decimal m ++ 95 ∷ s ≡ decimal n ++ 95 ∷ t → m ≡ n
decimal-append_injective m n s t e = sym (read-decimal m s) ∙ ap (read_from 0) e ∙ read-decimal n t
