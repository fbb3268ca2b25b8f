-- ===== src/Prelude/Strings.antt =====
-- A JavaScript string as the list of its UTF-16 code units.
use Prim.Native.Nat.{ℕ}
use Prim.Native.Char.{code}
use Prim.Native.String.{String}
use mathlib.Core.Path.{◌≡◌, refl}
use mathlib.Core.Logic.{◌↔◌}
use mathlib.Core.Bool.{Bool, true, false, ◌&&◌}
use mathlib.Core.List.{List, [], ◌∷◌}
use native.Mathlib.Omega.{arith}
use haikit.Prelude.Tests.{◌==◌}

abbrev pub Text : Type 0
Text = List ℕ

-- A literal of the source; those are ASCII, or in the basic plane.
abbrev pub lit : String → Text
lit String.[] = []
lit (String.◌∷◌ c s) = code c ∷ lit s

infix 50 ◌=t=◌
unfoldable pub ◌=t=◌ : Text → Text → Bool
[] =t= [] = true
[] =t= (y ∷ ys) = false
(x ∷ xs) =t= [] = false
(x ∷ xs) =t= (y ∷ ys) = x == y && xs =t= ys

pub =t=_iff : (s t : Text) → ((s =t= t) ≡ true) ↔ (s ≡ t)
unfolding ◌=t=◌
=t=_iff [] [] = ground arith
=t=_iff [] (y ∷ ys) = ground arith
=t=_iff (x ∷ xs) [] = ground arith
=t=_iff (x ∷ xs) (y ∷ ys) = ground (arith, =t=_iff xs ys)

pub =t=_refl : (s : Text) → (s =t= s) ≡ true
=t=_refl s = (=t=_iff s s).1 refl
