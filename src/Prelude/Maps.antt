-- ===== src/Prelude/Maps.antt =====
-- A JavaScript `Map` or plain object with string keys, its entries in insertion order.
use mathlib.Core.Path.{◌≡◌, refl}
use mathlib.Core.Option.{Option, none, some}
use mathlib.Core.List.{List, [], ◌∷◌}
use native.Mathlib.Omega.{arith}
use haikit.Prelude.Tests.{if◌then◌else◌}
use haikit.Prelude.Strings.{Text, ◌=t=◌, =t=_iff}

abbrev pub Map {ℓ} : Type ℓ → Type ℓ
Map V = List (Text × V)

module _ {ℓ} {V : Type ℓ} where
  unfoldable pub get : Text → Map V → Option V
  get k [] = none
  get k ((j, v) ∷ m) = if j =t= k then some v else get k m

  -- A key that is there keeps its place.
  unfoldable pub set : Text → V → Map V → Map V
  set k v [] = (k, v) ∷ []
  set k v ((j, w) ∷ m) = if j =t= k then (j, v) ∷ m else (j, w) ∷ set k v m

  pub get-set :
      (k j : Text) (v : V) (m : Map V) → get j (set k v m) ≡ (if k =t= j then some v else get j m)
  unfolding get set
  get-set k j v [] = refl
  get-set k j v ((i, w) ∷ m) =
      ground (arith, =t=_iff k j, =t=_iff i k, =t=_iff i j, get-set k j v m)
