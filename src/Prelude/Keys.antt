-- ===== src/Prelude/Keys.antt =====
-- Maps without the entry of a key, and maps that have each key once.
use mathlib.Core.Path.{◌≡◌, refl}
use mathlib.Core.Logic.{inl, inr}
use mathlib.Core.Option.{Option, none, some}
use mathlib.Core.List.{[], ◌∷◌}
use Prim.Native.Nat.{ℕ, ◌+◌}
use native.Mathlib.Omega.{arith}
use haikit.Prelude.Tests.{Bool-cases, if◌then◌else◌}
use haikit.Prelude.Lists.{length}
use haikit.Prelude.Strings.{Text, ◌=t=◌, =t=_iff}
use haikit.Prelude.Maps.{Map, get, set, get-set}

module _ {ℓ} {V : Type ℓ} where
  unfoldable pub remove : Text → Map V → Map V
  remove k [] = []
  remove k ((j, v) ∷ m) = let rest = remove k m in if j =t= k then rest else (j, v) ∷ rest

  unfoldable pub Distinct : Map V → Type ℓ
  Distinct [] = Unit
  Distinct ((k, v) ∷ m) = (get k m ≡ none) × Distinct m

  pub get-remove :
      (k j : Text) (m : Map V) → get j (remove k m) ≡ (if k =t= j then none else get j m)
  unfolding remove get
  get-remove k j [] = ground arith
  get-remove k j ((i, v) ∷ m) =
      ground (arith, =t=_iff k j, =t=_iff i k, =t=_iff i j, get-remove k j m)

  -- How many entries a key has in a map that has it once.
  abbrev pub entries : Option V → ℕ
  entries none = 0
  entries (some v) = 1

  pub remove-absent : (k : Text) (m : Map V) → get k m ≡ none → remove k m ≡ m
  unfolding remove get
  remove-absent k [] e = refl
  remove-absent k ((j, v) ∷ m) e = ground (arith, e, remove-absent k m)

  pub remove-first : (k : Text) (v : V) (m : Map V) → get k m ≡ none → remove k ((k, v) ∷ m) ≡ m
  unfolding remove
  remove-first k v m e = ground (arith, =t=_iff k k, remove-absent k m e)

  pub length-set :
      (k : Text) (v : V) (m : Map V) → length (set k v m) + entries (get k m) ≡ length m + 1
  unfolding set get
  length-set k v [] = refl
  length-set k v ((j, w) ∷ m) = elim (Bool-cases (j =t= k)) [
    | inl p ↦ rw p (omega arith)
    | inr p ↦ rw p (let rest = length-set k v m in omega arith)
  ]

  pub length-remove :
      (k : Text) (m : Map V) → Distinct m → length (remove k m) + entries (get k m) ≡ length m
  unfolding remove get Distinct
  length-remove k [] d = refl
  length-remove k ((j, v) ∷ m) d = elim (Bool-cases (j =t= k)) [
    | inl p ↦ ground (arith, p, d.0, remove-absent k m, =t=_iff j k)
    | inr p ↦ rw p (let rest = length-remove k m (d.1) in omega arith)
  ]

  pub Distinct-remove : (k : Text) (m : Map V) → Distinct m → Distinct (remove k m)
  unfolding remove Distinct
  Distinct-remove k [] d = tt
  Distinct-remove k ((j, v) ∷ m) d =
      let rest = Distinct-remove k m (d.1) in
      elim (Bool-cases (j =t= k)) [
        | inl p ↦ rw p rest
        | inr p ↦ rw p (ground (arith, get-remove k j m, d.0), rest)
      ]

  pub Distinct-set : (k : Text) (v : V) (m : Map V) → Distinct m → Distinct (set k v m)
  unfolding set get Distinct
  Distinct-set k v [] d = (refl, tt)
  Distinct-set k v ((j, w) ∷ m) d = elim (Bool-cases (j =t= k)) [
    | inl p ↦ rw p d
    | inr p ↦ rw p (
      ground (arith, get-set k j v m, d.0, p, =t=_iff k j, =t=_iff j k),
      Distinct-set k v m (d.1),
    )
  ]
