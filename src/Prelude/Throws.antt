-- ===== src/Prelude/Throws.antt =====
-- Code that mutates its objects and may throw: what was written before a throw stays written.
use mathlib.Core.Path.{◌≡◌, refl}
use mathlib.Core.Bool.{Bool, true, false}
use mathlib.Core.Option.{Option, none, some}
use haikit.Prelude.Strings.{Text}

-- The `name` of an `Error`, where the code tells errors apart by it.
pub data ErrorName : Type 0 where
  error range_error type_error conversation_busy stale_lease : ErrorName

pub record Error : Type 0 where
  pub name : ErrorName
  pub message : Text

pub data Result {ℓ} (A : Type ℓ) : Type ℓ where
  ok : A → Result A
  err : Error → Result A

abbrev pub fail {ℓ} : {A : Type ℓ} → ErrorName → Text → Result A
fail n m = err (record { name = n; message = m })

abbrev pub Exec {ℓ} : Type ℓ → Type ℓ → Type ℓ
Exec S A = S → Result A × S

module _ {ℓ} {S A : Type ℓ} where
  unfoldable pub pure : A → Exec S A
  pure a s = (ok a, s)

  unfoldable pub throw : Error → Exec S A
  throw e s = (err e, s)

  unfoldable pub raise : ErrorName → Text → Exec S A
  raise n m s = (fail n m, s)

  -- Goes on with a result that is there already.
  unfoldable pub rethrow : Result A → Exec S A
  rethrow r s = (r, s)

module _ {ℓ} {S A B : Type ℓ} where
  abbrev pub continue : Result A → (A → Exec S B) → Exec S B
  continue (ok a) f s = f a s
  continue (err e) f s = (err e, s)

  infixl 5 ◌>>=◌ ◌>>◌
  -- Opening this opens the actions above.
  unfoldable pub ◌>>=◌ : Exec S A → (A → Exec S B) → Exec S B
  unfolding pure throw raise rethrow
  ◌>>=◌ m f s = let (r, s') = m s in continue r f s'

  abbrev pub ◌>>◌ : Exec S A → Exec S B → Exec S B
  m >> n = m >>= λ _. n

  -- A branch on whether a value is there, and on how a call ended.
  unfoldable pub on_option : Option A → Exec S B → (A → Exec S B) → Exec S B
  on_option none m f = m
  on_option (some a) m f = f a

  unfoldable pub on_result : Result A → (Error → Exec S B) → (A → Exec S B) → Exec S B
  on_result (ok a) h f = f a
  on_result (err e) h f = h e

-- What holds after a step and what follows it: split on how the step ended.
module _ {ℓ} {S A B : Type ℓ} (Q : Result B → S → Type ℓ) where
  continue_by :
      (r : Result A) (f : A → Exec S B) (s : S)
      → ((a : A) → r ≡ ok a → Q (f a s).0 (f a s).1)
      → ((e : Error) → r ≡ err e → Q (err e) s)
      → Q (continue r f s).0 (continue r f s).1
  continue_by (ok a) f s on_ok on_err = on_ok a refl
  continue_by (err e) f s on_ok on_err = on_err e refl

  pub bind_by :
      (m : Exec S A) (f : A → Exec S B) (s : S)
      → ((a : A) → (m s).0 ≡ ok a → Q (f a (m s).1).0 (f a (m s).1).1)
      → ((e : Error) → (m s).0 ≡ err e → Q (err e) (m s).1)
      → Q ((m >>= f) s).0 ((m >>= f) s).1
  unfolding ◌>>=◌
  bind_by m f s = continue_by (m s).0 f (m s).1

module _ {ℓ} {S A : Type ℓ} where
  -- `try { … } catch`: what the block wrote stays written.
  unfoldable pub attempt : Exec S A → Exec S (Result A)
  attempt m s = let (r, s') = m s in (ok r, s')

-- `isConversationBusy` and `isStaleLease` of packages/core.
abbrev pub is_conversation_busy : Error → Bool
is_conversation_busy e = elim e.name [ conversation_busy ↦ true | _ ↦ false ]

abbrev pub is_stale_lease : Error → Bool
is_stale_lease e = elim e.name [ stale_lease ↦ true | _ ↦ false ]
