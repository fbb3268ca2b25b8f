-- ===== src/Runtime/Keeps.antt =====
-- Parts of the conversation that the steps of packages/server/src/runtime.ts leave as they are.
use haikit.Prelude.{
  Bool, true, false, Option, none, some, if◌then◌else◌, Text, Result, Exec, Error, ErrorName,
  Option-cases, inl, inr, ◌>>=◌, pure, throw, raise, rethrow, on_option, on_result, attempt,
  Bool-cases, continue, bind_by,
}
use haikit.Core.Types.{Conversation}
use haikit.Runtime.Types.{Question, Asking, Hai, Turn, WireEvent}
use haikit.Runtime.Actions.{outside, observe, gets, modify, amend, emit, nid, is_surface_event}

-- What is claimed of the request's variables: of whether a tool ran, of `asked`, `asking` and `lost`,
-- and of the conversation.
abbrev pub Claim : Type 1
Claim = Bool → Option Question → Option Asking → Option Error → Conversation → Type 0

abbrev pub Holds : {W : Type 0} → Claim → Turn W → Type 0
Holds P t = P t.ran t.asked t.asking t.lost t.conversation

-- However a step ends, what held before it holds after it.
pub record Keeps {W : Type 0} (P : Claim) {A : Type 0} (m : Exec (Turn W) A) : Type 0 where
  pub kept : (t : Turn W) → Holds P t → Holds P (m t).1

emit_kept : {W : Type 0} (P : Claim) (e : WireEvent) (t : Turn W) → Holds P t → Holds P (emit e t).1
unfolding emit
emit_kept P e t h = elim (Option-cases t.held) [
  | inl p ↦ rw p h
  | inr (l, p) ↦ elim (Bool-cases (is_surface_event e)) [
    | inl q ↦ rw (p, q) h
    | inr q ↦ rw (p, q) h
  ]
]

module _ {W : Type 0} {P : Claim} where
  pub Keeps-pure : {A : Type 0} (a : A) → Keeps {W = W} P (pure a)
  unfolding pure
  Keeps-pure a = record { kept = λ t h. h }

  pub Keeps-throw : {A : Type 0} (e : Error) → Keeps {W = W} P {A = A} (throw e)
  unfolding throw
  Keeps-throw e = record { kept = λ t h. h }

  pub Keeps-raise : {A : Type 0} (n : ErrorName) (m : Text) → Keeps {W = W} P {A = A} (raise n m)
  unfolding raise
  Keeps-raise n m = record { kept = λ t h. h }

  pub Keeps-rethrow : {A : Type 0} (r : Result A) → Keeps {W = W} P (rethrow r)
  unfolding rethrow
  Keeps-rethrow r = record { kept = λ t h. h }

  pub Keeps-gets : {A : Type 0} (f : Turn W → A) → Keeps P (gets f)
  unfolding gets
  Keeps-gets f = record { kept = λ t h. h }

  pub Keeps-outside : {A : Type 0} (m : Exec W A) → Keeps P (outside m)
  unfolding outside
  Keeps-outside m = record { kept = λ t h. h }

  pub Keeps-observe : {A : Type 0} (m : W → A × W) → Keeps P (observe m)
  unfolding observe
  Keeps-observe m = record { kept = λ t h. h }

  pub Keeps-nid : (hai : Hai W) (p : Text) → Keeps P (nid hai p)
  unfolding nid
  Keeps-nid hai p = record { kept = λ t h. h }

  pub Keeps-modify :
      (f : Turn W → Turn W) → ((t : Turn W) → Holds P t → Holds P (f t)) → Keeps P (modify f)
  unfolding modify
  Keeps-modify f k = record { kept = k }

  pub Keeps-amend :
      (f : Conversation → Conversation)
      → ((t : Turn W) → Holds P t → P t.ran t.asked t.asking t.lost (f t.conversation))
      → Keeps {W = W} P (amend f)
  unfolding amend
  Keeps-amend f k = record { kept = k }

  pub Keeps-emit : (e : WireEvent) → Keeps {W = W} P (emit e)
  Keeps-emit e = record { kept = emit_kept P e }

  continue_kept :
      {A B : Type 0} (f : A → Exec (Turn W) B)
      → ((a : A) → Keeps P (f a))
      → (r : Result A) (t : Turn W) → Holds P t
      → Holds P (continue r f t).1
  continue_kept f k (Result.ok a) t h = Keeps.kept (k a) t h
  continue_kept f k (Result.err e) t h = h

  pub Keeps-bind :
      {A B : Type 0} (m : Exec (Turn W) A) (f : A → Exec (Turn W) B)
      → Keeps P m
      → ((a : A) → Keeps P (f a))
      → Keeps P (m >>= f)
  unfolding ◌>>=◌
  Keeps-bind m f k l = record { kept = λ t h. continue_kept f l (m t).0 (m t).1 (Keeps.kept k t h) }

  pub Keeps-if :
      {A : Type 0} (b : Bool) (m n : Exec (Turn W) A)
      → Keeps P m
      → Keeps P n
      → Keeps P (if b then m else n)
  Keeps-if true m n k l = k
  Keeps-if false m n k l = l

  pub Keeps-on_option :
      {A B : Type 0} (o : Option A) (m : Exec (Turn W) B) (f : A → Exec (Turn W) B)
      → Keeps P m
      → ((a : A) → Keeps P (f a))
      → Keeps P (on_option o m f)
  unfolding on_option
  Keeps-on_option none m f k l = k
  Keeps-on_option (some a) m f k l = l a

  pub Keeps-on_result :
      {A B : Type 0} (r : Result A) (h : Error → Exec (Turn W) B) (f : A → Exec (Turn W) B)
      → ((e : Error) → Keeps P (h e))
      → ((a : A) → Keeps P (f a))
      → Keeps P (on_result r h f)
  unfolding on_result
  Keeps-on_result (Result.ok a) h f k l = l a
  Keeps-on_result (Result.err e) h f k l = k e

  pub Keeps-attempt : {A : Type 0} (m : Exec (Turn W) A) → Keeps P m → Keeps P (attempt m)
  unfolding attempt
  Keeps-attempt m k = record { kept = Keeps.kept k }

-- A step after one that came to more than what is to hold in the end.
pub bind_kept :
    {W A B : Type 0} (P Q : Claim) (m : Exec (Turn W) A) (f : A → Exec (Turn W) B) (t : Turn W)
    → Holds P (m t).1
    → ((t' : Turn W) → Holds P t' → Holds Q t')
    → ((a : A) (t' : Turn W) → Holds P t' → Holds Q (f a t').1)
    → Holds Q ((m >>= f) t).1
bind_kept P Q m f t h weaker next =
    bind_by (λ r t'. Holds Q t') m f t (λ a _. next a (m t).1 h) (λ e _. weaker (m t).1 h)

-- The rules that fit a step by its form.
pub ruleset keeps_rules = (
  Keeps-pure, Keeps-throw, Keeps-raise, Keeps-rethrow, Keeps-gets, Keeps-outside, Keeps-observe,
  Keeps-nid, Keeps-emit, Keeps-bind, Keeps-if, Keeps-on_option, Keeps-on_result, Keeps-attempt,
)
