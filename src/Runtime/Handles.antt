-- ===== src/Runtime/Handles.antt =====
-- `currentHandle` of packages/server/src/runtime.ts: the latest revision of a surface.
use haikit.Prelude.{
  ℕ, zero, suc, ◌≡◌, ◌≤◌, ◌<◌, ◌⊎◌, refl, ap, inl, inr, Bool, true, false, Option, none, some, List,
  [], ◌∷◌, arith, if◌then◌else◌, Bool-cases, Option-cases, Text, ◌=t=◌, =t=_iff, Map, get, length,
}
use haikit.Core.Types.{Conversation}

unfoldable pub includes : List Text → Text → Bool
includes [] h = false
includes (x ∷ xs) h = if x =t= h then true else includes xs h

-- `superseded?.[handle]`, where an empty string is falsy.
abbrev truthy : Option Text → Option Text
truthy none = none
truthy (some []) = none
truthy (some (u ∷ s)) = some (u ∷ s)

unfoldable pub revised : Map Text → Text → Option Text
revised superseded handle = truthy (get handle superseded)

-- The loop, with the handles that it has seen; `none` where the rounds run out before it ends.
unfoldable pub current_from : ℕ → Map Text → List Text → Text → Option Text
unfolding includes revised
current_from zero m seen at = none
current_from (suc rounds) m seen at =
    let step = λ (next : Text). current_from rounds m (at ∷ seen) next in
    elim (revised m at) [
      | none ↦ some at
      | some next ↦ if includes seen at then some at else step next
    ]

-- Each round sees one more of the keys, so one more round than there are entries is enough.
unfoldable pub current_within : ℕ → Conversation → Text → Option Text
unfolding current_from
current_within rounds c handle = current_from rounds c.superseded [] handle

abbrev or_first : Text → Option Text → Text
or_first handle none = handle
or_first handle (some latest) = latest

-- The source has no case for rounds that ran out.
unfoldable pub current_handle : Conversation → Text → Text
unfolding current_within
current_handle c handle = or_first handle (current_within (suc (length c.superseded)) c handle)

-- One handle leads to another by revisions.
pub data Revises (m : Map Text) (h : Text) : Text → Type 0 where
  here : Revises m h h
  further : {k l : Text} → Revises m h k → revised m k ≡ some l → Revises m h l

-- How many entries have a key that was not seen.
unseen : List Text → Map Text → ℕ
unseen seen [] = 0
unseen seen ((k, v) ∷ m) = if includes seen k then unseen seen m else suc (unseen seen m)

unseen_le : (at : Text) (seen : List Text) (m : Map Text) → unseen (at ∷ seen) m ≤ unseen seen m
unfolding unseen includes
unseen_le at seen [] = omega arith
unseen_le at seen ((k, v) ∷ m) = ground (arith, unseen_le at seen m)

unseen_lt :
    (at : Text) (seen : List Text) (m : Map Text) (v : Text)
    → get at m ≡ some v
    → includes seen at ≡ false
    → unseen (at ∷ seen) m < unseen seen m
unfolding unseen includes get
unseen_lt at seen [] v p n = cc
unseen_lt at seen ((k, w) ∷ m) v p n = elim (Bool-cases (k =t= at)) [
  | inl e ↦
      let s : k ≡ at = (=t=_iff k at).0 e in
      ground (arith, unseen_le at seen m, =t=_iff k at, =t=_iff at k, s)
  | inr e ↦ ground (arith, unseen_lt at seen m v (ground (arith, p, e)) n)
]

revised-get :
    (m : Map Text) (h next : Text) → revised m h ≡ some next → (v : Text) × (get h m ≡ some v)
unfolding revised
revised-get m h next e = elim (Option-cases (get h m)) [
  | inl p ↦ cc (ap truthy p)
  | inr found ↦ found
]

unseen_nil : (m : Map Text) → unseen [] m ≡ length m
unfolding unseen includes
unseen_nil [] = refl
unseen_nil ((k, v) ∷ m) = ap suc (unseen_nil m)

-- What the loop has seen leads round to where it is.
abbrev SeenLeads : Map Text → List Text → Text → Type 0
SeenLeads m seen at =
    (x : Text)
    → includes seen x ≡ true
    → (next : Text) × (revised m x ≡ some next) × Revises m next at

-- Where a chain of revisions ends: at a handle that was not revised, or at one that leads back to
-- itself.
abbrev pub EndsAt : Map Text → Text → Type 0
EndsAt m r = (revised m r ≡ none) ⊎ ((next : Text) × (revised m r ≡ some next) × Revises m next r)

SeenLeads-step :
    (m : Map Text) (seen : List Text) (at next : Text)
    → revised m at ≡ some next
    → SeenLeads m seen at
    → SeenLeads m (at ∷ seen) next
unfolding includes
SeenLeads-step m seen at next e h x i = elim (Bool-cases (at =t= x)) [
  | inl same ↦ (next, rw (← (=t=_iff at x).0 same) e, here)
  | inr other ↦ let (n, p, q) = h x (ground (arith, i, other)) in (n, p, further q e)
]

Revises-first : {m : Map Text} {h k l : Text} → revised m h ≡ some k → Revises m k l → Revises m h l
Revises-first e here = further here e
Revises-first e (further r f) = further (Revises-first e r) f

-- The loop ended, at a revision of where it was that is the last, or on a circle.
abbrev Ends : Map Text → Text → Option Text → Type 0
Ends m at found = (r : Text) × (found ≡ some r) × Revises m at r × EndsAt m r

current_from-Ends :
    (rounds : ℕ) (m : Map Text) (seen : List Text) (at : Text)
    → unseen seen m < rounds
    → SeenLeads m seen at
    → Ends m at (current_from rounds m seen at)
unfolding current_from
current_from-Ends zero m seen at l h = elim l [ ]
current_from-Ends (suc rounds) m seen at l h = elim (Option-cases (revised m at)) [
  | inl e ↦ (at, rw (e, current_from) refl, here, inl e)
  | inr (next, e) ↦ elim (Bool-cases (includes seen at)) [
    | inl old ↦ (at, rw (e, current_from, old) refl, here, inr (h at old))
    | inr new ↦
        let (v, p) = revised-get m at next e in
        let less = unseen_lt at seen m v p new in
        let (r, f, chain, end) =
          current_from-Ends rounds m (at ∷ seen) next (omega arith)
            (SeenLeads-step m seen at next e h) in
        (r, rw (e, current_from, new) f, Revises-first e chain, end)
  ]
]

-- More rounds change nothing.
more_rounds :
    (rounds more : ℕ) (m : Map Text) (seen : List Text) (at r : Text)
    → rounds ≤ more
    → current_from rounds m seen at ≡ some r
    → current_from more m seen at ≡ some r
unfolding current_from
more_rounds zero more m seen at r l = λ e. cc
more_rounds (suc rounds) zero m seen at r l = absurd (omega arith)
more_rounds (suc rounds) (suc more) m seen at r l = elim (Option-cases (revised m at)) [
  | inl p ↦ rw (p, current_from) (λ e. e)
  | inr (next, p) ↦ elim (Bool-cases (includes seen at)) [
    | inl old ↦ rw (p, current_from, old) (λ e. e)
    | inr new ↦
        rw (p, current_from, new) (more_rounds rounds more m (at ∷ seen) next r (omega arith))
  ]
]

-- The loop ends by its own test, never for want of rounds: with any number of rounds above the number
-- of revisions it ends at the same handle, the current one, which is a revision of the handle that was
-- not revised itself, unless the chain runs in a circle, and then on that circle.
pub current_handle-EndsAt :
    (c : Conversation) (handle : Text) (rounds : ℕ)
    → length c.superseded < rounds
    → (current_within rounds c handle ≡ some (current_handle c handle))
      × Revises c.superseded handle (current_handle c handle)
      × EndsAt c.superseded (current_handle c handle)
unfolding current_handle current_within includes
current_handle-EndsAt c handle rounds l =
    let m = c.superseded in
    let enough = suc (length m) in
    let (r, f, chain, end) =
      current_from-Ends enough m [] handle (omega (arith, unseen_nil m)) (λ x i. cc) in
    let is_r : current_handle c handle ≡ r = ap (or_first handle) f in
    rw is_r (more_rounds enough rounds m [] handle r (omega arith) f, chain, end)
