-- ===== src/Store/Writes.antt =====
-- What a call of the store can do to the conversations, as packages/server/src/store.ts writes them.
use haikit.Prelude.{
  ℕ, ◌+◌, ◌≡◌, refl, sym, ◌∙◌, ◌≢◌, ◌↔◌, ◌⊎◌, inl, inr, true, false, Option, none, some, [], ◌∷◌,
  ◌++◌, arith, if◌then◌else◌, Bool-cases, Option-cases, Text, lit, decimal, ◌=t=◌, =t=_iff, Map,
  get, set, get-set, Result, ok, err, Error, stale_lease,
}
use haikit.Core.Types.{Conversation}
use haikit.Store.Copy.{copy_conversation}
use haikit.Store.Memory.{
  Memory, never_issued, taken_over, new_conversation, same_token, is_leased, fence,
  create_conversation, take_lease, load_conversation, save_conversation, put_payload, put_notice,
}
use haikit.Store.Trace.{Call, load, save, payload, notice, perform}

pub same_token_iff : (s t : Option Text) → (same_token s t ≡ true) ↔ (s ≡ t)
same_token_iff none none = ground arith
same_token_iff none (some t) = ground arith
same_token_iff (some s) none = ground arith
same_token_iff (some s) (some t) = ground (arith, =t=_iff s t)

pub get_after_set {ℓ} :
    {V : Type ℓ} (k j : Text) (v : V) (m : Map V) (c : V)
    → get j (set k v m) ≡ some c
    → ((k ≡ j) × (v ≡ c)) ⊎ ((k ≢ j) × (get j m ≡ some c))
get_after_set k j v m c h =
    let e : (if k =t= j then some v else get j m) ≡ some c = sym (get-set k j v m) ∙ h in
    elim (Bool-cases (k =t= j)) [
      | inl same ↦ inl ((=t=_iff k j).0 same, ground (arith, e, same))
      | inr differ ↦ inr (λ s. cc (differ, (=t=_iff k j).1 s), ground (arith, e, differ))
    ]

-- A fence that lets a write through found the conversation under the writer's token.
pub fence_ok :
    (id : Text) (token : Option Text) (m : Memory) {u : Unit {0}}
    → fence id token m ≡ ok u
    → (stored : Conversation) × (get id m.conversations ≡ some stored)
      × (stored.lease_token ≡ token)
unfolding fence
fence_ok id token m h = elim (Option-cases (get id m.conversations)) [
  | inl e ↦ ground (arith, e)
  | inr (stored, e) ↦ (stored, e, ground (arith, e, same_token_iff stored.lease_token token))
]

-- One that finds no conversation under the writer's token throws `StaleLease`.
pub fence_stale :
    (id : Text) (token : Option Text) (m : Memory)
    → ((stored : Conversation) → get id m.conversations ≡ some stored → stored.lease_token ≢ token)
    → (e : Error) × (e.name ≡ stale_lease) × (fence id token m ≡ err e)
unfolding fence
fence_stale id token m differ = elim (Option-cases (get id m.conversations)) [
  | inl p ↦ (never_issued id, refl, rw (p, fence) refl)
  | inr (stored, p) ↦ (
    taken_over id,
    refl,
    rw (p, fence) (ground (arith, differ stored p, same_token_iff stored.lease_token token)),
  )
]

pub fence_passes :
    (id : Text) (token : Option Text) (m : Memory) (stored : Conversation)
    → get id m.conversations ≡ some stored
    → stored.lease_token ≡ token
    → fence id token m ≡ ok tt
unfolding fence
fence_passes id token m stored p q =
    rw (p, fence) (ground (arith, q, same_token_iff stored.lease_token token))

module _ (uuid : ℕ → Text) (lease_ms : ℕ) where
  pub load_takes :
      (id : Text) (stored : Conversation) (now later : ℕ) (m : Memory)
      → id ≢ []
      → get id m.conversations ≡ some stored
      → load_conversation uuid lease_ms (some id) now later m
        ≡ take_lease uuid lease_ms id stored now later m
  unfolding load_conversation
  load_takes id stored now later m ne p = ground (arith, p, =t=_iff id [])

  abbrev pub leased : Conversation → ℕ → ℕ → Conversation
  leased c later i = record c { lease_until = some (later + lease_ms); lease_token = some (uuid i) }

  pub data Wrote (call : Call) (m n : Memory) : Type 0 where
    nothing :
        n.conversations ≡ m.conversations
        → n.drawn ≡ m.drawn
        → n.conv_seq ≡ m.conv_seq
        → Wrote call m n
    created :
        (c : Conversation) (rest : Text)
        → c.id ≡ lit "conv_" ++ decimal (m.conv_seq + 1) ++ 95 ∷ rest
        → c.lease_token ≡ some (uuid (m.drawn + 1))
        → n.conversations ≡ set c.id c m.conversations
        → n.drawn ≡ m.drawn + 2
        → n.conv_seq ≡ m.conv_seq + 1
        → Wrote call m n
    took :
        (id : Text) (stored : Conversation) (now later : ℕ)
        → call ≡ load (some id) now later
        → get id m.conversations ≡ some stored
        → is_leased stored.lease_until now ≡ false
        → n.conversations ≡ set id (leased stored later m.drawn) m.conversations
        → n.drawn ≡ m.drawn + 1
        → n.conv_seq ≡ m.conv_seq
        → Wrote call m n
    saved :
        (c stored : Conversation)
        → call ≡ save c
        → get c.id m.conversations ≡ some stored
        → stored.lease_token ≡ c.lease_token
        → n.conversations ≡ set c.id (copy_conversation c) m.conversations
        → n.drawn ≡ m.drawn
        → n.conv_seq ≡ m.conv_seq
        → Wrote call m n

  create-Wrote :
      (call : Call) (now : ℕ) (m : Memory)
      → Wrote call m (create_conversation uuid lease_ms now m).1
  unfolding create_conversation
  create-Wrote call now m =
      created (new_conversation uuid lease_ms now m) _ refl refl refl refl refl

  pub take-Wrote :
      (id : Text) (stored : Conversation) (now later : ℕ) (m : Memory)
      → get id m.conversations ≡ some stored
      → Wrote (load (some id) now later) m (take_lease uuid lease_ms id stored now later m).1
  unfolding take_lease
  take-Wrote id stored now later m e = elim (Bool-cases (is_leased stored.lease_until now)) [
    | inl busy ↦ rw busy (nothing refl refl refl)
    | inr lapsed ↦ rw lapsed (took id stored now later refl e lapsed refl refl refl)
  ]

  load-Wrote :
      (id : Option Text) (now later : ℕ) (m : Memory)
      → Wrote (load id now later) m (load_conversation uuid lease_ms id now later m).1
  unfolding load_conversation
  load-Wrote none now later m = create-Wrote (load none now later) now m
  load-Wrote (some id) now later m = elim (Bool-cases (id =t= [])) [
    | inl e ↦ rw e (create-Wrote (load (some id) now later) now m)
    | inr e ↦ rw e (elim (Option-cases (get id m.conversations)) [
      | inl p ↦ rw p (create-Wrote (load (some id) now later) now m)
      | inr (stored, p) ↦ rw p (take-Wrote id stored now later m p)
    ])
  ]

  save-Wrote : (c : Conversation) (m : Memory) → Wrote (save c) m (save_conversation c m).1
  unfolding save_conversation
  save-Wrote c m = go (fence c.id c.lease_token m) refl
    where
      go :
          (r : Result (Unit {0}))
          → fence c.id c.lease_token m ≡ r
          → Wrote (save c) m (save_conversation c m).1
      go (ok u) e =
          let (stored, p, q) = fence_ok c.id c.lease_token m e in
          rw (e, save_conversation) (saved c stored refl p q refl refl refl)
      go (err x) e = rw (e, save_conversation) (nothing refl refl refl)

  -- Every call does one of these.
  pub perform-Wrote : (c : Call) (m : Memory) → Wrote c m (perform uuid lease_ms c m)
  unfolding perform put_payload put_notice
  perform-Wrote (load id now later) m = load-Wrote id now later m
  perform-Wrote (save c) m = save-Wrote c m
  perform-Wrote (payload r token now) m = nothing (ground arith) (ground arith) (ground arith)
  perform-Wrote (notice r now) m = nothing (ground arith) (ground arith) (ground arith)
