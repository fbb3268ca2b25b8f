-- ===== src/Store/Exclusion.antt =====
-- While a lease lasts: `loadConversation` and `saveConversation` of packages/server/src/store.ts.
use haikit.Prelude.{
  ℕ, ◌+◌, ◌≡◌, ◌≤◌, ◌<◌, refl, sym, ap, ◌∙◌, ◌≢◌, inl, inr, true, false, Option, none, some, List,
  [], ◌∷◌, ◌++◌, arith, Text, lit, decimal, decimal-append_injective, drop, =t=_iff, =t=_refl, get,
  set, get-set, ok, err, All,
}
use haikit.Core.Types.{Conversation}
use haikit.Store.Copy.{copy_conversation}
use haikit.Store.Memory.{
  Memory, empty, busy, is_leased, take_lease, load_conversation, save_conversation,
}
use haikit.Store.Trace.{Call, load, save, payload, notice, perform, perform_all, perform_all_keeps}
use haikit.Store.Writes.{
  get_after_set, fence_passes, load_takes, take-Wrote, leased, Wrote, nothing, created, took, saved,
  perform-Wrote,
}

-- An id that the store gave, before its counter passed `n`.
abbrev IsNumbered : ℕ → Text → Type 0
IsNumbered n id = (k : ℕ) × (k ≤ n) × (rest : Text) × (id ≡ lit "conv_" ++ decimal k ++ 95 ∷ rest)

pub record IdsNumbered (m : Memory) : Type 0 where
  pub numbered :
      (id : Text) (c : Conversation) → get id m.conversations ≡ some c → IsNumbered m.conv_seq id

-- What others do during a lease: no load of the conversation comes after the lease has lapsed, and
-- no save of it has the holder's token.
abbrev pub IsForeign : Text → Option Text → ℕ → Call → Type 0
IsForeign id token until (load (some k) now later) = k ≡ id → now < until
IsForeign id token until (save c) = c.id ≡ id → c.lease_token ≢ token
IsForeign id token until (load none now later) = Unit
IsForeign id token until (payload r t now) = Unit
IsForeign id token until (notice r now) = Unit

still_leased :
    (lease_until : Option ℕ) (until now : ℕ)
    → lease_until ≡ some until
    → now < until
    → is_leased lease_until now ≡ true
still_leased lease_until until now e l = rw e (ground arith)

same_stored :
    {V : Type 0} (k id : Text) (m : List (Text × V)) (v w : V)
    → k ≡ id
    → get k m ≡ some v
    → get id m ≡ some w
    → v ≡ w
same_stored k id m v w e p q = cc

module _ (uuid : ℕ → Text) (lease_ms : ℕ) where
  Wrote-IdsNumbered :
      (call : Call) (m n : Memory) → Wrote uuid lease_ms call m n → IdsNumbered m → IdsNumbered n
  Wrote-IdsNumbered call m n (nothing e d s) h = record {
    numbered = λ id c p. rw s (h.numbered id c (rw (← e) p));
  }
  Wrote-IdsNumbered call m n (created c rest p t e d s) h = record {
    numbered = λ id v q. elim (get_after_set c.id id c m.conversations v (rw (← e) q)) [
      | inl (same, _) ↦ (m.conv_seq + 1, omega arith, rest, sym same ∙ p)
      | inr (_, old) ↦ let (k, l, r, f) = h.numbered id v old in (k, omega arith, r, f)
    ];
  }
  Wrote-IdsNumbered call m n (took k stored now later f p l e d s) h = record {
    numbered = λ id v q.
        elim (get_after_set k id (leased uuid lease_ms stored later m.drawn) m.conversations v
          (rw (← e) q)) [
            | inl (same, _) ↦ rw (← same) (rw s (h.numbered k stored p))
            | inr (_, old) ↦ rw s (h.numbered id v old)
          ];
  }
  Wrote-IdsNumbered call m n (saved c stored f p q e d s) h = record {
    numbered = λ id v r.
        elim (get_after_set c.id id (copy_conversation c) m.conversations v (rw (← e) r)) [
          | inl (same, _) ↦ rw (← same) (rw s (h.numbered c.id stored p))
          | inr (_, old) ↦ rw s (h.numbered id v old)
        ];
  }

  pub reachable-IdsNumbered :
      (calls : List Call) → IdsNumbered (perform_all uuid lease_ms calls empty)
  unfolding get
  reachable-IdsNumbered calls =
      perform_all_keeps uuid lease_ms IdsNumbered
        (λ c m h.
          Wrote-IdsNumbered c m (perform uuid lease_ms c m) (perform-Wrote uuid lease_ms c m) h)
        calls empty (record { numbered = λ id c p. cc })

  -- A conversation that a load starts has an id of its own.
  fresh_id :
      (m : Memory) (id : Text) (rest : Text)
      → IsNumbered m.conv_seq id
      → lit "conv_" ++ decimal (m.conv_seq + 1) ++ 95 ∷ rest ≢ id
  fresh_id m id rest (k, l, r, e) p =
      let same : m.conv_seq + 1 ≡ k =
        decimal-append_injective (m.conv_seq + 1) k rest r (ap (drop 5) (p ∙ e)) in
      absurd (omega arith)

  record IsHeld (id : Text) (held : Conversation) (m : Memory) : Type 0 where
    there : get id m.conversations ≡ some held
    ids : IdsNumbered m

  get-set_other :
      {V : Type 0} (k id : Text) (v w : V) (m n : List (Text × V))
      → n ≡ set k v m
      → k ≢ id
      → get id m ≡ some w
      → get id n ≡ some w
  get-set_other k id v w m n e differ p = rw e (ground (arith, get-set k id v m, =t=_iff k id, p))

  Wrote-IsHeld :
      (id : Text) (until : ℕ) (held : Conversation)
      → held.lease_until ≡ some until
      → (call : Call) (m n : Memory) → IsForeign id held.lease_token until call
      → Wrote uuid lease_ms call m n
      → IsHeld id held m
      → IsHeld id held n
  Wrote-IsHeld id until held u call m n f (nothing e d s) h = record {
    there = rw e h.there;
    ids = Wrote-IdsNumbered call m n (nothing e d s) h.ids;
  }
  Wrote-IsHeld id until held u call m n f (created c rest p t e d s) h = record {
    there =
        get-set_other c.id id c held m.conversations n.conversations e
          (rw p (fresh_id m id rest (h.ids.numbered id held h.there))) h.there;
    ids = Wrote-IdsNumbered call m n (created c rest p t e d s) h.ids;
  }
  Wrote-IsHeld id until held u call m n f (took k stored now later g p l e d s) h = record {
    there =
        get-set_other k id (leased uuid lease_ms stored later m.drawn) held m.conversations
          n.conversations e
          (λ same.
            let a : now < until = (rw g at f) same in
            let s : stored ≡ held = same_stored k id m.conversations stored held same p h.there in
            cc (
              l,
              still_leased stored.lease_until until now
                  (ap (λ (v : Conversation). v.lease_until) s ∙ u) a,
            ))
          h.there;
    ids = Wrote-IdsNumbered call m n (took k stored now later g p l e d s) h.ids;
  }
  Wrote-IsHeld id until held u call m n f (saved c stored g p q e d s) h = record {
    there =
        get-set_other c.id id (copy_conversation c) held m.conversations n.conversations e
          (λ same.
            let a : c.lease_token ≢ held.lease_token = (rw g at f) same in
            let s : stored ≡ held =
              same_stored c.id id m.conversations stored held same p h.there in
            a (sym q ∙ ap (λ (v : Conversation). v.lease_token) s))
          h.there;
    ids = Wrote-IdsNumbered call m n (saved c stored g p q e d s) h.ids;
  }

  foreign_calls :
      (id : Text) (until : ℕ) (held : Conversation)
      → held.lease_until ≡ some until
      → (calls : List Call) (m : Memory) → All (IsForeign id held.lease_token until) calls
      → IsHeld id held m
      → IsHeld id held (perform_all uuid lease_ms calls m)
  unfolding perform_all
  foreign_calls id until held u [] m f h = h
  foreign_calls id until held u (c ∷ cs) m f h =
      foreign_calls id until held u cs (perform uuid lease_ms c m) f.1 (
        Wrote-IsHeld id until held u c m (perform uuid lease_ms c m) f.0
          (perform-Wrote uuid lease_ms c m) h)

  IsHeld-save :
      (id : Text) (held c : Conversation) (m : Memory)
      → IsHeld id held m
      → c.id ≡ id
      → c.lease_token ≡ held.lease_token
      → save_conversation c m
        ≡ (ok tt, record m { conversations = set c.id (copy_conversation c) m.conversations })
  unfolding save_conversation
  IsHeld-save id held c m h e t =
      rw (fence_passes c.id c.lease_token m held (rw e h.there) (sym t), save_conversation) refl

  IsHeld-load :
      (id : Text) (held : Conversation) (until now later : ℕ) (m : Memory)
      → IsHeld id held m
      → id ≢ []
      → held.lease_until ≡ some until
      → now < until
      → load_conversation uuid lease_ms (some id) now later m ≡ (err (busy held.id), m)
  unfolding take_lease
  IsHeld-load id held until now later m h ne u l =
      rw (load_takes uuid lease_ms id held now later m ne h.there)
        (rw (still_leased held.lease_until until now u l) refl)

  take-IsHeld :
      (id : Text) (stored : Conversation) (now later : ℕ) (m : Memory)
      → IdsNumbered m
      → get id m.conversations ≡ some stored
      → is_leased stored.lease_until now ≡ false
      → IsHeld id
          (leased uuid lease_ms stored later m.drawn)
          (take_lease uuid lease_ms id stored now later m).1
  take-IsHeld id stored now later m h p lapsed = record {
    there =
        unfold take_lease in
        rw lapsed (
          get-set id id (leased uuid lease_ms stored later m.drawn) m.conversations
          ∙ (rw =t=_refl));
    ids =
        Wrote-IdsNumbered (load (some id) now later) m
          (take_lease uuid lease_ms id stored now later m).1
          (take-Wrote uuid lease_ms id stored now later m p) h;
  }

  -- Let a load take a conversation's lease, and let others make any calls, but load it only before
  -- the lease ends and save it only under other tokens. Then it is still as the holder took it; a
  -- load before the lease ends is refused as busy and changes nothing; and the holder's save goes
  -- through, storing a copy of what it saves.
  pub exclusion :
      (before others : List Call) (id : Text) (stored : Conversation) (now later : ℕ)
      → id ≢ []
      → get id (perform_all uuid lease_ms before empty).conversations ≡ some stored
      → is_leased stored.lease_until now ≡ false
      → All
          (IsForeign id
            (some (uuid (perform_all uuid lease_ms before empty).drawn))
            (later + lease_ms))
          others
      → (at at' : ℕ) → at < later + lease_ms
      → (c : Conversation) → c.id ≡ id
      → c.lease_token ≡ some (uuid (perform_all uuid lease_ms before empty).drawn)
      → let m = perform_all uuid lease_ms before empty in
        let held = leased uuid lease_ms stored later m.drawn in
        let n =
          perform_all uuid lease_ms others
            (load_conversation uuid lease_ms (some id) now later m).1 in
        (get id n.conversations ≡ some held)
        × (load_conversation uuid lease_ms (some id) at at' n ≡ (err (busy held.id), n))
        × (save_conversation c n
            ≡ (ok tt, record n { conversations = set c.id (copy_conversation c) n.conversations }))
  exclusion before others id stored now later ne p lapsed foreign at at' l c e t =
      let m = perform_all uuid lease_ms before empty in
      let held = leased uuid lease_ms stored later m.drawn in
      let n = perform_all uuid lease_ms others (take_lease uuid lease_ms id stored now later m).1 in
      let h : IsHeld id held n =
        foreign_calls id (later + lease_ms) held refl others
          (take_lease uuid lease_ms id stored now later m).1 foreign
          (take-IsHeld id stored now later m (reachable-IdsNumbered before) p lapsed) in
      rw (load_takes uuid lease_ms id stored now later m ne p) (
        h.there,
        IsHeld-load id held (later + lease_ms) at at' n h ne refl l,
        IsHeld-save id held c n h e t,
      )
