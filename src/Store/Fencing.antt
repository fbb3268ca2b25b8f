-- ===== src/Store/Fencing.antt =====
-- The lease and its fencing token: `loadConversation`, `saveConversation`, `putPayload` and `fence`
-- of packages/server/src/store.ts.
use mathlib.Core.Option
use haikit.Prelude.{
  ℕ, ◌+◌, ◌≡◌, ◌≤◌, ◌<◌, refl, sym, ap, ◌∙◌, ◌≢◌, inl, inr, false, Option, some, List, [], arith,
  Text, get, set, Result, err, Error, stale_lease,
}
use haikit.Core.Types.{Conversation, PayloadBody}
use haikit.Store.Storable.{storable}
use haikit.Store.Copy.{copy_conversation}
use haikit.Store.Memory.{
  Memory, empty, is_leased, take_lease, load_conversation, save_conversation, put_payload,
}
use haikit.Store.Trace.{Call, perform, perform_all, perform_all_keeps, IsUuid}
use haikit.Store.Writes.{
  get_after_set, fence_stale, leased, load_takes, Wrote, nothing, created, took, saved,
  perform-Wrote,
}

-- The call throws `StaleLease` and changes nothing.
abbrev pub Refuses {ℓ} : {A : Type ℓ} → (Memory → Result A × Memory) → Memory → Type ℓ
Refuses op m = (e : Error) × (e.name ≡ stale_lease) × (op m ≡ (err e, m))

module _ (uuid : ℕ → Text) (is_uuid : IsUuid storable uuid) (lease_ms : ℕ) where
  abbrev IsIssued : ℕ → Option Text → Type 0
  IsIssued drawn token = (i : ℕ) × (i < drawn) × (token ≡ some (uuid i))

  -- Every stored token is one that was drawn.
  pub record TokensIssued (m : Memory) : Type 0 where
    pub issued :
        (id : Text) (c : Conversation)
        → get id m.conversations ≡ some c
        → IsIssued m.drawn c.lease_token

  set-TokensIssued :
      (m n : Memory) (k : Text) (c : Conversation)
      → TokensIssued m
      → m.drawn ≤ n.drawn
      → n.conversations ≡ set k c m.conversations
      → IsIssued n.drawn c.lease_token
      → TokensIssued n
  set-TokensIssued m n k c h le e new = record {
    issued = λ id d p. elim (get_after_set k id c m.conversations d (rw (← e) p)) [
      | inl (_, q) ↦ rw (← q) new
      | inr (_, old) ↦ let (i, l, t) = h.issued id d old in (i, omega arith, t)
    ];
  }

  kept_token :
      (i : ℕ) (token : Option Text)
      → token ≡ some (uuid i)
      → Option.map storable token ≡ some (uuid i)
  kept_token i token e = rw e (ap some (is_uuid.kept i))

  -- The copy that a save stores has the token that the fence found.
  saved_token :
      (m : Memory) (c stored : Conversation)
      → TokensIssued m
      → get c.id m.conversations ≡ some stored
      → stored.lease_token ≡ c.lease_token
      → (i : ℕ) × (i < m.drawn)
        × (stored.lease_token ≡ some (uuid i))
        × ((copy_conversation c).lease_token ≡ some (uuid i))
  unfolding copy_conversation
  saved_token m c stored h p q =
      let (i, l, t) = h.issued c.id stored p in (i, l, t, kept_token i c.lease_token (sym q ∙ t))

  Wrote-TokensIssued :
      (call : Call) (m n : Memory) → Wrote uuid lease_ms call m n → TokensIssued m → TokensIssued n
  Wrote-TokensIssued call m n (nothing e d _) h = record {
    issued = λ id c p. rw d (h.issued id c (rw (← e) p));
  }
  Wrote-TokensIssued call m n (created c rest _ t e d _) h =
      set-TokensIssued m n c.id c h (omega arith) e (m.drawn + 1, omega arith, t)
  Wrote-TokensIssued call m n (took id stored now later _ _ _ e d _) h =
      set-TokensIssued m n id (leased uuid lease_ms stored later m.drawn) h (omega arith) e
        (m.drawn, omega arith, refl)
  Wrote-TokensIssued call m n (saved c stored _ p q e d _) h =
      let (i, l, _, t) = saved_token m c stored h p q in
      set-TokensIssued m n c.id (copy_conversation c) h (omega arith) e (i, omega arith, t)

  empty-TokensIssued : TokensIssued empty
  unfolding get
  empty-TokensIssued = record { issued = λ id c p. cc }

  -- Somebody else has taken the conversation over from the holder of the token `uuid i`.
  pub record IsOvertaken (id : Text) (i : ℕ) (m : Memory) : Type 0 where
    pub tokens : TokensIssued m
    pub drawn_before : i < m.drawn
    pub stored :
        (c : Conversation) → get id m.conversations ≡ some c → c.lease_token ≢ some (uuid i)

  set-IsOvertaken :
      (id : Text) (i : ℕ) (m n : Memory) (k : Text) (c : Conversation)
      → IsOvertaken id i m
      → TokensIssued n
      → m.drawn ≤ n.drawn
      → n.conversations ≡ set k c m.conversations
      → (k ≡ id → c.lease_token ≢ some (uuid i))
      → IsOvertaken id i n
  set-IsOvertaken id i m n k c h tokens le e new = record {
    tokens = tokens;
    drawn_before = omega (arith, h.drawn_before);
    stored = λ d p. elim (get_after_set k id c m.conversations d (rw (← e) p)) [
      | inl (s, q) ↦ rw (← q) (new s)
      | inr (_, old) ↦ h.stored d old
    ];
  }

  later_token :
      (i j : ℕ) (token : Option Text) → i < j → token ≡ some (uuid j) → token ≢ some (uuid i)
  later_token i j token l e p =
      let same : i ≡ j = is_uuid.injective i j (cc) in absurd (omega arith)

  Wrote-IsOvertaken :
      (id : Text) (i : ℕ) (call : Call) (m n : Memory)
      → Wrote uuid lease_ms call m n
      → IsOvertaken id i m
      → IsOvertaken id i n
  Wrote-IsOvertaken id i call m n (nothing e d s) h = record {
    tokens = Wrote-TokensIssued call m n (nothing e d s) h.tokens;
    drawn_before = omega (arith, h.drawn_before);
    stored = λ c p. h.stored c (rw (← e) p);
  }
  Wrote-IsOvertaken id i call m n (created c rest p t e d s) h =
      set-IsOvertaken id i m n c.id c h
        (Wrote-TokensIssued call m n (created c rest p t e d s) h.tokens) (omega arith) e
        (λ _. later_token i (m.drawn + 1) c.lease_token (omega (arith, h.drawn_before)) t)
  Wrote-IsOvertaken id i call m n (took k stored now later f p l e d s) h =
      set-IsOvertaken id i m n k (leased uuid lease_ms stored later m.drawn) h
        (Wrote-TokensIssued call m n (took k stored now later f p l e d s) h.tokens) (omega arith) e
        (λ _. later_token i m.drawn (some (uuid m.drawn)) h.drawn_before refl)
  Wrote-IsOvertaken id i call m n (saved c stored f p q e d s) h =
      let (j, _, t, t') = saved_token m c stored h.tokens p q in
      set-IsOvertaken id i m n c.id (copy_conversation c) h
        (Wrote-TokensIssued call m n (saved c stored f p q e d s) h.tokens) (omega arith) e
        (λ same u. h.stored stored (rw (← same) p) (t ∙ sym t' ∙ u))

  -- Any calls, whoever makes them.
  reachable-TokensIssued :
      (calls : List Call) → TokensIssued (perform_all uuid lease_ms calls empty)
  reachable-TokensIssued calls =
      perform_all_keeps uuid lease_ms TokensIssued
        (λ c m h.
          Wrote-TokensIssued c m (perform uuid lease_ms c m) (perform-Wrote uuid lease_ms c m) h)
        calls empty empty-TokensIssued

  stays-IsOvertaken :
      (id : Text) (i : ℕ) (calls : List Call) (m : Memory)
      → IsOvertaken id i m
      → IsOvertaken id i (perform_all uuid lease_ms calls m)
  stays-IsOvertaken id i calls m h =
      perform_all_keeps uuid lease_ms (IsOvertaken id i)
        (λ c n k.
          Wrote-IsOvertaken id i c n (perform uuid lease_ms c n) (perform-Wrote uuid lease_ms c n)
            k)
        calls m h

  take-IsOvertaken :
      (id : Text) (stored : Conversation) (i now later : ℕ) (m : Memory)
      → TokensIssued m
      → get id m.conversations ≡ some stored
      → stored.lease_token ≡ some (uuid i)
      → i < m.drawn
      → is_leased stored.lease_until now ≡ false
      → IsOvertaken id i (take_lease uuid lease_ms id stored now later m).1
  unfolding take_lease
  take-IsOvertaken id stored i now later m h p t l lapsed =
      let n : Memory = record m {
        conversations = set id (leased uuid lease_ms stored later m.drawn) m.conversations;
        drawn = m.drawn + 1;
      } in
      rw lapsed (record {
        tokens =
            set-TokensIssued m n id (leased uuid lease_ms stored later m.drawn) h (omega arith) refl
              (m.drawn, omega arith, refl);
        drawn_before = omega arith;
        stored = λ c q.
            elim (get_after_set id id (leased uuid lease_ms stored later m.drawn) m.conversations c
              q) [
                | inl (_, e) ↦ rw (← e) (later_token i m.drawn (some (uuid m.drawn)) l refl)
                | inr (differ, _) ↦ absurd (differ refl)
              ];
      })

  IsOvertaken-Refuses :
      (id : Text) (i : ℕ) (m : Memory)
      → IsOvertaken id i m
      → (c : Conversation) (r : PayloadBody) (at : ℕ) → c.id ≡ id
      → c.lease_token ≡ some (uuid i)
      → r.conversation_id ≡ id
      → Refuses (save_conversation c) m × Refuses (put_payload r c.lease_token at) m
  unfolding save_conversation put_payload
  IsOvertaken-Refuses id i m h c r at p t q =
      let (e, s, f) = fence_stale c.id c.lease_token m (λ d g. rw t (h.stored d (rw (← p) g))) in
      let (e', s', f') =
        fence_stale r.conversation_id c.lease_token m (λ d g. rw t (h.stored d (rw (← q) g))) in
      ((e, s, rw (f, save_conversation) refl), (e', s', rw (f', put_payload) refl))

  -- Let a holder's lease have lapsed, and let another request load the conversation. From then on,
  -- whatever calls follow, from whomever: every save and every payload write under the old token is
  -- refused with `StaleLease` and changes nothing. So a turn that was overtaken can never write over
  -- the turn that overtook it.
  pub fencing :
      (before after : List Call) (id : Text) (stored : Conversation) (now later : ℕ)
      → id ≢ []
      → get id (perform_all uuid lease_ms before empty).conversations ≡ some stored
      → is_leased stored.lease_until now ≡ false
      → (c : Conversation) (r : PayloadBody) (at : ℕ) → c.id ≡ id
      → c.lease_token ≡ stored.lease_token
      → r.conversation_id ≡ id
      → let m =
          perform_all uuid lease_ms after
            (load_conversation uuid lease_ms
              (some id)
              now
              later
              (perform_all uuid lease_ms before empty)).1 in
        Refuses (save_conversation c) m × Refuses (put_payload r c.lease_token at) m
  fencing before after id stored now later ne p lapsed c r at same token same' =
      let m = perform_all uuid lease_ms before empty in
      let (i, l, t) = (reachable-TokensIssued before).issued id stored p in
      let taken =
        take-IsOvertaken id stored i now later m (reachable-TokensIssued before) p t l lapsed in
      rw (load_takes uuid lease_ms id stored now later m ne p) (
        IsOvertaken-Refuses id i
          (perform_all uuid lease_ms after (take_lease uuid lease_ms id stored now later m).1)
          (stays-IsOvertaken id i after (take_lease uuid lease_ms id stored now later m).1 taken) c
          r at same (token ∙ t) same')
