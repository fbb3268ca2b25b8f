-- ===== src/Store/Payloads.antt =====
-- `putPayload`, `getPayload` and `getPayloads` of packages/server/src/store.ts: handles, scoping,
-- and that a payload never changes.
use haikit.Prelude.{
  ℕ, ◌+◌, ◌≡◌, ◌≤◌, refl, sym, ap, ◌∙◌, ◌≢◌, inl, inr, Option, none, some, List, [], ◌∷◌, arith,
  if◌then◌else◌, Option-cases, Text, ◌=t=◌, =t=_iff, =t=_refl, get, set, get-set, drop,
  pad_start_2-decimal_injective, Result, ok, err,
}
use haikit.Core.Types.{PayloadRecord, PayloadBody, whole}
use haikit.Store.Copy.{copy_payload}
use haikit.Store.Storable.{storable}
use haikit.Store.Memory.{
  Memory, empty, handle_of, fence, load_conversation, create_conversation, take_lease,
  save_conversation, put_payload, put_notice, get_payload,
}
use haikit.Store.Trace.{Call, load, save, payload, notice, perform, perform_all, perform_all_keeps}
use haikit.Store.Writes.{get_after_set}

-- Two handles that a store gives are different: the number can be read back.
pub handle_of_injective : (i j : ℕ) → handle_of i ≡ handle_of j → i ≡ j
unfolding handle_of
handle_of_injective i j e = pad_start_2-decimal_injective i j (ap (drop 3) e)

put_ok :
    (r : PayloadBody) (token : Option Text) (now : ℕ) (handle : Text) (m : Memory)
    → (put_payload r token now m).0 ≡ ok handle
    → (handle ≡ handle_of (m.handle_seq + 1))
      × ((put_payload r token now m).1 ≡ record m {
        handle_seq = m.handle_seq + 1;
        payloads =
            set handle
              (copy_payload (record { body = r; handle = handle; created_at = whole now }))
              m.payloads;
      })
unfolding put_payload
put_ok r token now handle m e = ground arith

get_payload_of :
    (m : Memory) (handle id : Text) (r : PayloadRecord)
    → get handle m.payloads ≡ some r
    → get_payload handle id m ≡ (if r.conversation_id =t= id then some (copy_payload r) else none)
get_payload_of m handle id r p = unfold get_payload in rw (p, get_payload) refl

module _ (uuid : ℕ → Text) (lease_ms : ℕ) where
  -- The payloads stand under handles that were given, no later than the counter says.
  pub record HandlesGiven (m : Memory) : Type 0 where
    pub given :
        (h : Text) (r : PayloadRecord)
        → get h m.payloads ≡ some r
        → (i : ℕ) × (i ≤ m.handle_seq) × (h ≡ handle_of i)

  data Added (m n : Memory) : Type 0 where
    same : n.payloads ≡ m.payloads → n.handle_seq ≡ m.handle_seq → Added m n
    more :
        (r : PayloadRecord)
        → n.payloads ≡ set (handle_of (m.handle_seq + 1)) r m.payloads
        → n.handle_seq ≡ m.handle_seq + 1
        → Added m n

  put-Added :
      (r : PayloadBody) (token : Option Text) (now : ℕ) (m : Memory)
      → Added m (put_payload r token now m).1
  put-Added r token now m = go (fence r.conversation_id token m) refl
    where
      go :
          (f : Result (Unit {0}))
          → fence r.conversation_id token m ≡ f
          → Added m (put_payload r token now m).1
      go (ok u) e =
          unfold put_payload in
          rw (e, put_payload)
            (more
              (copy_payload (record {
                body = r;
                handle = handle_of (m.handle_seq + 1);
                created_at = whole now;
              }))
              refl refl)
      go (err x) e = unfold put_payload in rw (e, put_payload) (same refl refl)

  perform-Added : (c : Call) (m : Memory) → Added m (perform uuid lease_ms c m)
  unfolding perform load_conversation create_conversation take_lease save_conversation put_notice
  perform-Added (load none now later) m = same refl refl
  perform-Added (load (some k) now later) m = same (ground arith) (ground arith)
  perform-Added (save c) m = same (ground arith) (ground arith)
  perform-Added (payload r token now) m = put-Added r token now m
  perform-Added (notice r now) m = same (ground arith) (ground arith)

  Added-HandlesGiven : (m n : Memory) → Added m n → HandlesGiven m → HandlesGiven n
  Added-HandlesGiven m n (same e s) h = record { given = λ k r p. rw s (h.given k r (rw (← e) p)) }
  Added-HandlesGiven m n (more r e s) h = record {
    given = λ k q p.
        elim (get_after_set (handle_of (m.handle_seq + 1)) k r m.payloads q (rw (← e) p)) [
          | inl (t, _) ↦ (m.handle_seq + 1, omega arith, sym t)
          | inr (_, old) ↦ let (i, l, t) = h.given k q old in (i, omega arith, t)
        ];
  }

  perform-HandlesGiven :
      (c : Call) (m : Memory) → HandlesGiven m → HandlesGiven (perform uuid lease_ms c m)
  perform-HandlesGiven c m h =
      Added-HandlesGiven m (perform uuid lease_ms c m) (perform-Added c m) h

  pub reachable-HandlesGiven :
      (calls : List Call) → HandlesGiven (perform_all uuid lease_ms calls empty)
  unfolding get
  reachable-HandlesGiven calls =
      perform_all_keeps uuid lease_ms HandlesGiven perform-HandlesGiven calls empty
        (record { given = λ k r p. cc })

  Added-keeps :
      (m n : Memory) (k : Text) (r : PayloadRecord)
      → HandlesGiven m
      → Added m n
      → get k m.payloads ≡ some r
      → get k n.payloads ≡ some r
  Added-keeps m n k r h (same e s) p = rw e p
  Added-keeps m n k r h (more q e s) p =
      let (i, l, t) = h.given k r p in
      let differ : handle_of (m.handle_seq + 1) ≢ k = λ f.
        let j : m.handle_seq + 1 ≡ i = handle_of_injective (m.handle_seq + 1) i (f ∙ t) in
        absurd (omega arith) in
      rw e (
        ground (
          arith,
          get-set (handle_of (m.handle_seq + 1)) k q m.payloads,
          =t=_iff (handle_of (m.handle_seq + 1)) k,
          p,
        ))

  calls_keep :
      (calls : List Call) (m : Memory) (k : Text) (r : PayloadRecord)
      → HandlesGiven m
      → get k m.payloads ≡ some r
      → get k (perform_all uuid lease_ms calls m).payloads ≡ some r
  unfolding perform_all
  calls_keep [] m k r h p = p
  calls_keep (c ∷ cs) m k r h p =
      calls_keep cs (perform uuid lease_ms c m) k r (perform-HandlesGiven c m h)
        (Added-keeps m (perform uuid lease_ms c m) k r h (perform-Added c m) p)

  fresh_handle :
      (m : Memory) → HandlesGiven m → get (handle_of (m.handle_seq + 1)) m.payloads ≡ none
  fresh_handle m h = elim (Option-cases (get (handle_of (m.handle_seq + 1)) m.payloads)) [
    | inl e ↦ e
    | inr (r, e) ↦
        let (i, l, t) = h.given (handle_of (m.handle_seq + 1)) r e in
        let j : m.handle_seq + 1 ≡ i = handle_of_injective (m.handle_seq + 1) i t in
        absurd (omega arith)
  ]

  -- A write that succeeds gives a handle that no payload had. Whatever calls follow, that handle
  -- reads back as a copy of what was written then, and only for its own conversation: for any other
  -- it reads as missing.
  pub payload_written :
      (before after : List Call) (r : PayloadBody) (token : Option Text) (now : ℕ)
      (handle id : Text)
      → (put_payload r token now (perform_all uuid lease_ms before empty)).0 ≡ ok handle
      → let m = perform_all uuid lease_ms before empty in
        let written = copy_payload (record { body = r; handle = handle; created_at = whole now }) in
        (get handle m.payloads ≡ none)
        × (get_payload handle id (perform_all uuid lease_ms after (put_payload r token now m).1)
            ≡ (if storable r.conversation_id =t= id then some (copy_payload written) else none))
  payload_written before after r token now handle id e =
      let m = perform_all uuid lease_ms before empty in
      let written = copy_payload (record { body = r; handle = handle; created_at = whole now }) in
      let (given, state) = put_ok r token now handle m e in
      let h = reachable-HandlesGiven before in
      let n : Memory = record m {
        handle_seq = m.handle_seq + 1;
        payloads = set handle written m.payloads;
      } in
      let there : get handle n.payloads ≡ some written =
        get-set handle handle written m.payloads ∙ (rw =t=_refl) in
      let given_after : HandlesGiven n =
        Added-HandlesGiven m n (more written (ap (λ k. set k written m.payloads) given) refl) h in
      (
        rw given (fresh_handle m h),
        rw state (
            get_payload_of (perform_all uuid lease_ms after n) handle id written
              (calls_keep after n handle written given_after there)
            ∙ (unfold copy_payload in refl)),
      )
