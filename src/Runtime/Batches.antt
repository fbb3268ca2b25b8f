-- ===== src/Runtime/Batches.antt =====
-- The calls of one reply: their results, and the one that asked, are all of them. `runTurn` of
-- packages/server/src/runtime.ts.
use haikit.Prelude.{
  ◌+◌, ◌≡◌, refl, sym, subst, ◌∙◌, Bool, true, false, Option, none, some, List, [], ◌∷◌, ◌++◌, Text,
  Result, Exec, ◌>>=◌, ◌>>◌, pure, on_option, is_stale_lease, bind_by, Option-cases, Bool-cases,
  inl, inr, append_assoc, append-nil,
}
use mathlib.Core.List.{Perm}
use mathlib.Core.List.Perm
use haikit.Core.Types.{Conversation, Message, Pending}
use haikit.Runtime.Types.{
  Hai, Turn, Question, Asking, WireEvent, BlockStatus, tool_block, block_update,
}
use haikit.Runtime.Actions.{emit, nid, is_surface_event}
use haikit.Runtime.Tools.{ToolCall, Outcome}
use haikit.Runtime.Invoke.{invoke_tool}
use haikit.Runtime.Loop.{Batch, record_call, run_call, run_calls}
use haikit.Runtime.Keeps.{Claim, Holds}
use haikit.Runtime.Frame.{is_some, Asks, Asks-earlier}
use haikit.Runtime.Settled.{Settled, invoke_tool-Settled}
use haikit.Runtime.History.{call_ids, tally, tally_answered, tally_parked}

-- An event never stops the code, and changes nothing that a claim reads.
pub emit_by :
    {W B : Type 0} (P : Claim) (Q : Result B → Turn W → Type 0) (e : WireEvent)
    (f : Unit {0} → Exec (Turn W) B) (t : Turn W)
    → Holds P t
    → ((t' : Turn W) → Holds P t' → Q (f tt t').0 (f tt t').1)
    → Q ((emit e >>= f) t).0 ((emit e >>= f) t).1
unfolding emit ◌>>=◌
emit_by P Q e f t h k = elim (Option-cases t.held) [
  | inl p ↦ rw p (k _ h)
  | inr (l, p) ↦ elim (Bool-cases (is_surface_event e)) [
    | inl q ↦ rw (p, q) (k _ h)
    | inr q ↦ rw (p, q) (k _ h)
  ]
]

-- A batch after calls with these ids: all are there, and one that is parked is the reply's question.
unfoldable pub Tallied :
    List Message → Option Pending → List Text → Option Asking → Conversation → Result Batch → Type 0
Tallied messages pending ids asking c (Result.err e) = is_stale_lease e ≡ true
Tallied messages pending ids asking c (Result.ok b) =
    Perm (tally b) ids
    × (is_some b.parked ≡ true → is_some asking ≡ true)
    × (c.messages ≡ messages)
    × (c.pending ≡ pending)

abbrev Paused : Option Asking → Conversation → Claim
Paused asking c ran asked asking' lost c' = (asking' ≡ asking) × (c' ≡ c)

more-Tallied :
    (messages : List Message) (pending : Option Pending) (now before : List Text) (id : Text)
    (ids : List Text) (asking : Option Asking) (c : Conversation) (r : Result Batch)
    → Perm now (before ++ id ∷ [])
    → Tallied messages pending (now ++ ids) asking c r
    → Tallied messages pending (before ++ id ∷ ids) asking c r
unfolding Tallied
more-Tallied messages pending now before id ids asking c (Result.err e) p h = h
more-Tallied messages pending now before id ids asking c (Result.ok b) p h = (
  Perm.trans h.0 (
      subst (Perm (now ++ ids)) (append_assoc before (id ∷ []) ids)
        (Perm.append p (Perm.refl ids))),
  h.1,
  h.2,
  h.3,
)

Asks-now : (before asking : Bool) → Asks before true asking → asking ≡ true
Asks-now true asking h = elim h [ ]
Asks-now false true h = refl
Asks-now false false h = elim h [ ]

no_question :
    (o : Option (Text × Question)) (before asking : Bool)
    → (is_some o ≡ true → before ≡ true)
    → Asks before true asking
    → o ≡ none
no_question none before asking p h = refl
no_question (some q) true asking p h = elim h [ ]
no_question (some q) false asking p h = cc (p refl)

module _ {W : Type 0} (hai : Hai W) where
  -- After the call: its result, or its question.
  recorded-Tallied :
      (id : Text) (call : ToolCall) (b : Batch) (m : Text) (o : Option Question)
      (messages : List Message) (pending : Option Pending) (before : Bool) (t : Turn W)
      → (is_some b.parked ≡ true → before ≡ true)
      → Settled messages pending before t.asking t.conversation
          (Result.ok (record { model = m; asked = o }))
      → let r = record_call hai id call b (record { model = m; asked = o }) t in
        Tallied messages pending (tally b ++ call.id ∷ []) r.1.asking r.1.conversation r.0
  unfolding record_call on_option pure Tallied
  recorded-Tallied id call b m none messages pending before t p s =
      emit_by (Paused t.asking t.conversation)
        (λ r t'. Tallied messages pending (tally b ++ call.id ∷ []) t'.asking t'.conversation r)
        (block_update id BlockStatus.ok m) _ t (refl, refl)
        (λ t' h. (
          tally_answered b call.id m,
          λ e. rw (h.0) (
              Asks-earlier false (is_some t.asking)
                (subst (λ x. Asks x false (is_some t.asking)) (p e) s.0)),
          rw (h.1) (s.1),
          rw (h.1) (s.2),
        ))
  recorded-Tallied id call b m (some q) messages pending before t p s =
      emit_by (Paused t.asking t.conversation)
        (λ r t'. Tallied messages pending (tally b ++ call.id ∷ []) t'.asking t'.conversation r)
        (block_update id BlockStatus.awaiting q.digest) _ t (refl, refl)
        (λ t' h. (
          tally_parked b call.id q (no_question b.parked before (is_some t.asking) p s.0),
          λ e. rw (h.0) (Asks-now before (is_some t.asking) s.0),
          rw (h.1) (s.1),
          rw (h.1) (s.2),
        ))

  invoked-Tallied :
      (id : Text) (call : ToolCall) (b : Batch) (t : Turn W)
      → (is_some b.parked ≡ true → is_some t.asking ≡ true)
      → let r = (invoke_tool hai false id call >>= record_call hai id call b) t in
        Tallied t.conversation.messages t.conversation.pending
          (tally b ++ call.id ∷ [])
          r.1.asking
          r.1.conversation
          r.0
  unfolding Tallied
  invoked-Tallied id call b t p =
      let c = t.conversation in
      let settled = invoke_tool-Settled hai id call t in
      let t1 : Turn W = (invoke_tool hai false id call t).1 in
      let Ended : Result Outcome → Type 0 =
        Settled c.messages c.pending (is_some t.asking) t1.asking t1.conversation in
      bind_by
        (λ r t'. Tallied c.messages c.pending (tally b ++ call.id ∷ []) t'.asking t'.conversation r)
        (invoke_tool hai false id call) (record_call hai id call b) t
        (λ o e.
          recorded-Tallied id call b o.model o.asked c.messages c.pending (is_some t.asking) t1 p
            (subst Ended e settled))
        (λ x e. (subst Ended e settled).0)

  announced-Tallied :
      (id : Text) (call : ToolCall) (b : Batch) (t : Turn W)
      → (is_some b.parked ≡ true → is_some t.asking ≡ true)
      → let r =
          (emit (tool_block id call.name call.input)
              >> (invoke_tool hai false id call >>= record_call hai id call b))
            t in
        Tallied t.conversation.messages t.conversation.pending
          (tally b ++ call.id ∷ [])
          r.1.asking
          r.1.conversation
          r.0
  announced-Tallied id call b t p =
      let ids = tally b ++ call.id ∷ [] in
      let rest = invoke_tool hai false id call >>= record_call hai id call b in
      emit_by (Paused t.asking t.conversation)
        (λ r t'.
          Tallied t.conversation.messages t.conversation.pending ids t'.asking t'.conversation r)
        (tool_block id call.name call.input) (λ _. rest) t (refl, refl)
        (λ t' h.
          subst
            (λ (c : Conversation).
              Tallied c.messages c.pending ids (rest t').1.asking (rest t').1.conversation
                (rest t').0)
            h.1 (invoked-Tallied id call b t' (λ e. rw (h.0) (p e))))

  run_call-Tallied :
      (call : ToolCall) (b : Batch) (t : Turn W)
      → (is_some b.parked ≡ true → is_some t.asking ≡ true)
      → let r = run_call hai call b t in
        Tallied t.conversation.messages t.conversation.pending
          (tally b ++ call.id ∷ [])
          r.1.asking
          r.1.conversation
          r.0
  unfolding run_call nid ◌>>=◌
  run_call-Tallied call b t p = announced-Tallied _ call b (record t { seq = t.seq + 1 }) p

  -- All the calls of a reply.
  pub run_calls-Tallied :
      (calls : List ToolCall) (b : Batch) (t : Turn W) (messages : List Message)
      (pending : Option Pending)
      → t.conversation.messages ≡ messages
      → t.conversation.pending ≡ pending
      → (is_some b.parked ≡ true → is_some t.asking ≡ true)
      → let r = run_calls hai calls b t in
        Tallied messages pending (tally b ++ call_ids calls) r.1.asking r.1.conversation r.0
  unfolding run_calls pure Tallied
  run_calls-Tallied [] b t messages pending m n p =
      (subst (Perm (tally b)) (sym (append-nil (tally b))) (Perm.refl (tally b)), p, m, n)
  run_calls-Tallied (call ∷ calls) b t messages pending m n p =
      let called = run_call-Tallied call b t p in
      let t1 : Turn W = (run_call hai call b t).1 in
      let Called : Result Batch → Type 0 =
        Tallied t.conversation.messages t.conversation.pending (tally b ++ call.id ∷ []) t1.asking
          t1.conversation in
      bind_by
        (λ r t'.
          Tallied messages pending (tally b ++ call_ids (call ∷ calls)) t'.asking t'.conversation r)
        (run_call hai call b) (run_calls hai calls) t
        (λ b' e.
          let done = subst Called e called in
          more-Tallied messages pending (tally b') (tally b) call.id (call_ids calls) _
            (run_calls hai calls b' t1).1.conversation _ done.0
            (run_calls-Tallied calls b' t1 messages pending (done.2 ∙ m) (done.3 ∙ n) done.1))
        (λ x e. subst Called e called)
