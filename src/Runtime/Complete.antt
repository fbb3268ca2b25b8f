-- ===== src/Runtime/Complete.antt =====
-- The history through the rounds of the agent loop: `runTurn` of packages/server/src/runtime.ts.
use haikit.Prelude.{
  ◌+◌, ℕ, zero, suc, ◌≡◌, refl, sym, ap, subst, ◌∙◌, ◌⊎◌, inl, inr, true, not, Option, none, some,
  List, [], ◌∷◌, ◌++◌, Text, Result, Exec, ◌>>=◌, ◌>>◌, pure, on_option, is_stale_lease, bind_by,
  Bool-cases, append-nil, lit, ◌=t=◌,
}
use mathlib.Core.List.{Perm}
use mathlib.Core.List.Perm
use haikit.Core.Types.{
  ConversationStatus, ContentBlock, tool_result, Conversation, user, assistant, blocks,
}
use haikit.Runtime.Types.{
  Hai, Turn, Question, ModelResponse, BlockStatus, tool_block, block_update, status,
}
use haikit.Runtime.Actions.{emit, nid, amend, modify, push}
use haikit.Runtime.Tools.{ToolCall}
use haikit.Runtime.Loop.{
  Batch, calls_of, emit_context, stream_deltas, open_and_stream, generate_reply, refuse_calls,
  cut_note, answer, cut_short, run_calls, run_batch, park, finish_turn, follow_up, hops, run_turn,
}
use haikit.Runtime.Keeps.{Claim, Keeps, Keeps-amend, Keeps-bind, Keeps-emit, keeps_rules}
use haikit.Runtime.History.{
  call_ids, result_ids, uses, answers, tally, Leads, Leads-push, Leads-perm, IsWellFormed,
}
use haikit.Runtime.Batches.{emit_by, Tallied, run_calls-Tallied}

-- What the loop leaves, by how it ended.
unfoldable pub Ended : Conversation → Result (Unit {0}) → Type 0
Ended c (Result.ok _) = IsWellFormed c
Ended c (Result.err e) = (is_stale_lease e ≡ true) ⊎ IsWellFormed c

pub ended : (c : Conversation) (r : Result (Unit {0})) → IsWellFormed c → Ended c r
unfolding Ended
ended c (Result.ok _) h = h
ended c (Result.err e) h = inr h

-- Each call has its result, and no question waits.
abbrev pub IsComplete : Conversation → Type 0
IsComplete c = Leads [] c.messages [] × (c.pending ≡ none)

pub complete_fits : (c : Conversation) → IsComplete c → IsWellFormed c
unfolding IsWellFormed
complete_fits c h = rw (h.1) (h.0)

abbrev pub Fits : Claim
Fits ran asked asking lost c = IsWellFormed c

abbrev SameAs : Conversation → Claim
SameAs c ran asked asking lost now = now ≡ c

-- Results for calls that did not run.
abbrev Refused : Conversation → List Text → Conversation → Result (List ContentBlock) → Type 0
Refused c ids now (Result.ok rs) = (result_ids rs ≡ ids) × (now ≡ c)
Refused c ids now (Result.err e) = ⊥

module _ {W : Type 0} (hai : Hai W) where
  pub Keeps-emit_context : Keeps Fits (emit_context hai)
  unfolding emit_context
  Keeps-emit_context = search keeps_rules

  pub finish-Ended :
      (t : Turn W)
      → IsWellFormed t.conversation
      → Ended (finish_turn hai t).1.conversation (finish_turn hai t).0
  unfolding finish_turn IsWellFormed
  finish-Ended t h =
      let idle =
        Keeps-amend {W = W} {P = Fits} (λ c. record c { status = ConversationStatus.idle })
          (λ t h. h) in
      let kept : Keeps Fits (finish_turn hai) =
        Keeps-bind _ _ idle (λ _. Keeps-bind _ _ (Keeps-emit _) (λ _. Keeps-emit_context)) in
      ended _ (finish_turn hai t).0 (Keeps.kept kept t h)

  Keeps-stream_deltas :
      (c : Conversation) (id : Text) (ds : List Text) → Keeps (SameAs c) (stream_deltas hai id ds)
  unfolding stream_deltas
  Keeps-stream_deltas c id [] = search keeps_rules
  Keeps-stream_deltas c id (d ∷ ds) =
      Keeps-bind _ _ (Keeps-emit _) (λ _. Keeps-stream_deltas c id ds)

  Keeps-open_and_stream :
      (c : Conversation) (id : Text) (ds : List Text) → Keeps (SameAs c) (open_and_stream hai id ds)
  unfolding open_and_stream
  Keeps-open_and_stream c id [] = search keeps_rules
  Keeps-open_and_stream c id (d ∷ ds) = search (keeps_rules, Keeps-stream_deltas)

  Keeps-generate_reply : (c : Conversation) → Keeps (SameAs c) (generate_reply hai)
  unfolding generate_reply
  Keeps-generate_reply c = search (keeps_rules, Keeps-open_and_stream) depth 14

  told-Refused :
      (id note : Text) (call : ToolCall) (calls : List ToolCall) (t : Turn W)
      → ((t' : Turn W)
          → Refused t'.conversation
              (call_ids calls)
              (refuse_calls hai note calls t').1.conversation
              (refuse_calls hai note calls t').0)
      → let r =
          (emit (tool_block id call.name call.input)
              >> (emit (block_update id BlockStatus.error note)
                  >> (refuse_calls hai note calls >>= λ rest.
                      pure (tool_result call.id note ∷ rest))))
            t in
        Refused t.conversation (call_ids (call ∷ calls)) r.1.conversation r.0
  unfolding pure
  told-Refused id note call calls t k =
      let Q : Result (List ContentBlock) → Turn W → Type 0 =
        λ r t'. Refused t.conversation (call_ids (call ∷ calls)) t'.conversation r in
      emit_by (SameAs t.conversation) Q (tool_block id call.name call.input) _ t refl λ t1 h1.
        emit_by (SameAs t.conversation) Q (block_update id BlockStatus.error note) _ t1 h1 λ t2 h2.
          let Rest : Result (List ContentBlock) → Type 0 =
            Refused t2.conversation (call_ids calls)
              (refuse_calls hai note calls t2).1.conversation in
          bind_by Q (refuse_calls hai note calls) _ t2
            (λ rs e. let done = subst Rest e (k t2) in (ap (◌∷◌ call.id) done.0, done.1 ∙ h2))
            (λ x e. subst Rest e (k t2))

  refuse_calls-Refused :
      (note : Text) (calls : List ToolCall) (t : Turn W)
      → Refused t.conversation
          (call_ids calls)
          (refuse_calls hai note calls t).1.conversation
          (refuse_calls hai note calls t).0
  unfolding refuse_calls pure nid ◌>>=◌
  refuse_calls-Refused note [] t = (refl, refl)
  refuse_calls-Refused note (call ∷ calls) t =
      told-Refused _ note call calls (record t { seq = t.seq + 1 })
        (refuse_calls-Refused note calls)

  -- The next round, from a complete history.
  abbrev Goes : Exec (Turn W) (Unit {0}) → Type 0
  Goes m = (t : Turn W) → IsComplete t.conversation → Ended (m t).1.conversation (m t).0

  -- The results that answer a reply's calls.
  answer-Goes :
      (again : Exec (Turn W) (Unit {0})) (results : List ContentBlock) (ids : List Text)
      (t : Turn W)
      → Goes again
      → Leads [] t.conversation.messages ids
      → t.conversation.pending ≡ none
      → Perm ids (result_ids results)
      → Ended ((answer hai results >> again) t).1.conversation ((answer hai results >> again) t).0
  unfolding answer push amend ◌>>=◌ uses answers
  answer-Goes again results ids t g l n p = g _ (
    Leads-push [] t.conversation.messages (record { role = user; content = blocks results }) ids l
        p,
    n,
  )

  cut_short-Ended :
      (reason : Text) (calls : List ToolCall) (again : Exec (Turn W) (Unit {0})) (t : Turn W)
      → Goes again
      → Leads [] t.conversation.messages (call_ids calls)
      → t.conversation.pending ≡ none
      → Ended
          (cut_short hai reason calls again t).1.conversation
          (cut_short hai reason calls again t).0
  unfolding cut_short
  cut_short-Ended reason calls again t g l n =
      let refuse = refuse_calls hai (cut_note hai reason) calls in
      let t1 : Turn W = (refuse t).1 in
      let Told : Result (List ContentBlock) → Type 0 =
        Refused t.conversation (call_ids calls) t1.conversation in
      let told = refuse_calls-Refused (cut_note hai reason) calls t in
      bind_by (λ r t'. Ended t'.conversation r) refuse _ t
        (λ rs e.
          let done = subst Told e told in
          answer-Goes again rs (call_ids calls) t1 g (rw (done.1) l) (rw (done.1) n)
            (subst (Perm (call_ids calls)) (sym (done.0)) (Perm.refl (call_ids calls))))
        (λ x e. elim (subst Told e told) [ ])

  park-Ended :
      (id : Text) (q : Question) (results : List ContentBlock) (t : Turn W)
      → Leads [] t.conversation.messages (result_ids results ++ id ∷ [])
      → Ended (park hai id q results t).1.conversation (park hai id q results t).0
  unfolding park amend modify ◌>>=◌ IsWellFormed
  park-Ended id q results t l =
      let told : Keeps {W = W} Fits
          (emit (status ConversationStatus.awaiting none) >> emit_context hai) =
        search (keeps_rules, Keeps-emit_context) in
      ended _ _ (Keeps.kept told _ l)

  batch-Ended :
      (results : List ContentBlock) (o : Option (Text × Question)) (ids : List Text)
      (again : Exec (Turn W) (Unit {0})) (t : Turn W)
      → Goes again
      → Leads [] t.conversation.messages ids
      → t.conversation.pending ≡ none
      → Perm (tally (record { results = results; parked = o })) ids
      → let m = on_option o (answer hai results >> again) (λ (id, q). park hai id q results) in
        Ended (m t).1.conversation (m t).0
  unfolding on_option
  batch-Ended results none ids again t g l n p =
      answer-Goes again results ids t g l n
        (subst (Perm ids) (append-nil (result_ids results)) (Perm.symm p))
  batch-Ended results (some (id, q)) ids again t g l n p =
      park-Ended id q results t (Leads-perm [] t.conversation.messages ids _ l (Perm.symm p))

  run_batch-Ended :
      (calls : List ToolCall) (again : Exec (Turn W) (Unit {0})) (t : Turn W)
      → Goes again
      → Leads [] t.conversation.messages (call_ids calls)
      → t.conversation.pending ≡ none
      → Ended (run_batch hai calls again t).1.conversation (run_batch hai calls again t).0
  unfolding run_batch modify ◌>>=◌ Ended Tallied
  run_batch-Ended calls again t g l n =
      let c = t.conversation in
      let none_yet : Batch = record { results = []; parked = none } in
      let t0 : Turn W = record t { asking = none } in
      let t1 : Turn W = (run_calls hai calls none_yet t0).1 in
      let Ran : Result Batch → Type 0 =
        Tallied c.messages c.pending (call_ids calls) t1.asking t1.conversation in
      let ran = run_calls-Tallied hai calls none_yet t0 c.messages c.pending refl refl (λ e. cc) in
      bind_by (λ r t'. Ended t'.conversation r) (run_calls hai calls none_yet) _ t0
        (λ b e.
          let done = subst Ran e ran in
          batch-Ended b.results b.parked (call_ids calls) again t1 g (rw (done.2) l) (done.3 ∙ n)
            done.0)
        (λ x e. inl (subst Ran e ran))

  follow_up-Ended :
      (final : ModelResponse) (calls : List ToolCall) (again : Exec (Turn W) (Unit {0}))
      (t : Turn W)
      → Goes again
      → Leads [] t.conversation.messages (call_ids calls)
      → t.conversation.pending ≡ none
      → Ended
          (follow_up hai final calls again t).1.conversation
          (follow_up hai final calls again t).0
  unfolding follow_up
  follow_up-Ended final [] again t g l n = finish-Ended t (complete_fits t.conversation (l, n))
  follow_up-Ended final (call ∷ calls) again t g l n =
      elim (Bool-cases (not (final.stop_reason =t= lit "tool_use"))) [
        | inl b ↦ rw b (cut_short-Ended final.stop_reason (call ∷ calls) again t g l n)
        | inr b ↦ rw b (run_batch-Ended (call ∷ calls) again t g l n)
      ]

  replied-Ended :
      (final : ModelResponse) (again : Exec (Turn W) (Unit {0})) (t : Turn W)
      → Goes again
      → IsComplete t.conversation
      → let m =
          push (record { role = assistant; content = final.content })
          >> follow_up hai final (calls_of final.content) again in
        Ended (m t).1.conversation (m t).0
  unfolding push amend ◌>>=◌ uses answers
  replied-Ended final again t g h =
      follow_up-Ended final (calls_of final.content) again _ g
        (Leads-push [] t.conversation.messages
          (record { role = assistant; content = final.content }) [] h.0 (Perm.refl []))
        h.1

  hops-Ended : (n : ℕ) → Goes (hops hai n)
  unfolding hops Ended
  hops-Ended zero t h = finish-Ended t (complete_fits t.conversation h)
  hops-Ended (suc n) t h =
      let t1 : Turn W = (generate_reply hai t).1 in
      let kept : t1.conversation ≡ t.conversation =
        Keeps.kept (Keeps-generate_reply t.conversation) t refl in
      bind_by (λ r t'. Ended t'.conversation r) (generate_reply hai) _ t
        (λ final _.
          replied-Ended final (hops hai n) t1 (hops-Ended n) (subst IsComplete (sym kept) h))
        (λ e _. inr (subst IsWellFormed (sym kept) (complete_fits t.conversation h)))

  -- From a history in which every tool call has its result, and whatever the model, the tools and the
  -- store do, the agent loop leaves one in which each message answers, in some order, exactly the calls
  -- of the one before it, and the parked question those of the last; unless the lease was lost.
  pub run_turn-Ended :
      (t : Turn W)
      → IsComplete t.conversation
      → Ended (run_turn hai t).1.conversation (run_turn hai t).0
  unfolding run_turn amend ◌>>=◌
  run_turn-Ended t h =
      emit_by (λ ran asked asking lost c. IsComplete c) (λ r t'. Ended t'.conversation r)
        (status ConversationStatus.streaming none) (λ _. hops hai hai.max_hops) _ h
        (hops-Ended hai.max_hops)
