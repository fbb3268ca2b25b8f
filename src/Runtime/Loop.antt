-- ===== src/Runtime/Loop.antt =====
-- The agent loop: `runTurn` and `emitContext` of packages/server/src/runtime.ts.
use haikit.Prelude.{
  ℕ, zero, suc, ◌+◌, false, not, ◌&&◌, Option, none, some, List, [], ◌∷◌, ◌++◌, if◌then◌else◌, ◌==◌,
  Text, lit, ◌=t=◌, Exec, ◌>>=◌, ◌>>◌, pure, on_option, rethrow,
}
use haikit.Core.Types.{
  ContentBlock, tool_use, tool_result, Content, plain, blocks, user, assistant, PayloadRecord,
  ConversationStatus,
}
use haikit.Runtime.Types.{
  Hai, Turn, Question, Asking, ModelResponse, BlockStatus, status, assistant_block, tool_block,
  block_update, text_delta, context,
}
use haikit.Runtime.Actions.{outside, observe, gets, modify, amend, push, emit, nid}
use haikit.Runtime.Handles.{current_handle}
use haikit.Runtime.Tools.{ToolCall, Outcome}
use haikit.Runtime.Invoke.{invoke_tool}

-- `final.content.filter((b) => b?.type === "tool_use")`.
unfoldable pub calls_in : List ContentBlock → List ToolCall
calls_in [] = []
calls_in (tool_use i n v ∷ bs) = record { id = i; name = n; input = v } ∷ calls_in bs
calls_in (b ∷ bs) = calls_in bs

unfoldable pub calls_of : Content → List ToolCall
unfolding calls_in
calls_of (plain t) = []
calls_of (blocks bs) = calls_in bs

-- `s.startsWith(p)`, and what follows.
unfoldable pub after_prefix : Text → Text → Option Text
after_prefix [] s = some s
after_prefix (u ∷ p) [] = none
after_prefix (u ∷ p) (v ∷ s) = if u == v then after_prefix p s else none

-- The digest that the answer goes out under, once a later call has revised the question: the
-- question's part is replaced, and the rest stays.
unfoldable pub parked_digest : Text → Text → Text → Option Asking → Text
unfolding after_prefix
parked_digest handle latest digest none = digest
parked_digest handle latest digest (some a) =
    if not (handle =t= latest) && a.handle =t= latest
    then elim a.digest [
      | none ↦ digest
      | some d ↦ elim (after_prefix a.question digest) [ none ↦ d | some rest ↦ d ++ rest ]
    ]
    else digest

-- What the calls of one reply leave: the results, and the call whose question the turn waits on.
pub record Batch : Type 0 where
  pub results : List ContentBlock
  pub parked : Option (Text × Question)

module _ {W : Type 0} (hai : Hai W) where
  tokens : List PayloadRecord → ℕ
  tokens [] = 0
  tokens (r ∷ rs) = hai.props_tokens r.props + tokens rs

  unfoldable pub emit_context : Exec (Turn W) (Unit {0})
  unfolding tokens emit
  emit_context = do
    c ← gets (λ t. t.conversation)
    records ← outside (hai.store.get_payloads c.handles c.id)
    emit (context c.messages (tokens records))

  unfoldable pub stream_deltas : Text → List Text → Exec (Turn W) (Unit {0})
  stream_deltas id [] = pure tt
  stream_deltas id (d ∷ ds) = do emit (text_delta id d); stream_deltas id ds

  unfoldable pub open_and_stream : Text → List Text → Exec (Turn W) (Unit {0})
  unfolding stream_deltas
  open_and_stream id [] = pure tt
  open_and_stream id (d ∷ ds) = do emit (assistant_block id); stream_deltas id (d ∷ ds)

  -- Calls of a reply that was cut short: none runs, and each is told why.
  unfoldable pub cut_note : Text → Text
  cut_note reason =
      lit "Not run: your reply ended with stop_reason \""
      ++ reason
      ++ lit "\" before this call was complete. Make it again if it's still needed."

  unfoldable pub refuse_calls : Text → List ToolCall → Exec (Turn W) (List ContentBlock)
  refuse_calls note [] = pure []
  refuse_calls note (call ∷ calls) = do
    id ← nid hai (lit "b")
    emit (tool_block id call.name call.input)
    emit (block_update id BlockStatus.error note)
    rest ← refuse_calls note calls
    pure (tool_result call.id note ∷ rest)

  -- A call that gave an outcome: its result joins the others, or the turn will wait on its question.
  unfoldable pub record_call : Text → ToolCall → Batch → Outcome → Exec (Turn W) Batch
  record_call id call b outcome =
      on_option outcome.asked
        (do
          emit (block_update id BlockStatus.ok outcome.model)
          pure (record b { results = b.results ++ tool_result call.id outcome.model ∷ [] }))
        λ q. do
          emit (block_update id BlockStatus.awaiting q.digest)
          pure (record b { parked = some (call.id, q) })

  unfoldable pub run_call : ToolCall → Batch → Exec (Turn W) Batch
  unfolding record_call
  run_call call b = do
    id ← nid hai (lit "b")
    emit (tool_block id call.name call.input)
    outcome ← invoke_tool hai false id call
    record_call id call b outcome

  unfoldable pub run_calls : List ToolCall → Batch → Exec (Turn W) Batch
  unfolding run_call
  run_calls [] b = pure b
  run_calls (call ∷ calls) b = do b' ← run_call call b; run_calls calls b'

  -- The turn parks on its question, at the question's latest revision.
  unfoldable pub park : Text → Question → List ContentBlock → Exec (Turn W) (Unit {0})
  unfolding parked_digest emit_context emit
  park tool_use_id q results = do
    amend (λ c. record c { status = ConversationStatus.awaiting })
    modify (λ t.
        let c = t.conversation in
        let latest = current_handle c q.handle in
        record t {
          conversation = record c {
            pending = some (record {
              tool_use_id = tool_use_id;
              handle = latest;
              digest = parked_digest q.handle latest q.digest t.asking;
              results = results;
            });
          };
        })
    emit (status ConversationStatus.awaiting none)
    emit_context

  unfoldable pub finish_turn : Exec (Turn W) (Unit {0})
  unfolding emit_context emit
  finish_turn = do
    amend (λ c. record c { status = ConversationStatus.idle })
    emit (status ConversationStatus.idle none)
    emit_context

  -- The model's reply to the history so far.
  unfoldable pub generate_reply : Exec (Turn W) ModelResponse
  unfolding open_and_stream
  generate_reply = do
    id ← nid hai (lit "b")
    messages ← gets (λ t. t.conversation.messages)
    g ← observe (hai.generate messages)
    open_and_stream id g.deltas
    rethrow g.response

  unfoldable pub answer : List ContentBlock → Exec (Turn W) (Unit {0})
  answer results = push (record { role = user; content = blocks results })

  -- The calls of a reply that was cut short, and those of a complete one; `again` is the next round.
  unfoldable pub cut_short :
      Text → List ToolCall → Exec (Turn W) (Unit {0}) → Exec (Turn W) (Unit {0})
  unfolding refuse_calls cut_note answer
  cut_short reason calls again = do
    results ← refuse_calls (cut_note reason) calls
    answer results
    again

  unfoldable pub run_batch : List ToolCall → Exec (Turn W) (Unit {0}) → Exec (Turn W) (Unit {0})
  unfolding run_calls park answer
  run_batch calls again = do
    modify (λ t. record t { asking = none })
    batch ← run_calls calls (record { results = []; parked = none })
    on_option batch.parked (do answer batch.results; again)
        λ (tool_use_id, q). park tool_use_id q batch.results

  -- What follows a reply with these calls.
  unfoldable pub follow_up :
      ModelResponse → List ToolCall → Exec (Turn W) (Unit {0}) → Exec (Turn W) (Unit {0})
  unfolding cut_short run_batch finish_turn
  follow_up final [] again = finish_turn
  follow_up final (call ∷ calls) again =
      if not (final.stop_reason =t= lit "tool_use")
      then cut_short final.stop_reason (call ∷ calls) again
      else run_batch (call ∷ calls) again

  -- `n` is how many of the `maxHops` rounds are left.
  unfoldable pub hops : ℕ → Exec (Turn W) (Unit {0})
  unfolding generate_reply follow_up
  hops zero = finish_turn
  hops (suc n) = do
    final ← generate_reply
    push (record { role = assistant; content = final.content })
    follow_up final (calls_of final.content) (hops n)

  unfoldable pub run_turn : Exec (Turn W) (Unit {0})
  unfolding hops
  run_turn = do
    amend (λ c. record c { status = ConversationStatus.streaming })
    emit (status ConversationStatus.streaming none)
    hops hai.max_hops
