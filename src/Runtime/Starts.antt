-- ===== src/Runtime/Starts.antt =====
-- The history through the init tool's start: `runInit` of packages/server/src/runtime.ts.
use haikit.Prelude.{
  ℕ, ◌≡◌, sym, subst, Bool, true, false, Option, none, some, [], ◌∷◌, ◌++◌, Text, Result, ◌>>=◌,
  ◌>>◌, pure, on_option, bind_by,
}
use mathlib.Core.List.{Perm}
use mathlib.Core.List.Perm
use haikit.Core.Types.{
  Conversation, ConversationStatus, Content, tool_use, tool_result, blocks, user, assistant,
}
use haikit.Runtime.Types.{Hai, Turn, Tool, Question, BlockStatus, block_update, status}
use haikit.Runtime.Actions.{emit, amend, gets, push, outside, nid, observe}
use haikit.Runtime.Tools.{ToolCall, Outcome}
use haikit.Runtime.Loop.{emit_context}
use haikit.Runtime.Start.{record_message, record_start, try_init, run_init, save_start, park_start}
use haikit.Runtime.Keeps.{Claim, Holds, Keeps, keeps_rules}
use haikit.Runtime.Batches.{emit_by}
use haikit.Runtime.History.{uses, answers, Leads, Leads-push, IsWellFormed}
use haikit.Runtime.Complete.{complete_fits, Fits, IsComplete, Keeps-emit_context}
use haikit.Runtime.Beginnings.{Tried, try_init-Tried}
use haikit.Runtime.Requests.{Whole}

-- A message of the user, or what stands for it, answers no call.
unfoldable pub IsPlain : Content → Type 0
IsPlain message = answers (record { role = user; content = message }) ≡ []

pub push-IsPlain :
    (c : Conversation) (message : Content) (through : ℕ)
    → IsPlain message
    → IsComplete c
    → IsComplete (record c {
      messages = c.messages ++ record { role = user; content = message } ∷ [];
      noticed_through = through;
    })
unfolding IsPlain uses
push-IsPlain c message through p h = (
  Leads-push [] c.messages (record { role = user; content = message }) [] h.0
      (subst (Perm []) (sym p) (Perm.refl [])),
  h.1,
)

-- A start that ended: with true, a question waits.
abbrev pub Started : Conversation → Result Bool → Type 0
Started c (Result.ok true) = IsWellFormed c
Started c (Result.ok false) = IsComplete c
Started c (Result.err e) = IsWellFormed c

started : (c : Conversation) (r : Result Bool) → IsComplete c → Started c r
started c (Result.ok true) h = complete_fits c h
started c (Result.ok false) h = h
started c (Result.err e) h = complete_fits c h

-- The init tool's call stands in the history, and waits for its result.
abbrev Called : Text → Claim
Called id ran asked asking lost c = Leads [] c.messages (id ∷ []) × (c.pending ≡ none)

module _ {W : Type 0} (hai : Hai W) where
  save_start-Started :
      (id model : Text) (t : Turn W)
      → Holds (Called id) t
      → Started (save_start hai id model t).1.conversation (save_start hai id model t).0
  unfolding save_start push amend gets ◌>>=◌ uses answers
  save_start-Started id model t h =
      let c : Conversation = record t.conversation {
        messages =
            t.conversation.messages
            ++ record { role = user; content = blocks (tool_result id model ∷ []) } ∷ [];
      } in
      let complete : IsComplete c = (
        Leads-push [] t.conversation.messages
            (record { role = user; content = blocks (tool_result id model ∷ []) }) (id ∷ []) h.0
            (Perm.refl (id ∷ [])),
        h.1,
      ) in
      let saved : Keeps {W = W} Whole (outside (hai.store.save_conversation c) >> pure false) =
        search keeps_rules in
      started _ _ (Keeps.kept saved (record t { conversation = c }) complete)

  park_start-Started :
      (id : Text) (q : Question) (t : Turn W)
      → Holds (Called id) t
      → Started (park_start hai id q t).1.conversation (park_start hai id q t).0
  unfolding park_start amend ◌>>=◌ IsWellFormed pure
  park_start-Started id q t h =
      emit_by Fits (λ r t'. Started t'.conversation r) (status ConversationStatus.awaiting none)
        (λ _. emit_context hai >> pure true) _ h.0
        (λ t' w.
          bind_by (λ r t''. Started t''.conversation r) (emit_context hai) (λ _. pure true) t'
            (λ _ _. Keeps.kept (Keeps-emit_context hai) t' w)
            (λ _ _. Keeps.kept (Keeps-emit_context hai) t' w))

  asked-Started :
      (id block model : Text) (o : Option Question) (t : Turn W)
      → Holds (Called id) t
      → let m =
          on_option o
            (emit (block_update block BlockStatus.ok model) >> save_start hai id model)
            (λ q. emit (block_update block BlockStatus.awaiting q.digest) >> park_start hai id q) in
        Started (m t).1.conversation (m t).0
  unfolding on_option
  asked-Started id block model none t h =
      emit_by (Called id) (λ r t'. Started t'.conversation r)
        (block_update block BlockStatus.ok model) (λ _. save_start hai id model) t h
        (save_start-Started id model)
  asked-Started id block model (some q) t h =
      emit_by (Called id) (λ r t'. Started t'.conversation r)
        (block_update block BlockStatus.awaiting q.digest) (λ _. park_start hai id q) t h
        (park_start-Started id q)

  record_start-Started :
      (call : ToolCall) (block : Text) (message : Content) (through : ℕ) (o : Outcome) (t : Turn W)
      → IsPlain message
      → IsComplete t.conversation
      → Started
          (record_start hai call block message through o t).1.conversation
          (record_start hai call block message through o t).0
  unfolding record_start record_message push amend ◌>>=◌ uses answers
  record_start-Started call block message through o t p h =
      let c = push-IsPlain t.conversation message through p h in
      asked-Started call.id block o.model o.asked _ (
        Leads-push [] _
            (record {
              role = assistant;
              content = blocks (tool_use call.id call.name call.input ∷ []);
            })
            [] c.0 (Perm.refl []),
        c.1,
      )

  tried-Started :
      (call : ToolCall) (block : Text) (message : Content) (through : ℕ) (t : Turn W)
      → IsPlain message
      → IsComplete t.conversation
      → let m = try_init hai call block >>= record_start hai call block message through in
        Started (m t).1.conversation (m t).0
  tried-Started call block message through t p h =
      let c = t.conversation in
      let t1 : Turn W = (try_init hai call block t).1 in
      let Now : Result Outcome → Type 0 = Tried c t1.conversation in
      let tried = try_init-Tried hai call block t in
      bind_by (λ r t'. Started t'.conversation r) (try_init hai call block)
        (record_start hai call block message through) t
        (λ o e.
          let (hs, sup, q) = subst Now e tried in
          record_start-Started call block message through o t1 p (subst IsComplete (sym q) h))
        (λ e q.
          let (sup, back) = subst Now q tried in
          complete_fits t1.conversation (subst IsComplete (sym back) h))

  pub run_init-Started :
      (init : Tool W) (message : Content) (through : ℕ) (t : Turn W)
      → IsPlain message
      → IsComplete t.conversation
      → Started
          (run_init hai init message through t).1.conversation
          (run_init hai init message through t).0
  unfolding run_init observe nid ◌>>=◌
  run_init-Started init message through t p h = tried-Started _ _ message through _ p h
