-- ===== src/Runtime/Until.antt =====
-- A turn before any tool runs: what `runTurn` of packages/server/src/runtime.ts may have changed.
use haikit.Prelude.{
  ◌≡◌, refl, ℕ, zero, suc, Bool, true, false, Option, none, some, List, [], ◌∷◌, ◌++◌, Text, Result,
  Exec, Error, ◌>>=◌, attempt,
}
use haikit.Core.Json.{Json}
use haikit.Core.Types.{Conversation, ConversationStatus, Message, Pending, ContentBlock}
use haikit.Runtime.Types.{Hai, Turn, Tool, ToolRun, Question, ModelResponse}
use haikit.Runtime.Actions.{amend, modify, push}
use haikit.Runtime.Tools.{ToolCall, Outcome, run_tool}
use haikit.Runtime.Invoke.{
  withdraw, returned, threw, decide, settle, run_parsed, run_found, invoke_tool,
}
use haikit.Runtime.Loop.{
  Batch, emit_context, stream_deltas, open_and_stream, generate_reply, refuse_calls, answer,
  cut_short, record_call, run_call, run_calls, run_batch, park, finish_turn, follow_up, hops,
  run_turn,
}
use haikit.Runtime.Keeps.{
  Claim, Holds, Keeps, Keeps-amend, Keeps-modify, Keeps-bind, Keeps-emit, Keeps-nid, Keeps-pure,
  keeps_rules,
}
use haikit.Runtime.Frame.{Admits, Keeps-run_tool}

abbrev Ran : Claim
Ran r a k l c = r ≡ true

Ran-Admits : Admits Ran
Ran-Admits = record {
  shown = λ r a k l c handle h. h;
  superseded = λ r a k l c handle next h. h;
  asks = λ r a l c q first h. h;
  follows = λ r a a' k k' l c e f h. h;
  loses = λ r a k l c e s h. h;
}

module _ {W : Type 0} (hai : Hai W) where
  Ran-amend : (f : Conversation → Conversation) → Keeps {W = W} Ran (amend f)
  Ran-amend f = Keeps-amend f (λ t h. h)

  Ran-unasking : Keeps {W = W} Ran (modify (λ t. record t { asking = none }))
  Ran-unasking = Keeps-modify (λ t. record t { asking = none }) (λ t h. h)

  Ran-withdraw : (o : Option Question) → Keeps Ran (withdraw hai o)
  unfolding withdraw
  Ran-withdraw none = search keeps_rules
  Ran-withdraw (some q) = search (keeps_rules, Ran-amend, Ran-unasking) depth 14

  Ran-threw : (init : Bool) (call : ToolCall) (e : Error) → Keeps Ran (threw hai init call e)
  unfolding threw
  Ran-threw init call e = search (keeps_rules, Ran-withdraw) depth 14

  Ran-decide :
      (init : Bool) (call : ToolCall) (input : Json) (r : Result (Option Text))
      → Keeps Ran (decide hai init call input r)
  unfolding decide returned
  Ran-decide init call input (Result.ok r) = record { kept = λ t h. h }
  Ran-decide init call input (Result.err e) = Ran-threw init call e

  Ran-settle :
      (init : Bool) (call : ToolCall) (input : Json) (r : Result (Option Text))
      → Keeps Ran (settle hai init call input r)
  unfolding settle
  Ran-settle init call input r = search (keeps_rules, Ran-decide) depth 14

  Ran-tool :
      (init : Bool) (id : Text) (call : ToolCall) (input : Json) (run : ToolRun W)
      → Keeps Ran (attempt (run_tool hai id run) >>= settle hai init call input)
  Ran-tool init id call input run =
      search (keeps_rules, Keeps-run_tool hai Ran Ran-Admits, Ran-settle)

-- A claim on the conversation that the loop itself keeps.
pub record IsLoose (V : Conversation → Type 0) : Type 0 where
  pub pushed :
      (c : Conversation) (m : Message) → V c → V (record c { messages = c.messages ++ m ∷ [] })
  pub staged : (c : Conversation) (s : ConversationStatus) → V c → V (record c { status = s })
  pub parked : (c : Conversation) (p : Option Pending) → V c → V (record c { pending = p })

-- It holds until a tool runs.
abbrev pub Until : (Conversation → Type 0) → Claim
Until V r a k l c = r ≡ false → V c

module _ {W : Type 0} (hai : Hai W) (V : Conversation → Type 0) (loose : IsLoose V) where
  abbrev P : Claim
  P = Until V

  tool_runs :
      {A : Type 0} (m : Exec (Turn W) A) (t : Turn W)
      → Keeps Ran m
      → Holds P (m (record t { ran = true })).1
  tool_runs m t k e = cc (Keeps.kept k (record t { ran = true }) refl, e)

  Keeps-run_parsed :
      (init : Bool) (id : Text) (call : ToolCall) (tool : Tool W) (r : Result Json)
      → Keeps P (run_parsed hai init id call tool r)
  unfolding run_parsed modify ◌>>=◌
  Keeps-run_parsed init id call tool (Result.err e) = search keeps_rules
  Keeps-run_parsed init id call tool (Result.ok v) = record {
    kept = λ t h.
        tool_runs (attempt (run_tool hai id (tool.run v)) >>= settle hai init call v) t
          (Ran-tool hai init id call v (tool.run v));
  }

  Keeps-run_found :
      (init : Bool) (id : Text) (call : ToolCall) (tool : Tool W)
      → Keeps P (run_found hai init id call tool)
  unfolding run_found
  Keeps-run_found init id call tool = search (keeps_rules, Keeps-run_parsed)

  Keeps-reset : Keeps {W = W} P (modify (λ t. record t { asked = none; lost = none }))
  Keeps-reset = Keeps-modify (λ t. record t { asked = none; lost = none }) (λ t h. h)

  Keeps-invoke_tool :
      (init : Bool) (id : Text) (call : ToolCall) → Keeps P (invoke_tool hai init id call)
  unfolding invoke_tool
  Keeps-invoke_tool init id call = search (keeps_rules, Keeps-reset, Keeps-run_found) depth 14

  Keeps-push : (m : Message) → Keeps {W = W} P (push m)
  unfolding push
  Keeps-push m =
      Keeps-amend (λ c. record c { messages = c.messages ++ m ∷ [] })
        (λ t h e. loose.pushed t.conversation m (h e))

  Keeps-status : (s : ConversationStatus) → Keeps {W = W} P (amend (λ c. record c { status = s }))
  Keeps-status s =
      Keeps-amend (λ c. record c { status = s }) (λ t h e. loose.staged t.conversation s (h e))

  Keeps-unasking : Keeps {W = W} P (modify (λ t. record t { asking = none }))
  Keeps-unasking = Keeps-modify (λ t. record t { asking = none }) (λ t h. h)

  Keeps-emit_context : Keeps P (emit_context hai)
  unfolding emit_context
  Keeps-emit_context = search keeps_rules

  Keeps-stream_deltas : (id : Text) (ds : List Text) → Keeps P (stream_deltas hai id ds)
  unfolding stream_deltas
  Keeps-stream_deltas id [] = search keeps_rules
  Keeps-stream_deltas id (d ∷ ds) =
      let rest = Keeps-stream_deltas id ds in Keeps-bind _ _ (Keeps-emit _) (λ _. rest)

  Keeps-open_and_stream : (id : Text) (ds : List Text) → Keeps P (open_and_stream hai id ds)
  unfolding open_and_stream
  Keeps-open_and_stream id [] = search keeps_rules
  Keeps-open_and_stream id (d ∷ ds) = search (keeps_rules, Keeps-stream_deltas)

  Keeps-generate_reply : Keeps P (generate_reply hai)
  unfolding generate_reply
  Keeps-generate_reply = search (keeps_rules, Keeps-open_and_stream) depth 14

  Keeps-refuse_calls : (note : Text) (calls : List ToolCall) → Keeps P (refuse_calls hai note calls)
  unfolding refuse_calls
  Keeps-refuse_calls note [] = search keeps_rules
  Keeps-refuse_calls note (call ∷ calls) = Keeps-bind _ _ (Keeps-nid hai _) λ id.
      Keeps-bind _ _ (Keeps-emit _) λ _.
        Keeps-bind _ _ (Keeps-emit _)
          λ _. Keeps-bind _ _ (Keeps-refuse_calls note calls) λ rest. Keeps-pure _

  Keeps-record_call :
      (id : Text) (call : ToolCall) (b : Batch) (o : Outcome)
      → Keeps P (record_call hai id call b o)
  unfolding record_call
  Keeps-record_call id call b o = search keeps_rules

  Keeps-run_call : (call : ToolCall) (b : Batch) → Keeps P (run_call hai call b)
  unfolding run_call
  Keeps-run_call call b = search (keeps_rules, Keeps-invoke_tool, Keeps-record_call) depth 14

  Keeps-run_calls : (calls : List ToolCall) (b : Batch) → Keeps P (run_calls hai calls b)
  unfolding run_calls
  Keeps-run_calls [] b = search keeps_rules
  Keeps-run_calls (call ∷ calls) b =
      Keeps-bind _ _ (Keeps-run_call call b) (λ b'. Keeps-run_calls calls b')

  Keeps-parking :
      (f : Turn W → Option Pending)
      → Keeps {W = W} P
          (modify (λ t. record t { conversation = record t.conversation { pending = f t } }))
  Keeps-parking f =
      Keeps-modify (λ t. record t { conversation = record t.conversation { pending = f t } })
        (λ t h e. loose.parked t.conversation (f t) (h e))

  Keeps-park :
      (id : Text) (q : Question) (results : List ContentBlock) → Keeps P (park hai id q results)
  unfolding park
  Keeps-park id q results =
      search (keeps_rules, Keeps-status, Keeps-parking, Keeps-emit_context) depth 14

  Keeps-finish_turn : Keeps P (finish_turn hai)
  unfolding finish_turn
  Keeps-finish_turn = search (keeps_rules, Keeps-status, Keeps-emit_context) depth 14

  Keeps-answer : (results : List ContentBlock) → Keeps P (answer hai results)
  unfolding answer
  Keeps-answer results = Keeps-push _

  Keeps-follow_up :
      (final : ModelResponse) (calls : List ToolCall) (again : Exec (Turn W) (Unit {0}))
      → Keeps P again
      → Keeps P (follow_up hai final calls again)
  unfolding follow_up cut_short run_batch
  Keeps-follow_up final [] again k = Keeps-finish_turn
  Keeps-follow_up final (call ∷ calls) again k =
      search
        (keeps_rules, Keeps-refuse_calls, Keeps-answer, Keeps-unasking, Keeps-run_calls, Keeps-park)
        depth 16

  Keeps-hops : (n : ℕ) → Keeps P (hops hai n)
  unfolding hops
  Keeps-hops zero = Keeps-finish_turn
  Keeps-hops (suc n) =
      Keeps-bind _ _ Keeps-generate_reply
        λ final. Keeps-bind _ _ (Keeps-push _) λ _. Keeps-follow_up final _ _ (Keeps-hops n)

  pub Keeps-run_turn : Keeps P (run_turn hai)
  unfolding run_turn
  Keeps-run_turn = search (keeps_rules, Keeps-status, Keeps-hops) depth 14
