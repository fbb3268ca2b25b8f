-- ===== src/Runtime/Invoke.antt =====
-- The outcome of a tool call: `invokeTool` of packages/server/src/runtime.ts, around the tool's run.
use haikit.Prelude.{
  Bool, true, false, not, ◌&&◌, Option, none, some, [], ◌∷◌, ◌++◌, if◌then◌else◌, Text, lit, ◌=t=◌,
  get, Result, ok, Error, Exec, ◌>>=◌, ◌>>◌, pure, on_option, attempt, throw, is_stale_lease,
}
use haikit.Core.Json.{Json}
use haikit.Core.Types.{Conversation}
use haikit.Runtime.Types.{Hai, Turn, Question, Tool, ui_state}
use haikit.Runtime.Actions.{gets, modify, amend, emit}
use haikit.Runtime.Handles.{revised, current_handle}
use haikit.Runtime.Tools.{ToolCall, Outcome, handle_field, run_tool}

-- What a call says to the model where the tool gave no text.
text_or : Text → Option Question → Option Text → Text
text_or name asked (some m) = m
text_or name none none = name ++ lit " returned no result."
text_or name (some q) none = q.digest

-- A query on a surface since revised is told that the surface has moved on.
with_revision : Bool → Json → Conversation → Text → Text
with_revision false input c m = m
with_revision true input c m = elim (handle_field input) [
  | none ↦ m
  | some queried ↦ elim (revised c.superseded queried) [
    | none ↦ m
    | some _ ↦
        m
        ++ lit "\n("
        ++ queried
        ++ lit " has since been revised: it is "
        ++ current_handle c queried
        ++ lit " now.)"
  ]
]

-- The answer goes out under the question's digest, with anything else that the tool said after it.
unfoldable pub with_rest : Text → Option Question → Option Question
with_rest m none = none
with_rest m (some q) =
    some (if m =t= q.digest then q else record q { digest = q.digest ++ lit "\n" ++ m })

module _ {W : Type 0} (hai : Hai W) where
  abbrev pub is_init_tool : Text → Bool
  is_init_tool name = elim hai.init [ none ↦ false | some t ↦ t.name =t= name ]

  -- The tool returned.
  unfoldable pub returned : ToolCall → Json → Option Text → Exec (Turn W) Outcome
  unfolding text_or with_revision with_rest
  returned call input r t =
      let m =
        with_revision (call.name =t= lit "query_ui") input t.conversation
          (text_or call.name t.asked r) in
      (ok (record { model = m; asked = with_rest m t.asked }), t)

  -- A question that the tool showed before it failed is withdrawn with it.
  unfoldable pub withdraw : Option Question → Exec (Turn W) (Unit {0})
  withdraw none = pure tt
  withdraw (some q) = do
    amend (λ c. record c { frozen = c.frozen ++ q.handle ∷ [] })
    emit (ui_state q.handle none)
    modify (λ t. record t { asking = none })

  -- The tool threw.
  unfoldable pub threw : Bool → ToolCall → Error → Exec (Turn W) Outcome
  unfolding withdraw
  threw init call e = if init then throw e else if is_stale_lease e then throw e else do
    asked ← gets (λ t. t.asked)
    withdraw asked
    pure (record { model = call.name ++ lit " failed: " ++ e.message; asked = none })

  unfoldable pub decide : Bool → ToolCall → Json → Result (Option Text) → Exec (Turn W) Outcome
  unfolding returned threw
  decide init call input (Result.ok r) = returned call input r
  decide init call input (Result.err e) = threw init call e

  -- A lost lease stops the turn, whatever the tool made of it.
  unfoldable pub settle : Bool → ToolCall → Json → Result (Option Text) → Exec (Turn W) Outcome
  unfolding decide
  settle init call input outcome = do
    lost ← gets (λ t. t.lost)
    on_option lost (decide init call input outcome) throw

  -- The call's input was parsed, or refused.
  unfoldable pub run_parsed : Bool → Text → ToolCall → Tool W → Result Json → Exec (Turn W) Outcome
  unfolding settle run_tool
  run_parsed init tool_block_id call tool (Result.err e) =
      if init
      then throw e
      else pure (record {
        model = lit "Invalid input for " ++ call.name ++ lit ": " ++ e.message;
        asked = none;
      })
  run_parsed init tool_block_id call tool (Result.ok input) = do
    modify (λ t. record t { ran = true })
    outcome ← attempt (run_tool hai tool_block_id (tool.run input))
    settle init call input outcome

  unfoldable pub run_found : Bool → Text → ToolCall → Tool W → Exec (Turn W) Outcome
  unfolding run_parsed
  run_found init tool_block_id call tool =
      if is_init_tool call.name && not init
      then pure (record {
        model =
            tool.name ++ lit " already ran at the start of this conversation; its result is above.";
        asked = none;
      })
      else run_parsed init tool_block_id call tool (tool.parse call.input)

  unfoldable pub invoke_tool : Bool → Text → ToolCall → Exec (Turn W) Outcome
  unfolding run_found
  invoke_tool init tool_block_id call = do
    modify (λ t. record t { asked = none; lost = none })
    on_option (get call.name hai.tools)
        (pure (record { model = lit "Unknown tool: " ++ call.name; asked = none }))
        (run_found init tool_block_id call)
