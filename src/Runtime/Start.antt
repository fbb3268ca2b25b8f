-- ===== src/Runtime/Start.antt =====
-- A message, and a start without one: `send`, `start` and `runInit` of packages/server/src/runtime.ts.
use haikit.Prelude.{
  ℕ, Result, Bool, true, false, Option, none, some, List, [], ◌∷◌, ◌++◌, if◌then◌else◌, Text, lit,
  length, take, Exec, Error, error, ◌>>=◌, ◌>>◌, pure, throw, raise, on_option, on_result, attempt,
  is_stale_lease,
}
use haikit.Core.Json.{obj, end}
use haikit.Core.Types.{
  ConversationStatus, Conversation, Pending, Content, blocks, tool_use, tool_result, user,
  assistant,
}
use haikit.Runtime.Types.{
  Hai, Turn, Tool, Question, BlockStatus, WireEvent, status, user_block, tool_block, block_update,
  ui_state,
}
use haikit.Runtime.Actions.{observe, outside, gets, modify, amend, push, emit, nid}
use haikit.Runtime.Handles.{current_handle}
use haikit.Runtime.Windows.{refuse_if_expired}
use haikit.Runtime.Notices.{unread_notices, with_text, announce}
use haikit.Runtime.Tools.{ToolCall, Outcome}
use haikit.Runtime.Invoke.{invoke_tool}
use haikit.Runtime.Loop.{emit_context, run_turn}

abbrev pub is_awaiting : ConversationStatus → Bool
is_awaiting ConversationStatus.awaiting = true
is_awaiting _ = false

-- The call of a parked question, closed by a message that does not answer it.
unfoldable pub decline : Text → Pending → Conversation → Conversation
decline typed p c = record c {
  messages =
      c.messages
      ++ record {
        role = user;
        content = blocks (
            p.results
            ++ tool_result p.tool_use_id
                (p.digest ++ lit "\nUser did not select; they said: \"" ++ typed ++ lit "\"")
              ∷ []);
      }
        ∷ [];
  pending = none;
}

-- What a start that its tool refused takes back.
unfoldable pub undo_start : Conversation → Conversation → Conversation
undo_start before c = record c {
  handles = take (length before.handles) c.handles;
  status = before.status;
}

module _ {W : Type 0} where
  unfoldable pub emit_all : List WireEvent → Exec (Turn W) (Unit {0})
  emit_all [] = pure tt
  emit_all (e ∷ es) = do emit e; emit_all es

  -- `hold`: the surfaces' events wait until the tool has succeeded.
  unfoldable pub hold : Exec (Turn W) (Unit {0})
  hold = modify (λ t. record t { held = some [] })

  unfoldable pub release : Exec (Turn W) (List WireEvent)
  release t = (Result.ok (elim t.held [ none ↦ [] | some es ↦ es ]), record t { held = none })

  unfoldable pub refused_start : Conversation → Text → Error → Exec (Turn W) Outcome
  unfolding undo_start emit
  refused_start before block e = do
    amend (undo_start before)
    if is_stale_lease e then throw e else do
      emit (block_update block BlockStatus.error (lit "initialisation failed: " ++ e.message))
      raise error (lit "initialisation failed: " ++ e.message)

  -- Text that a user typed, or that stands for it, with the notices that it takes in.
  unfoldable pub record_message : Content → ℕ → Exec (Turn W) (Unit {0})
  record_message message through = do
    push (record { role = user; content = message })
    amend (λ c. record c { noticed_through = through })

module _ {W : Type 0} (hai : Hai W) where
  -- The call's result goes into the history, and the history into the store.
  unfoldable pub save_start : Text → Text → Exec (Turn W) Bool
  save_start id model = do
    push (record { role = user; content = blocks (tool_result id model ∷ []) })
    c ← gets (λ t. t.conversation)
    outside (hai.store.save_conversation c)
    pure false

  -- The conversation waits on the question that the tool asked.
  unfoldable pub park_start : Text → Question → Exec (Turn W) Bool
  park_start id q = do
    amend (λ c. record c {
      status = ConversationStatus.awaiting;
      pending = some (record {
        tool_use_id = id;
        handle = current_handle c q.handle;
        digest = q.digest;
        results = [];
      });
    })
    emit (status ConversationStatus.awaiting none)
    emit_context hai
    pure true

  -- The history of a start that succeeded; true where it waits on a question.
  unfoldable pub record_start : ToolCall → Text → Content → ℕ → Outcome → Exec (Turn W) Bool
  unfolding record_message save_start park_start
  record_start call block message through outcome = do
    record_message message through
    push
        (record { role = assistant; content = blocks (tool_use call.id call.name call.input ∷ []) })
    on_option outcome.asked
        (do
          emit (block_update block BlockStatus.ok outcome.model)
          save_start call.id outcome.model)
        λ q. do emit (block_update block BlockStatus.awaiting q.digest); park_start call.id q

  -- The tool runs, and what it recorded is taken back if it fails.
  unfoldable pub try_init : ToolCall → Text → Exec (Turn W) Outcome
  unfolding refused_start emit_all hold release invoke_tool
  try_init call block = do
    before ← gets (λ t. t.conversation)
    amend (λ c. record c { status = ConversationStatus.streaming })
    emit (status ConversationStatus.streaming none)
    emit (tool_block block call.name call.input)
    hold
    outcome ← attempt (invoke_tool hai true block call)
    held ← release
    on_result outcome (refused_start before block) λ o. do emit_all held; pure o

  unfoldable pub run_init : Tool W → Content → ℕ → Exec (Turn W) Bool
  unfolding try_init record_start
  run_init init message through = do
    id ← observe hai.random_id
    block ← nid hai (lit "b")
    let call : ToolCall = record { id = lit "toolu_init_" ++ id; name = init.name; input = obj end }
    outcome ← try_init call block
    record_start call block message through outcome

  -- A question that waits is closed before a message is recorded.
  unfoldable pub close_pending : Text → Exec (Turn W) (Unit {0})
  unfolding decline emit
  close_pending typed = do
    c ← gets (λ t. t.conversation)
    on_option (if is_awaiting c.status then c.pending else none) (pure tt) λ p. do
      amend (λ c'. record c' { frozen = c'.frozen ++ p.handle ∷ [] })
      emit (ui_state p.handle none)
      amend (decline typed p)

  -- The first message of a conversation runs init before it, where the app has one.
  unfoldable pub init_for : Conversation → Option (Tool W)
  init_for c = elim c.messages [ [] ↦ hai.init | m ∷ ms ↦ none ]

  -- The message is recorded, after init where it starts the conversation, and the model runs.
  unfoldable pub take_message : Option (Tool W) → Content → ℕ → Exec (Turn W) (Unit {0})
  unfolding run_init record_message
  take_message starting message through =
      on_option starting (do record_message message through; run_turn hai)
        λ init. do parked ← run_init init message through; if parked then pure tt else run_turn hai

  -- A message in a conversation that is not out of date.
  unfoldable pub send_fresh : Text → Exec (Turn W) (Unit {0})
  unfolding init_for close_pending take_message unread_notices
  send_fresh typed = do
    starting ← gets (λ t. init_for t.conversation)
    unread ← unread_notices hai
    close_pending typed
    id ← nid hai (lit "b")
    emit (user_block id typed)
    take_message starting (with_text unread.texts typed) unread.through

  unfoldable pub send : Text → Exec (Turn W) (Unit {0})
  unfolding send_fresh announce refuse_if_expired
  send typed = do
    announce hai
    stale ← refuse_if_expired hai true
    if stale then pure tt else send_fresh typed

  -- The end of a start that parked on no question.
  unfoldable pub rest_idle : Bool → Exec (Turn W) (Unit {0})
  rest_idle true = pure tt
  rest_idle false = do
    amend (λ c. record c { status = ConversationStatus.idle })
    emit (status ConversationStatus.idle none)
    emit_context hai

  unfoldable pub start : Exec (Turn W) (Unit {0})
  unfolding init_for run_init rest_idle
  start = do
    starting ← gets (λ t. init_for t.conversation)
    on_option starting (pure tt) λ init. do
      announce hai
      unread ← unread_notices hai
      parked ← run_init init (with_text unread.texts (lit "[conversation started]")) unread.through
      rest_idle parked
