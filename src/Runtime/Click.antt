-- ===== src/Runtime/Click.antt =====
-- A click: `interact` of packages/server/src/runtime.ts.
use haikit.Prelude.{
  true, not, Option, none, some, [], ◌∷◌, ◌++◌, if◌then◌else◌, Text, lit, ◌=t=◌, length, take, get,
  Result, ok, fail, error, Exec, Error, ◌>>=◌, ◌>>◌, pure, throw, raise, rethrow, on_option,
  on_result, attempt,
}
use haikit.Core.Json.{Json}
use haikit.Core.Types.{
  ConversationStatus, Conversation, Pending, blocks, tool_result, user, PayloadRecord,
}
use haikit.Runtime.Types.{Hai, Turn, ActionKind, resolve, inform, interaction_block, ui_state}
use haikit.Runtime.Actions.{outside, gets, amend, emit, nid}
use haikit.Runtime.Handles.{includes, revised, current_handle}
use haikit.Runtime.Windows.{refuse_if_expired}
use haikit.Runtime.Notices.{Unread, unread_notices, with_text, announce}
use haikit.Runtime.Loop.{run_turn}

-- The guards on the handle.
unfoldable pub check_clickable : Conversation → Text → Result (Unit {0})
unfolding includes revised current_handle
check_clickable c handle =
    if not (includes c.handles handle)
    then fail error (lit "unknown handle")
    else elim (revised c.superseded handle) [
      | some next ↦ fail error (lit "superseded by " ++ current_handle c handle)
      | none ↦ if includes c.frozen handle then fail error (lit "component is frozen") else ok tt
    ]

-- A click's action as the contract and the server half declare it, with the value parsed.
pub record BoundAction (W : Type 0) : Type 0 where
  pub kind : ActionKind
  pub value : Json
  pub handler : Exec W Text

-- Only a click that will be recorded may reach its handler.
unfoldable pub gate : ActionKind → Option Pending → Text → Result (Unit {0})
gate resolve none handle = fail error (lit "nothing awaiting this handle")
gate resolve (some p) handle =
    if p.handle =t= handle then ok tt else fail error (lit "nothing awaiting this handle")
gate inform none handle = ok tt
gate inform (some p) handle = fail error (lit "a question is waiting to be answered first")

-- What the click adds to the conversation.
unfoldable pub take_click : Option Pending → Text → Text → Unread → Conversation → Conversation
take_click (some p) handle label unread c = record c {
  frozen = c.frozen ++ handle ∷ [];
  messages =
      c.messages
      ++ record {
        role = user;
        content =
            blocks (
              p.results
              ++ tool_result p.tool_use_id (p.digest ++ lit "\n" ++ label) ∷ unread.texts);
      }
        ∷ [];
  pending = none;
  status = ConversationStatus.idle;
  noticed_through = unread.through;
}
take_click none handle label unread c = record c {
  messages =
      c.messages
      ++ record { role = user; content = with_text unread.texts (lit "[UI interaction] " ++ label) }
        ∷ [];
  noticed_through = unread.through;
}

-- What a click whose save failed takes back.
unfoldable pub undo_click : Conversation → Conversation → Conversation
undo_click before c = record c {
  messages = take (length before.messages) c.messages;
  frozen = take (length before.frozen) c.frozen;
  pending = before.pending;
  status = before.status;
  noticed_through = before.noticed_through;
}

module _ {W : Type 0} (hai : Hai W) where
  unfoldable pub bind_action : PayloadRecord → Text → Json → Result (BoundAction W)
  bind_action r action value = elim (get r.component hai.surfaces) [
    | none ↦ fail error (lit "unknown component: " ++ r.component)
    | some impl ↦ elim (get action impl.specs) [
      | none ↦ fail error (lit "unbound action")
      | some spec ↦ elim (get action impl.handlers) [
        | none ↦ fail error (lit "unbound action")
        | some handler ↦ elim (spec.parse value) [
          | Result.err e ↦ fail error (lit "invalid action payload: " ++ e.message)
          | Result.ok v ↦ ok (record { kind = spec.kind; value = v; handler = handler v r })
        ]
      ]
    ]
  ]

  unfoldable pub failed_action : Error → Exec (Turn W) Text
  failed_action e = raise error (lit "action failed: " ++ e.message)

  -- The click goes into the history and the store; a save that fails takes it back.
  unfoldable pub commit_with : Option Pending → Text → Text → Unread → Exec (Turn W) (Unit {0})
  unfolding take_click undo_click
  commit_with pending handle label unread = do
    before ← gets (λ t. t.conversation)
    amend (take_click pending handle label unread)
    c ← gets (λ t. t.conversation)
    saved ← attempt (outside (hai.store.save_conversation c))
    on_result saved (λ e. do amend (undo_click before); throw e) pure

  -- The handler has succeeded; the notices are read after it.
  unfoldable pub commit_click : Option Pending → Text → Text → Exec (Turn W) (Unit {0})
  unfolding commit_with unread_notices
  commit_click pending handle label = unread_notices hai >>= commit_with pending handle label

  -- A click that passed every gate: its handler runs, and then it is recorded.
  unfoldable pub run_handler : Option Pending → Text → BoundAction W → Exec (Turn W) (Json × Text)
  unfolding failed_action commit_click
  run_handler pending handle bound = do
    said ← attempt (outside bound.handler)
    label ← on_result said failed_action pure
    commit_click pending handle label
    pure (bound.value, label)

  -- A click on a surface whose payload was found.
  unfoldable pub click_on :
      Option Pending → Text → Text → Json → PayloadRecord → Exec (Turn W) (Json × Text)
  unfolding bind_action gate run_handler
  click_on pending handle action value r = do
    bound ← rethrow (bind_action r action value)
    rethrow (gate bound.kind pending handle)
    run_handler pending handle bound

  -- From the guards to the commit; it gives the value and the label.
  unfoldable pub record_click : Text → Text → Json → Exec (Turn W) (Json × Text)
  unfolding check_clickable click_on
  record_click handle action value = do
    c ← gets (λ t. t.conversation)
    rethrow (check_clickable c handle)
    found ← outside (hai.store.get_payload handle c.id)
    on_option found (raise error (lit "unknown handle")) (click_on c.pending handle action value)

  -- After the commit: what the browser is told, and then the model.
  unfoldable pub follow_click : Option Pending → Text → Json → Text → Exec (Turn W) (Unit {0})
  follow_click pending handle parsed label = do
    on_option pending (pure tt) λ p. emit (ui_state handle (some parsed))
    id ← nid hai (lit "b")
    emit (interaction_block id handle label)
    run_turn hai

  -- A click in a conversation that is not out of date.
  unfoldable pub click : Text → Text → Json → Exec (Turn W) (Unit {0})
  unfolding record_click follow_click
  click handle action value = do
    pending ← gets (λ t. t.conversation.pending)
    (parsed, label) ← record_click handle action value
    follow_click pending handle parsed label

  unfoldable pub interact : Text → Text → Json → Exec (Turn W) (Unit {0})
  unfolding click announce refuse_if_expired
  interact handle action value = do
    announce hai
    stale ← refuse_if_expired hai true
    if stale then pure tt else click handle action value
