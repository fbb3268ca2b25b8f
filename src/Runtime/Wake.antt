-- ===== src/Runtime/Wake.antt =====
-- A turn that notices start: `wake` and `wakeTurn` of packages/server/src/runtime.ts.
use haikit.Prelude.{
  ℕ, ◌+◌, ◌-◌, ◌||◌, Bool, true, false, not, Option, none, some, List, [], ◌∷◌, ◌++◌, if◌then◌else◌,
  ltb, leb, Text, lit, length, take, drop, keep, Exec, Error, ◌>>=◌, ◌>>◌, pure, throw, on_option,
  on_result, attempt, is_stale_lease, is_conversation_busy,
}
use haikit.Core.Types.{ConversationStatus, Conversation, text, blocks, user}
use haikit.Runtime.Types.{max_safe_integer, Hai, Turn, WireEvent, status, released}
use haikit.Runtime.Actions.{observe, outside, gets, modify, amend, emit}
use haikit.Runtime.Windows.{refuse_if_expired}
use haikit.Runtime.Notices.{Unread, unread_notices, announce}
use haikit.Runtime.Loop.{run_turn}
use haikit.Runtime.Start.{is_awaiting}

pub data WakeOutcome : Type 0 where
  woke idle busy limited failed : WakeOutcome

-- The starts that still count against the limit.
unfoldable pub recent_wakes : ℕ → ℕ → List ℕ → List ℕ
recent_wakes per_ms now wakes = keep (λ t. ltb (now - t) per_ms) wakes

-- `[...recent, now].slice(-count)`.
unfoldable pub add_wake : ℕ → ℕ → List ℕ → List ℕ
add_wake count now recent = let all = recent ++ now ∷ [] in drop (length all - count) all

-- The starts that count from now on, and whether there is one now.
unfoldable pub count_start : ℕ → ℕ → ℕ → List ℕ → List ℕ × Bool
unfolding recent_wakes add_wake
count_start count per_ms now wakes =
    let recent = recent_wakes per_ms now wakes in
    if leb count (length recent) then (recent, false) else (add_wake count now recent, true)

-- What a turn that failed before any tool ran takes back.
unfoldable pub undo_wake : Conversation → Conversation → Conversation
undo_wake before c = record c {
  messages = take (length before.messages) c.messages;
  handles = take (length before.handles) c.handles;
  frozen = take (length before.frozen) c.frozen;
  status = before.status;
  pending = none;
  noticed_through = before.noticed_through;
  woke_through = before.woke_through;
}

-- The notices, and the line that says that the user wrote none of it.
unfoldable pub take_notices : Unread → Conversation → Conversation
take_notices unread c = record c {
  messages =
      c.messages
      ++ record {
        role = user;
        content = blocks (
            unread.texts
            ++ text (
                lit
                  "[The user has not said anything. The notifications above arrived on their own.]")
              ∷ []);
      }
        ∷ [];
  noticed_through = unread.through;
  wake_turns = c.wake_turns + 1;
}

abbrev is_start : Conversation → Bool
is_start c = elim c.messages [ [] ↦ true | m ∷ ms ↦ false ]

module _ {W : Type 0} (hai : Hai W) where
  -- A turn that failed is undone, or, once a tool has run, closed as it is.
  unfoldable pub undo_failed : Conversation → Error → Exec (Turn W) WakeOutcome
  unfolding undo_wake
  undo_failed before e = if is_stale_lease e then throw e else do
    ran ← gets (λ t. t.ran)
    amend (λ c. if ran then record c { status = ConversationStatus.idle } else undo_wake before c)
    throw e

  -- The turn itself: committed, and then run.
  unfoldable pub run_wake : Conversation → Exec (Turn W) WakeOutcome
  unfolding undo_failed
  run_wake before = do
    c ← gets (λ t. t.conversation)
    ended ← attempt (do outside (hai.store.save_conversation c); run_turn hai)
    on_result ended (undo_failed before) λ _. pure woke

  -- Past the limit or not, these notices start no other turn.
  unfoldable pub start_wake : Unread → ℕ → Exec (Turn W) WakeOutcome
  unfolding count_start take_notices run_wake
  start_wake unread now = do
    before ← gets (λ t. t.conversation)
    amend (λ c. record c { woke_through = unread.wake })
    let counted = count_start hai.wakes_count hai.wakes_per_ms now before.wakes
    amend (λ c. record c { wakes = counted.0 })
    if not (counted.1) then pure limited else do
      amend (take_notices unread)
      turns ← gets (λ t. t.conversation.wake_turns)
      emit (status ConversationStatus.streaming (some turns))
      run_wake before

  unfoldable pub wake_turn : Exec (Turn W) WakeOutcome
  unfolding announce refuse_if_expired unread_notices start_wake
  wake_turn = do
    announce hai
    c ← gets (λ t. t.conversation)
    if is_start c || is_awaiting c.status then pure idle else do
      stale ← refuse_if_expired hai false
      if stale then pure idle else do
        unread ← unread_notices hai
        if leb unread.wake c.woke_through
            then pure idle
            else do now ← observe hai.now; start_wake unread now

  -- The lease is let go, unless it was lost; what it gives is a save that failed otherwise.
  unfoldable pub let_go : Bool → Exec (Turn W) (Option Error)
  let_go lost = do
    amend (λ c. record c { lease_until = none })
    if lost then pure none else do
      c ← gets (λ t. t.conversation)
      saved ← attempt (outside (hai.store.save_conversation c))
      on_result saved
          (λ e.
            if is_stale_lease e
            then (do emit (WireEvent.failed e.message); pure none)
            else pure (some e))
          λ _. pure none

  abbrev is_run : WakeOutcome → Bool
  is_run woke = true
  is_run failed = true
  is_run _ = false

  unfoldable pub end_wake : Bool → WakeOutcome → Exec (Turn W) WakeOutcome
  unfolding let_go
  end_wake lost outcome = do
    save_failed ← let_go lost
    if is_run outcome then emit released else pure tt
    on_option save_failed (pure outcome) throw

  -- The request once it holds the conversation.
  unfoldable pub wake_held : Exec (Turn W) WakeOutcome
  unfolding wake_turn end_wake
  wake_held = do
    turned ← attempt wake_turn
    on_result turned (λ e. do emit (WireEvent.failed e.message); end_wake (is_stale_lease e) failed)
        (end_wake false)

  -- The request's variables are set when it has loaded the conversation.
  unfoldable pub wake : Text → Exec (Turn W) WakeOutcome
  unfolding wake_held
  wake id = do
    known ← outside (hai.store.get_notices id max_safe_integer (some 1))
    on_option known (pure idle) λ _. do
      loaded ← attempt (outside (hai.store.load_conversation (some id)))
      on_result loaded (λ e. if is_conversation_busy e then pure busy else throw e)
          λ c. do modify (λ t. record t { conversation = c; ran = false }); wake_held
