-- ===== src/Runtime/Tests.antt =====
-- The theorems about the runtime at a Hai over the in-memory store.
use haikit.Prelude.{
  arith, ◌≤◌, ◌≡◌, ◌↔◌, refl, ◌||◌, false, true, none, some, [], ◌∷◌, map, lit, ◌>>=◌, attempt,
  on_result, get, ◌=t=◌, error, All,
}
use haikit.Core.Json.{null}
use haikit.Runtime.Actions.{gets, amend, emit, outside, nid, observe}
use haikit.Core.Types.{PayloadRecord, ms, text}
use haikit.Store.Memory.{save_conversation}
use haikit.Runtime.Handles.{
  Revises, EndsAt, includes, current_within, current_handle, current_handle-EndsAt,
}
use mathlib.Core.List.Perm
use haikit.Runtime.Tools.{ToolCall}
use haikit.Runtime.Invoke.{invoke_tool}
use haikit.Runtime.Settled.{Settled, invoke_tool-Settled}
use haikit.Runtime.Loop.{run_turn}
use haikit.Runtime.History.{uses, answers, IsWellFormed}
use haikit.Runtime.Requests.{interact-Ended}
use haikit.Runtime.Notices.{Unread}
use haikit.Runtime.Start.{send, start}
use haikit.Runtime.Messages.{send-Ended}
use haikit.Runtime.Openings.{start-Ended}
use haikit.Runtime.Wake.{start_wake}
use haikit.Runtime.Limits.{starts_at, started_within, Ascends, starts_at-bound}
use haikit.Runtime.Woken.{start_wake-undo_wake}
use haikit.Runtime.Complete.{IsComplete, Ended, run_turn-Ended}
use haikit.Runtime.Click.{record_click, interact}
use haikit.Runtime.Undo.{Recorded, record_click-Recorded}
use haikit.Runtime.Windows.{is_valid, strictest, first_expired}
use haikit.Runtime.Freshness.{Allows, Limits, IsLive, strictest-Allows, first_expired-none}
use haikit.Runtime.Fixtures.{
  local_hai, revised_once, second_payload, waiting_turn, clicked, greeted, begun, starting_hai,
  failing_hai, fresh, unopened,
}

greeted-IsComplete : IsComplete greeted
unfolding uses answers
greeted-IsComplete = ((Perm.refl [], Perm.refl []), refl)

run_turn-Ended_example :
    Ended (run_turn local_hai begun).1.conversation (run_turn local_hai begun).0
run_turn-Ended_example = run_turn-Ended local_hai begun greeted-IsComplete

abbrev asks : ToolCall
asks = record { id = lit "t1"; name = lit "ask"; input = null }

invoke_tool-Settled_example :
    Settled greeted.messages none false
      (invoke_tool local_hai false (lit "b") asks begun).1.asking
      (invoke_tool local_hai false (lit "b") asks begun).1.conversation
      (invoke_tool local_hai false (lit "b") asks begun).0
invoke_tool-Settled_example = invoke_tool-Settled local_hai (lit "b") asks begun

waiting_turn-IsWellFormed : IsWellFormed waiting_turn
unfolding IsWellFormed uses answers
waiting_turn-IsWellFormed = (Perm.refl [], (Perm.refl [], Perm.refl (lit "t1" ∷ [])))

interact-Ended_example :
    Ended
      (interact local_hai (lit "ui_02") (lit "pick") null clicked).1.conversation
      (interact local_hai (lit "ui_02") (lit "pick") null clicked).0
interact-Ended_example =
    interact-Ended local_hai (lit "ui_02") (lit "pick") null clicked waiting_turn-IsWellFormed

record_click-Recorded_example :
    Recorded
      (lit "ui_02")
      clicked.conversation
      (record_click local_hai (lit "ui_02") (lit "pick") null clicked).1.conversation
      (record_click local_hai (lit "ui_02") (lit "pick") null clicked).0
record_click-Recorded_example =
    record_click-Recorded local_hai (lit "ui_02") (lit "pick") null clicked

current_handle-EndsAt_example :
    (current_within 2 revised_once (lit "ui_01") ≡ some (current_handle revised_once (lit "ui_01")))
    × Revises revised_once.superseded (lit "ui_01") (current_handle revised_once (lit "ui_01"))
    × EndsAt revised_once.superseded (current_handle revised_once (lit "ui_01"))
current_handle-EndsAt_example = current_handle-EndsAt revised_once (lit "ui_01") 2 (omega arith)

strictest-Allows_example :
    Allows (strictest (ms 30) (ms 20)) 25
    ↔ (((is_valid (ms 30) || is_valid (ms 20)) ≡ true) × Limits (ms 30) 25 × Limits (ms 20) 25)
strictest-Allows_example = strictest-Allows (ms 30) (ms 20) 25

first_expired-none_example :
    (first_expired local_hai revised_once (second_payload ∷ []) 9 ≡ none) ↔ (
      All
        (λ h. includes (map (λ (r : PayloadRecord). r.handle) (second_payload ∷ [])) h ≡ true)
        revised_once.handles
      × All (IsLive local_hai revised_once.superseded 9) (second_payload ∷ []))
first_expired-none_example = first_expired-none local_hai revised_once (second_payload ∷ []) 9

fresh-IsComplete : IsComplete fresh
unfolding uses answers
fresh-IsComplete = (Perm.refl [], refl)

send-Ended_example :
    Ended (send local_hai (lit "No") clicked).1.conversation (send local_hai (lit "No") clicked).0
send-Ended_example = send-Ended local_hai (lit "No") clicked waiting_turn-IsWellFormed (λ p e. refl)

start-Ended_example :
    Ended (start starting_hai unopened).1.conversation (start starting_hai unopened).0
start-Ended_example = start-Ended starting_hai unopened fresh-IsComplete

abbrev news : Unread
news = record { texts = text (lit "Your flight moved.") ∷ []; through = 1; wake = 1 }

start_wake-undo_wake_example :
    (start_wake failing_hai news 5 begun).1.conversation
    ≡ record greeted { wakes = 5 ∷ []; wake_turns = 1 }
unfolding start_wake ◌>>=◌ gets amend emit attempt on_result outside save_conversation get ◌=t=◌
    run_turn nid observe
start_wake-undo_wake_example =
    start_wake-undo_wake failing_hai news 5 begun (record { name = error; message = lit "down" })
      refl refl refl refl

starts_at-bound_example :
    started_within 60000 70001 (starts_at 1 60000 (5 ∷ 10 ∷ 70000 ∷ []) [] []) ≤ 1
unfolding Ascends
starts_at-bound_example =
    starts_at-bound 1 60000 70001 (5 ∷ 10 ∷ 70000 ∷ [])
      (omega arith, (omega arith, (omega arith, omega arith)))
