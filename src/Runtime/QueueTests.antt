-- ===== src/Runtime/QueueTests.antt =====
-- Calls of `hai.update` that meet, at concrete surfaces.
use haikit.Prelude.{
  ◌≤◌, ◌≡◌, refl, arith, true, false, none, some, List, [], ◌∷◌, lit, ok, get, set, remove, ◌=t=◌,
  Text,
}
use haikit.Core.Json.{null, obj, end}
use haikit.Store.Memory.{Memory}
use haikit.Runtime.Fixtures.{picker}
use haikit.Runtime.Update.{UpdateJob}
use haikit.Runtime.Queue.{
  UpdateCall, UpdateQueue, unset, UpdateEvent, called, written, check_update, queue_key, first_of,
  update, write_ended, run_updates, no_updates,
}
use haikit.Runtime.Queued.{Accounted, times_answered, run_updates-Accounted}
use haikit.Runtime.Promised.{update-answered}
use haikit.Runtime.Waking.{update-wakes}

abbrev revise_picker : UpdateCall Memory
revise_picker = record {
  conversation_id = lit "c";
  impl = picker;
  registered = true;
  handle = lit "ui_01";
  props = null;
  timeout = unset;
  model = none;
  wake = false;
}

-- A call with another surface, whose props are checked by that one.
abbrev revise_chart : UpdateCall Memory
revise_chart = record revise_picker { impl = record picker { name = lit "chart" }; props = obj end }

abbrev picked : Text
picked = queue_key (lit "c") (lit "ui_01")

abbrev first_write : UpdateEvent Memory
first_write = written picked (ok (record { handle = lit "ui_02"; replaced = lit "ui_01" }))

abbrev second_write : UpdateEvent Memory
second_write = written picked (ok (record { handle = lit "ui_03"; replaced = lit "ui_02" }))

abbrev two_calls : List (UpdateEvent Memory)
two_calls = called revise_picker ∷ called revise_picker ∷ first_write ∷ second_write ∷ []

run_updates-Accounted_example : Accounted (run_updates true two_calls no_updates)
run_updates-Accounted_example = run_updates-Accounted true two_calls

abbrev null_job : UpdateJob
null_job = record { props = null; model = none; wake = false; timeout_ms = 30000 }

picker_checked : check_update true revise_picker ≡ ok null_job
unfolding check_update
picker_checked = refl

abbrev later_events : List (UpdateEvent Memory)
later_events = called revise_picker ∷ first_write ∷ second_write ∷ []

update-answered_example :
    1
    ≤ times_answered 0
        (run_updates true later_events (update true revise_picker no_updates)).answers
unfolding ◌=t=◌ first_of get
update-answered_example =
    update-answered true revise_picker null_job no_updates later_events picker_checked (omega arith)

-- A call with another surface, while a write of this one is in flight, is written as this one.
mixed_calls :
    get picked
      (run_updates true (called revise_picker ∷ called revise_chart ∷ []) no_updates).updating
    ≡ some (record {
      conversation_id = lit "c";
      impl = picker;
      handle = lit "ui_01";
      first = lit "ui_01";
      running = record { job = null_job; waiters = 0 ∷ [] };
      next = some (record { job = record null_job { props = obj end }; waiters = 1 ∷ [] });
    })
unfolding update get set ◌=t=◌
mixed_calls = refl

-- A surface revised twice is found by its first and its latest handle, not by the one in between.
middle_handle :
    (first_of (lit "c") (lit "ui_03") (run_updates true two_calls no_updates).surface_names
      ≡ lit "ui_01")
    × (first_of (lit "c") (lit "ui_02") (run_updates true two_calls no_updates).surface_names
        ≡ lit "ui_02")
unfolding update write_ended first_of get set ◌=t=◌ remove
middle_handle = (refl, refl)

abbrev wake_picker : UpdateCall Memory
wake_picker = record revise_picker { wake = true }

abbrev wake_job : UpdateJob
wake_job = record null_job { wake = true }

wake_checked : check_update true wake_picker ≡ ok wake_job
unfolding check_update
wake_checked = refl

abbrev waking_queue : UpdateQueue Memory
waking_queue = record {
  conversation_id = lit "c";
  impl = picker;
  handle = lit "ui_01";
  first = lit "ui_01";
  running = record { job = wake_job; waiters = 1 ∷ 2 ∷ [] };
  next = none;
}

-- A call that asked to wake, behind a write in flight, and one that did not ask after it.
update-wakes_example : waking_queue.running.job.wake ≡ true
unfolding update write_ended first_of get set ◌=t=◌ remove
update-wakes_example =
    update-wakes true (called revise_picker ∷ []) (called revise_picker ∷ first_write ∷ [])
      wake_picker wake_job picked waking_queue wake_checked refl refl (omega arith)
