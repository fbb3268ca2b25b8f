-- ===== src/Runtime/Queue.antt =====
-- The calls of `hai.update` and the writes that answer them: `update` and `name` of
-- packages/server/src/runtime.ts.
use haikit.Prelude.{
  ℕ, ◌+◌, Bool, not, ◌||◌, Option, none, some, List, [], ◌∷◌, ◌++◌, map, if◌then◌else◌, ltb, length,
  drop, Text, lit, ◌=t=◌, Map, get, set, remove, Result, ok, err, fail, error, range_error,
  type_error,
}
use haikit.Core.Json.{Json}
use haikit.Runtime.Types.{Surface, Returned, string, not_string}
use haikit.Runtime.Update.{UpdateJob, Written}

-- `timeoutMs`, where anything but a finite number from zero up is what `String` makes of it.
pub data Timeout : Type 0 where
  unset : Timeout
  finite : ℕ → Timeout
  out_of_range : Text → Timeout

pub record UpdateCall (W : Type 0) : Type 0 where
  pub conversation_id : Text
  pub impl : Surface W
  -- whether it is the surface that is registered by its name
  pub registered : Bool
  pub handle : Text
  pub props : Json
  pub timeout : Timeout
  pub model : Option Returned
  pub wake : Bool

-- A job and the calls that it answers, by their numbers.
pub record QueuedJob : Type 0 where
  pub job : UpdateJob
  pub waiters : List ℕ

-- The writes for one surface: the one in flight, and the next. All are made with the surface and the
-- handle of the call that started them.
pub record UpdateQueue (W : Type 0) : Type 0 where
  pub conversation_id : Text
  pub impl : Surface W
  pub handle : Text
  pub first : Text
  pub running : QueuedJob
  pub next : Option QueuedJob

-- `updating` and `surfaceNames`, how many calls there were, and what they were answered.
pub record Updates (W : Type 0) : Type 0 where
  pub updating : Map (UpdateQueue W)
  pub surface_names : Map (Map Text)
  pub calls : ℕ
  pub answers : List (ℕ × Result Text)

-- `UPDATE_TIMEOUT_MS` and `UPDATE_NAMES_KEPT`.
abbrev update_timeout_ms : ℕ
update_timeout_ms = 30000

abbrev update_names_kept : ℕ
update_names_kept = 10000

unfoldable pub timeout_of : Timeout → Result ℕ
timeout_of unset = ok update_timeout_ms
timeout_of (finite n) = ok n
timeout_of (out_of_range t) =
    fail range_error
      (lit "timeoutMs must be a finite number of milliseconds, zero or more (got " ++ t ++ lit ")")

unfoldable pub model_of : Option Returned → Result (Option Text)
model_of none = ok none
model_of (some (string t)) = ok (some t)
model_of (some (not_string t)) = fail type_error (lit "model must be a string")

-- What a call that is checked asks for.
unfoldable pub job_of : {W : Type 0} → UpdateCall W → Result UpdateJob
unfolding timeout_of model_of
job_of call = elim (timeout_of call.timeout) [
  | Result.err e ↦ err e
  | Result.ok timeout ↦ elim (model_of call.model) [
    | Result.err e ↦ err e
    | Result.ok model ↦ elim (call.impl.parse call.props) [
      | Result.err e ↦ err e
      | Result.ok parsed ↦
          ok (record { props = parsed; model = model; wake = call.wake; timeout_ms = timeout })
    ]
  ]
]

unfoldable pub check_update : {W : Type 0} → Bool → UpdateCall W → Result UpdateJob
unfolding job_of
check_update updates call =
    if not call.registered
    then fail error (
        lit "surface \""
        ++ call.impl.name
        ++ lit "\" is not registered: list it in createHai({ surfaces })")
    else if not updates
    then fail error (lit "hai.update is off: set createHai({ updates: true })")
    else job_of call

-- The surface's first handle, where `hai.update` has revised it here.
unfoldable pub first_of : Text → Text → Map (Map Text) → Text
first_of id handle names = elim (get id names) [
  | none ↦ handle
  | some ns ↦ elim (get handle ns) [ none ↦ handle | some first ↦ first ]
]

abbrev pub queue_key : Text → Text → Text
queue_key id first = id ++ 0 ∷ first

abbrev pub key_of_call : {W : Type 0} → UpdateCall W → Updates W → Text
key_of_call call u =
    queue_key call.conversation_id (first_of call.conversation_id call.handle u.surface_names)

-- A call takes the place of the one that waits, whose callers it answers too.
unfoldable pub replace : Option QueuedJob → UpdateJob → ℕ → QueuedJob
replace none job caller = record { job = job; waiters = caller ∷ [] }
replace (some behind) job caller = record {
  job = record job { wake = job.wake || behind.job.wake };
  waiters = behind.waiters ++ caller ∷ [];
}

-- The handles of a conversation's surface that lead to its first one: that one and the latest.
unfoldable pub names_after : Text → Text → Text → Map Text → Map Text
names_after first replaced latest ns =
    let rest = if replaced =t= first then ns else remove replaced ns in
    set latest first (set first first rest)

unfoldable pub name : Text → Text → Written → Map (Map Text) → Map (Map Text)
unfolding names_after
name id first w names =
    let ns : Map Text = elim (get id names) [ none ↦ [] | some held ↦ held ] in
    let kept = set id (names_after first w.replaced w.handle ns) (remove id names) in
    if ltb update_names_kept (length kept) then drop 1 kept else kept

abbrev pub answer_of : Result Written → Result Text
answer_of (Result.ok w) = ok w.handle
answer_of (Result.err e) = err e

module _ {W : Type 0} where
  unfoldable pub started : UpdateCall W → Text → UpdateJob → ℕ → UpdateQueue W
  started call first job caller = record {
    conversation_id = call.conversation_id;
    impl = call.impl;
    handle = call.handle;
    first = first;
    running = record { job = job; waiters = caller ∷ [] };
    next = none;
  }

  -- The queue of the surface after a call.
  unfoldable pub joined : Option (UpdateQueue W) → UpdateQueue W → UpdateJob → ℕ → UpdateQueue W
  unfolding replace
  joined none fresh job caller = fresh
  joined (some q) fresh job caller = record q { next = some (replace q.next job caller) }

  -- A call that is refused is answered at once.
  unfoldable pub take_call : Result UpdateJob → UpdateCall W → Updates W → Updates W
  unfolding first_of started joined
  take_call (Result.err e) call u = record u {
    answers = u.answers ++ (u.calls, err e) ∷ [];
    calls = u.calls + 1;
  }
  take_call (Result.ok job) call u =
      let first = first_of call.conversation_id call.handle u.surface_names in
      let key = queue_key call.conversation_id first in
      let fresh = started call first job u.calls in
      record u {
        updating = set key (joined (get key u.updating) fresh job u.calls) u.updating;
        calls = u.calls + 1;
      }

  unfoldable pub update : Bool → UpdateCall W → Updates W → Updates W
  unfolding check_update take_call
  update updates call u = take_call (check_update updates call) call u

  -- What is left of a queue whose write has ended: the next write, or nothing.
  unfoldable pub advance :
      Option QueuedJob → Text → UpdateQueue W → Map (UpdateQueue W) → Map (UpdateQueue W)
  advance none key q m = remove key m
  advance (some j) key q m = set key (record q { running = j; next = none }) m

  abbrev pub names_written : UpdateQueue W → Result Written → Map (Map Text) → Map (Map Text)
  names_written q (Result.err e) names = names
  names_written q (Result.ok w) names = name q.conversation_id q.first w names

  -- A write ends: its callers are answered.
  unfoldable pub write_done : Option (UpdateQueue W) → Text → Result Written → Updates W → Updates W
  unfolding name advance
  write_done none key r u = u
  write_done (some q) key r u = record u {
    answers = u.answers ++ map (λ caller. (caller, answer_of r)) q.running.waiters;
    surface_names = names_written q r u.surface_names;
    updating = advance q.next key q u.updating;
  }

  unfoldable pub write_ended : Text → Result Written → Updates W → Updates W
  unfolding write_done
  write_ended key r u = write_done (get key u.updating) key r u

-- What happens, in any order: calls, and the ends of writes.
pub data UpdateEvent (W : Type 0) : Type 0 where
  called : UpdateCall W → UpdateEvent W
  written : Text → Result Written → UpdateEvent W

abbrev pub no_updates : {W : Type 0} → Updates W
no_updates = record { updating = []; surface_names = []; calls = 0; answers = [] }

module _ {W : Type 0} (updates : Bool) where
  abbrev pub happens : UpdateEvent W → Updates W → Updates W
  happens (called call) u = update updates call u
  happens (written key r) u = write_ended key r u

  abbrev pub run_updates : List (UpdateEvent W) → Updates W → Updates W
  run_updates [] u = u
  run_updates (e ∷ es) u = run_updates es (happens e u)
