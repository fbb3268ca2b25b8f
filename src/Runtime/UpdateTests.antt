-- ===== src/Runtime/UpdateTests.antt =====
-- The theorems about updates, at a Hai over the in-memory store and at one whose world is a clock.
use haikit.Prelude.{
  ℕ, ◌+◌, ◌≤◌, refl, true, false, none, some, [], Text, lit, ok, err, conversation_busy, error,
  raise, ltb, if◌then◌else◌, arith,
}
use haikit.Core.Json.{null}
use haikit.Core.Types.{NoticeBody}
use haikit.Runtime.Types.{Turn, Hai, StoreAdapter}
use haikit.Runtime.Notices.{announce}
use haikit.Runtime.Update.{UpdateJob, revise_held, revise_loaded, load_when_free, retry_ms}
use haikit.Runtime.Revisions.{Told, revise_held-Told}
use haikit.Runtime.Announced.{Announced, announce-Announced}
use haikit.Runtime.Updates.{LetGo, revise_loaded-LetGo}
use haikit.Runtime.Waits.{Clocked, Waited, load_when_free-ends}
use haikit.Runtime.Fixtures.{local_hai, picker, clicked, waiting_turn, greeted}
use haikit.Store.Memory.{Memory}

abbrev repriced : UpdateJob
repriced = record { props = null; model = none; wake = false; timeout_ms = 150 }

revise_held-Told_example :
    Told local_hai waiting_turn
      (revise_held local_hai picker (lit "ui_01") repriced clicked).0
      (revise_held local_hai picker (lit "ui_01") repriced clicked).1
revise_held-Told_example = revise_held-Told local_hai picker (lit "ui_01") repriced clicked

abbrev owed : NoticeBody
owed = record {
  conversation_id = lit "c";
  name = lit "picker";
  version = 1;
  wake = false;
  payload = null;
  model = some (lit "ui_01 was replaced by ui_02");
  handle = some (lit "ui_02");
  replaces = some (lit "ui_01");
}

abbrev owing : Turn Memory
owing = record clicked { conversation = record waiting_turn { announcing = some owed } }

announce-Announced_example :
    Announced local_hai owing.conversation
      (some owed)
      (announce local_hai owing).0
      (announce local_hai owing).1
announce-Announced_example = announce-Announced local_hai owing

revise_loaded-LetGo_example :
    LetGo local_hai owing.conversation
      (revise_loaded local_hai picker (lit "ui_02") repriced owing).0
      (revise_loaded local_hai picker (lit "ui_02") repriced owing).1
revise_loaded-LetGo_example = revise_loaded-LetGo local_hai picker (lit "ui_02") repriced owing

-- A turn holds the conversation until time 120.
abbrev clock_store : StoreAdapter ℕ
clock_store = record {
  load_conversation = λ id t.
      if ltb t 120
      then (err (record { name = conversation_busy; message = lit "busy" }), t)
      else (ok greeted, t);
  save_conversation = λ c t. (ok tt, t);
  put_payload = λ r token t. raise error [] t;
  get_payload = λ h id t. (ok none, t);
  get_payloads = λ hs id t. (ok [], t);
  put_notice = λ r t. raise error [] t;
  get_notices = λ id after limit t. (ok none, t);
}

abbrev clock_hai : Hai ℕ
clock_hai = record {
  store = clock_store;
  generate = λ messages t.
      (record { deltas = []; response = err (record { name = error; message = [] }) }, t);
  now = λ t. (t, t);
  random_id = λ t. (lit "r", t);
  surfaces = [];
  tools = [];
  init = none;
  max_hops = 8;
  sends_notices = true;
  wakes_count = 1;
  wakes_per_ms = 60000;
  block_ids = lit "x";
  props_tokens = λ v. 1;
}

abbrev wait_for : ℕ → ℕ → ℕ
wait_for n t = t + n

busy_until_120 : (id : Text) (t : ℕ) → t ≤ (clock_store.load_conversation (some id) t).1
busy_until_120 id t = ground arith

abbrev kept_time : Clocked clock_hai wait_for
kept_time = record {
  clock = λ t. t;
  read = λ t. refl;
  reading = λ t. omega arith;
  loading = busy_until_120;
  sleeping = λ n t. omega arith;
}

load_when_free-ends_example :
    Waited clock_hai wait_for kept_time 150
      (lit "c")
      (load_when_free clock_hai wait_for 151 150 retry_ms (lit "c") 0).0
      (load_when_free clock_hai wait_for 151 150 retry_ms (lit "c") 0).1
load_when_free-ends_example = load_when_free-ends clock_hai wait_for kept_time (lit "c") 150 0
