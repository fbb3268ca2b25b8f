-- ===== src/Runtime/Fixtures.antt =====
-- A Hai over the in-memory store, and conversations in it.
use haikit.Prelude.{false, true, none, some, [], ◌∷◌, lit, ok, err, error}
use haikit.Core.Json.{null}
use haikit.Core.Types.{
  assistant, user, plain, Conversation, idle, awaiting, PayloadRecord, ms, display, elicit, whole,
  blocks, tool_use,
}
use haikit.Store.Memory.{
  Memory, load_conversation, save_conversation, put_payload, get_payload, get_payloads, put_notice,
  get_notices,
}
use haikit.Runtime.Types.{Turn, Hai, resolve, StoreAdapter, Surface, string, Tool, render, finish}

-- The in-memory store at time 5, with ids that are one letter each.
abbrev pub local_store : StoreAdapter Memory
local_store = record {
  load_conversation = λ id. load_conversation (λ n. n ∷ []) 10 id 5 5;
  save_conversation = save_conversation;
  put_payload = λ r token. put_payload r token 5;
  get_payload = λ h id m. (ok (get_payload h id m), m);
  get_payloads = λ hs id m. (ok (get_payloads hs id m), m);
  put_notice = λ r. put_notice r 5;
  get_notices = λ id after limit m. (ok (get_notices id after limit m), m);
}

abbrev pub picker : Surface Memory
picker = record {
  name = lit "picker";
  version = 1;
  parse = λ v. ok v;
  stale_after_ms = some (ms 20);
  digest = λ v h. ok (string (lit "Shown."));
  specs = (lit "pick", record { kind = resolve; parse = λ v. ok v }) ∷ [];
  handlers = (lit "pick", λ v r m. (ok (lit "Picked."), m)) ∷ [];
}

abbrev pub ask_tool : Tool Memory
ask_tool = record {
  name = lit "ask";
  parse = λ v. ok v;
  run = λ v. render picker v elicit (λ r. finish none);
}

abbrev pub local_hai : Hai Memory
local_hai = record {
  store = local_store;
  generate = λ messages w. (
    record {
      deltas = lit "Hello." ∷ [];
      response = ok (record {
        content = blocks (tool_use (lit "t1") (lit "ask") null ∷ []);
        stop_reason = lit "tool_use";
      });
    },
    w,
  );
  now = λ w. (5, w);
  random_id = λ w. (lit "r", w);
  surfaces = (lit "picker", picker) ∷ [];
  tools = (lit "ask", ask_tool) ∷ [];
  init = none;
  max_hops = 8;
  sends_notices = true;
  wakes_count = 1;
  wakes_per_ms = 60000;
  block_ids = lit "x";
  props_tokens = λ v. 1;
}

abbrev pub revised_once : Conversation
revised_once = record {
  id = lit "c";
  status = idle;
  messages = [];
  handles = lit "ui_01" ∷ lit "ui_02" ∷ [];
  frozen = [];
  superseded = (lit "ui_01", lit "ui_02") ∷ [];
  pending = none;
  lease_until = none;
  lease_token = some (lit "t");
  noticed_through = 0;
  wakes = [];
  woke_through = 0;
  wake_turns = 0;
  announcing = none;
}

abbrev pub second_payload : PayloadRecord
second_payload = record {
  body = record {
    conversation_id = lit "c";
    component = lit "picker";
    version = 1;
    props = null;
    mode = display;
    stale_after_ms = ms 30;
  };
  handle = lit "ui_02";
  created_at = whole 3;
}

-- A conversation whose question waits on its second surface, in a store that holds both.
abbrev pub waiting_turn : Conversation
waiting_turn = record revised_once {
  status = awaiting;
  messages =
      record { role = user; content = plain (lit "Hi") }
      ∷ record { role = assistant; content = blocks (tool_use (lit "t1") (lit "ask") null ∷ []) }
      ∷ [];
  pending = some (record {
    tool_use_id = lit "t1";
    handle = lit "ui_02";
    digest = lit "Shown.";
    results = [];
  });
}

abbrev pub clicked : Turn Memory
clicked = record {
  world = record {
    conversations = (lit "c", waiting_turn) ∷ [];
    payloads =
        (lit "ui_01", record second_payload { handle = lit "ui_01" })
        ∷ (lit "ui_02", second_payload)
        ∷ [];
    notices = [];
    conv_seq = 1;
    handle_seq = 2;
    drawn = 1;
  };
  conversation = waiting_turn;
  sent = [];
  held = none;
  seq = 0;
  ran = false;
  asking = none;
  asked = none;
  lost = none;
}

-- The first message of a conversation, which the model will answer by asking a question.
abbrev pub greeted : Conversation
greeted = record revised_once {
  messages = record { role = user; content = plain (lit "Hi") } ∷ [];
  handles = [];
  superseded = [];
}

abbrev pub begun : Turn Memory
begun = record {
  world = record {
    conversations = (lit "c", greeted) ∷ [];
    payloads = [];
    notices = [];
    conv_seq = 1;
    handle_seq = 0;
    drawn = 1;
  };
  conversation = greeted;
  sent = [];
  held = none;
  seq = 0;
  ran = false;
  asking = none;
  asked = none;
  lost = none;
}

-- A start that asks, one that the missing init tool refuses, and a model that fails.
abbrev pub starting_hai : Hai Memory
starting_hai = record local_hai { init = some ask_tool }

abbrev pub failing_hai : Hai Memory
failing_hai = record local_hai {
  generate = λ messages w.
      (record { deltas = []; response = err (record { name = error; message = lit "down" }) }, w);
}

abbrev pub fresh : Conversation
fresh = record greeted { messages = [] }

abbrev pub unopened : Turn Memory
unopened = record begun { conversation = fresh }
