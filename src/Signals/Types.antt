-- ===== src/Signals/Types.antt =====
-- What `Broadcast` of packages/server/src/signals.ts keeps and sends.
use haikit.Prelude.{ℕ, ◌+◌, Bool, true, false, Option, none, some, List, [], length, Text, Map}
use haikit.Core.Json.{Json}

pub record Signal : Type 0 where
  pub name : Text
  pub version : ℕ
  pub payload : Json

pub data Body : Type 0 where
  signal : Signal → Body
  presence : ℕ → Body

pub record Peer : Type 0 where
  pub count : ℕ
  pub heard : ℕ

-- An events stream, with a number of its own.
pub record Stream : Type 0 where
  pub id : ℕ
  pub conversation : Text

-- What leaves the server: a signal to a stream, the total to a listener, a publish to the store.
pub data Output : Type 0 where
  streamed : ℕ → Signal → Output
  counted : ℕ → ℕ → Output
  published : Body → Output

-- `leaving` has a conversation as long as its timer runs.
pub record Broadcast : Type 0 where
  pub streams : List Stream
  pub next_stream : ℕ
  pub latest : Map Signal
  pub opens : Map ℕ
  pub leaving : Map (Unit {0})
  pub peers : Map Peer
  pub listeners : List ℕ
  pub total : ℕ
  pub told : ℕ
  pub started : Bool
  pub publishing : Bool
  pub unsent : Map Body
  pub out : List Output

-- What a server is created with; `can_publish` where the store has a `publish`.
pub record Config : Type 0 where
  pub can_publish : Bool
  pub heartbeat_ms : ℕ
  pub origin : Text

abbrev pub created : Broadcast
created = record {
  streams = [];
  next_stream = 0;
  latest = [];
  opens = [];
  leaving = [];
  peers = [];
  listeners = [];
  total = 0;
  told = 0;
  started = false;
  publishing = false;
  unsent = [];
  out = [];
}

-- `Number.MAX_SAFE_INTEGER`.
abbrev pub max_safe : ℕ
max_safe = 9007199254740991

abbrev pub local : Broadcast → ℕ
local s = length s.opens + length s.leaving

abbrev pub is_none : {A : Type 0} → Option A → Bool
is_none none = true
is_none (some a) = false

abbrev pub or_else : ℕ → Option ℕ → ℕ
or_else d none = d
or_else d (some n) = n
