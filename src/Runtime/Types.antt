-- ===== src/Runtime/Types.antt =====
-- What the runtime stands between: the store and model interfaces of packages/core/src/index.ts, an
-- app's surfaces and tools, the events sent to the browser, and the state of one request.
use haikit.Prelude.{ℕ, Bool, Option, List, Text, Map, Result, Exec, Error}
use haikit.Core.Json.{Json}
use haikit.Core.Types.{
  ConversationStatus, Content, Message, NoticeBody, NoticeRecord, Conversation, Mode, Window,
  PayloadBody, PayloadRecord,
}

-- What another process, or the outside world, does between two calls is part of `W`: a call may
-- answer anything that its type allows, and may fail.
pub record StoreAdapter (W : Type 0) : Type 0 where
  pub load_conversation : Option Text → Exec W Conversation
  pub save_conversation : Conversation → Exec W (Unit {0})
  pub put_payload : PayloadBody → Option Text → Exec W Text
  pub get_payload : Text → Text → Exec W (Option PayloadRecord)
  pub get_payloads : List Text → Text → Exec W (List PayloadRecord)
  pub put_notice : NoticeBody → Exec W NoticeRecord
  pub get_notices : Text → ℕ → Option ℕ → Exec W (Option (List NoticeRecord))

-- `Number.MAX_SAFE_INTEGER`.
abbrev pub max_safe_integer : ℕ
max_safe_integer = 9007199254740991

-- A model's reply. `deltas` is the text that it streams first, also in front of a failure.
pub record ModelResponse : Type 0 where
  pub content : Content
  pub stop_reason : Text

pub record Generated : Type 0 where
  pub deltas : List Text
  pub response : Result ModelResponse

pub data ActionKind : Type 0 where
  resolve inform : ActionKind

pub record ActionSpec : Type 0 where
  pub kind : ActionKind
  pub parse : Json → Result Json

-- What a function that should return a string returned: one, or another value by what `typeof` (or
-- "null") says of it.
pub data Returned : Type 0 where
  string : Text → Returned
  not_string : Text → Returned

-- A surface's contract and its server half.
pub record Surface (W : Type 0) : Type 0 where
  pub name : Text
  pub version : ℕ
  pub parse : Json → Result Json
  pub stale_after_ms : Option Window
  pub digest : Json → Text → Result Returned
  pub specs : Map ActionSpec
  pub handlers : Map (Json → PayloadRecord → Exec W Text)

-- What `ctx.render` and `ctx.update` return to a tool.
pub record ToolReturn : Type 0 where
  pub model : Text
  pub handle : Option Text

-- A tool's `run`, as the calls of its context that it makes, one after another, with its own effects
-- between them. It ends with what it returns (`none` where that holds no text), or by a throw.
pub data ToolRun (W : Type 0) : Type 0 where
  finish : Option Text → ToolRun W
  throws : Error → ToolRun W
  act : (W → W) → (W → ToolRun W) → ToolRun W
  render : Surface W → Json → Mode → (Result ToolReturn → ToolRun W) → ToolRun W
  update : Surface W → Text → Json → (Result ToolReturn → ToolRun W) → ToolRun W

pub record Tool (W : Type 0) : Type 0 where
  pub name : Text
  pub parse : Json → Result Json
  pub run : Json → ToolRun W

pub data BlockStatus : Type 0 where
  error awaiting ok : BlockStatus

-- The events, less their durations (`ms`, `ageMs`): nothing reads those on the server.
pub data WireEvent : Type 0 where
  status : ConversationStatus → Option ℕ → WireEvent
  user_block : Text → Text → WireEvent
  assistant_block : Text → WireEvent
  tool_block : Text → Text → Json → WireEvent
  interaction_block : Text → Text → Text → WireEvent
  block_update : Text → BlockStatus → Text → WireEvent
  text_delta : Text → Text → WireEvent
  ui_open : Text → Text → Text → ℕ → Mode → Window → Option Text → WireEvent
  ui_props : Text → Json → WireEvent
  ui_state : Text → Option Json → WireEvent
  expired : Text → WireEvent
  failed : Text → WireEvent
  hello : Text → Text → Bool → WireEvent
  released : WireEvent
  context : List Message → ℕ → WireEvent

-- `Hai`, once built. `tools` holds the app's tools, the init tool and `query_ui`, by name.
pub record Hai (W : Type 0) : Type 0 where
  pub store : StoreAdapter W
  pub generate : List Message → W → Generated × W
  pub now : W → ℕ × W
  pub random_id : W → Text × W
  pub surfaces : Map (Surface W)
  pub tools : Map (Tool W)
  pub init : Option (Tool W)
  pub max_hops : ℕ
  pub sends_notices : Bool
  pub wakes_count : ℕ
  pub wakes_per_ms : ℕ
  pub block_ids : Text
  pub props_tokens : Json → ℕ

pub record Question : Type 0 where
  pub handle : Text
  pub digest : Text

-- `Hop.asking`, once its surface shows; `digest` is there once a later call has revised it.
pub record Asking : Type 0 where
  pub handle : Text
  pub question : Text
  pub digest : Option Text

-- The variables of one request. `asked` and `lost` are those of the tool call that runs.
pub record Turn (W : Type 0) : Type 0 where
  pub world : W
  pub conversation : Conversation
  pub sent : List WireEvent
  -- the surfaces' events that `runInit` holds back
  pub held : Option (List WireEvent)
  pub seq : ℕ
  pub ran : Bool
  pub asking : Option Asking
  pub asked : Option Question
  pub lost : Option Error
