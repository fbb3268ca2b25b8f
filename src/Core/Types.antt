-- ===== src/Core/Types.antt =====
-- The stored records of packages/core/src/index.ts: conversations, notices and payloads.
use Prim.Native.Nat.{ℕ}
use mathlib.Core.Bool.{Bool}
use mathlib.Core.Option.{Option}
use mathlib.Core.List.{List}
use haikit.Prelude.Strings.{Text}
use haikit.Prelude.Maps.{Map}
use haikit.Core.Json.{Json}

pub data ConversationStatus : Type 0 where
  idle streaming awaiting : ConversationStatus

-- The blocks of a message's content that the runtime writes or reads; `other` is any block that a
-- model adapter keeps in the history for itself.
pub data ContentBlock : Type 0 where
  text : Text → ContentBlock
  tool_use : Text → Text → Json → ContentBlock
  tool_result : Text → Text → ContentBlock
  other : Json → ContentBlock

pub data Content : Type 0 where
  plain : Text → Content
  blocks : List ContentBlock → Content

pub data Role : Type 0 where
  user assistant : Role

pub record Message : Type 0 where
  pub role : Role
  pub content : Content

pub record Pending : Type 0 where
  pub tool_use_id : Text
  pub handle : Text
  pub digest : Text
  pub results : List ContentBlock

-- A notice without its number and its time: what `putNotice` takes, and `announcing` holds.
pub record NoticeBody : Type 0 where
  pub conversation_id : Text
  pub name : Text
  pub version : ℕ
  pub wake : Bool
  pub payload : Json
  pub model : Option Text
  pub handle : Option Text
  pub replaces : Option Text

pub record NoticeRecord : Type 0 where
  pub body : NoticeBody
  pub open body use *
  pub seq : ℕ
  pub created_at : ℕ

-- Fields that the source may leave out (`superseded`, `noticedThrough`, `wakes`, `wokeThrough`,
-- `wakeTurns`, `announcing`) have the value that it reads a missing one as.
pub record Conversation : Type 0 where
  pub id : Text
  pub status : ConversationStatus
  pub messages : List Message
  pub handles : List Text
  pub frozen : List Text
  pub superseded : Map Text
  pub pending : Option Pending
  pub lease_until : Option ℕ
  pub lease_token : Option Text
  pub noticed_through : ℕ
  pub wakes : List ℕ
  pub woke_through : ℕ
  pub wake_turns : ℕ
  pub announcing : Option NoticeBody

pub data Mode : Type 0 where
  display elicit : Mode

-- A freshness window as recorded or declared: `unknown` stands for null, undefined, and every value
-- that is neither "never" nor a finite number above zero; `ms 0` is refused like those.
pub data Window : Type 0 where
  never : Window
  ms : ℕ → Window
  unknown : Window

-- A number of milliseconds as JavaScript has it: a whole one, or no
-- finite number, by its spelling (NaN, Infinity).
pub data Number : Type 0 where
  whole : ℕ → Number
  not_finite : Text → Number

-- `putPayload` takes the record without its handle and its time.
pub record PayloadBody : Type 0 where
  pub conversation_id : Text
  pub component : Text
  pub version : ℕ
  pub props : Json
  pub mode : Mode
  pub stale_after_ms : Window

pub record PayloadRecord : Type 0 where
  pub body : PayloadBody
  pub open body use *
  pub handle : Text
  pub created_at : Number
