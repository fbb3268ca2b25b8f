-- ===== src/Routes/Types.antt =====
-- The routes' data: the gate, a request and its response, and what answers one: `refuse`, `openSSE` and
-- `failed` of packages/server/src/routes.ts.
use haikit.Prelude.{
  ℕ, Bool, true, false, Option, none, some, List, [], ◌∷◌, ◌++◌, if◌then◌else◌, Text, Map, Result,
  Exec, Error,
}
use haikit.Core.Json.{Json}
use haikit.Core.Types.{Conversation}
use haikit.Runtime.Types.{Turn, WireEvent}

pub data Route : Type 0 where
  chat_route start_route interact_route : Route

-- A gate's answer: who is asking, or the status and the reason that the request is refused with.
pub data Admission : Type 0 where
  admitted : Text → Admission
  refused : ℕ → Text → Admission

pub record GateRequest : Type 0 where
  pub route : Route
  pub headers : Map Text

pub record Gate (W : Type 0) : Type 0 where
  pub admit : GateRequest → Exec W Admission
  pub allows : Text → Text → Exec W Bool
  pub created : Text → Text → Exec W (Unit {0})

-- The fields of a body that the routes read: the conversation's id where it is a string, and the
-- message, the handle and the action as strings.
pub record PostBody : Type 0 where
  pub conversation_id : Option Text
  pub message : Text
  pub handle : Text
  pub action : Text
  pub value : Json

pub data PostRead : Type 0 where
  too_large malformed : PostRead
  read : PostBody → PostRead

-- A request, with what reading its body gives.
pub record Request (W : Type 0) : Type 0 where
  pub route : Route
  pub headers : Map Text
  pub read_body : W → PostRead × W

-- What the routes are made with, beside the Hai.
pub record Options (W : Type 0) : Type 0 where
  pub gate : Option (Gate W)
  pub model_id : Text
  pub streams_events : Bool

-- The response, and the count of the Hai's block ids.
pub record Exchange (W : Type 0) : Type 0 where
  pub world : W
  pub seq : ℕ
  -- the status of a head that was sent
  pub head : Option ℕ
  -- the error of an answer in JSON
  pub error : Option Text
  pub sent : List WireEvent
  pub ended : Bool

module _ {W : Type 0} where
  unfoldable pub refuse : ℕ → Text → Exec (Exchange W) (Unit {0})
  refuse status error x =
      (Result.ok tt, record x { head = some status; error = some error; ended = true })

  unfoldable pub open_sse : Exec (Exchange W) (Unit {0})
  open_sse x = (Result.ok tt, record x { head = some 200 })

  unfoldable pub end_response : Exec (Exchange W) (Unit {0})
  end_response x = (Result.ok tt, record x { ended = true })

  unfoldable pub beyond : {A : Type 0} → Exec W A → Exec (Exchange W) A
  beyond m x = let (r, w) = m x.world in (r, record x { world = w })

  -- A request that failed is answered, or told so in its stream, and ended.
  unfoldable pub failed : Error → Exchange W → Exchange W
  failed e x = elim x.head [
    | none ↦ record x { head = some 500; error = some e.message; ended = true }
    | some _ ↦
        if x.ended
        then x
        else record x { sent = x.sent ++ WireEvent.failed e.message ∷ []; ended = true }
  ]

  -- The variables of a request that has loaded its conversation.
  abbrev pub turn_of : Conversation → Exchange W → Turn W
  turn_of c x = record {
    world = x.world;
    conversation = c;
    sent = x.sent;
    held = none;
    seq = x.seq;
    ran = false;
    asking = none;
    asked = none;
    lost = none;
  }

  -- A stream's events are written as they come.
  unfoldable pub in_turn : {A : Type 0} → Conversation → Exec (Turn W) A → Exec (Exchange W) A
  in_turn c m x =
      let (r, t) = m (turn_of c x) in (r, record x { world = t.world; sent = t.sent; seq = t.seq })
