-- ===== src/Runtime/Notify.antt =====
-- Notices and signals sent from outside any turn: `notify` and `signal` of
-- packages/server/src/runtime.ts.
use haikit.Prelude.{
  ℕ, Bool, not, Option, none, some, ◌++◌, if◌then◌else◌, Text, lit, Result, ok, Exec, error,
  type_error, fail, raise, rethrow, ◌>>=◌, ◌>>◌, pure, on_option,
}
use haikit.Core.Json.{Json}
use haikit.Core.Types.{NoticeBody}
use haikit.Runtime.Types.{Hai}
use haikit.Signals.Broadcast.{Broadcast, Config, send}

-- What a notice's `model` returned: a string, null, or something else.
pub data NoticeModel : Type 0 where
  told : Text → NoticeModel
  untold other : NoticeModel

-- A notice's contract, and its server half; `registered` where the server has this very one.
pub record Notice : Type 0 where
  pub name : Text
  pub version : ℕ
  pub wake : Bool
  pub parse : Json → Result Json
  pub model : Json → Result NoticeModel
  pub registered : Bool

-- The model's text that is stored: a wake notice has one.
unfoldable pub checked_model : Notice → NoticeModel → Result (Option Text)
checked_model n (told t) = ok (some t)
checked_model n untold =
    if n.wake
    then fail type_error
        (lit "notice \"" ++ n.name ++ lit "\": model() must return a string, for a wake notice")
    else ok none
checked_model n other = fail type_error (
    lit "notice \""
    ++ n.name
    ++ lit "\": model() must return "
    ++ (if n.wake then lit "a string, for a wake notice" else lit "a string or null"))

abbrev pub body_of : Text → Notice → Json → Option Text → Option Text → NoticeBody
body_of id n payload model handle = record {
  conversation_id = id;
  name = n.name;
  version = n.version;
  wake = n.wake;
  payload = payload;
  model = model;
  handle = handle;
  replaces = none;
}

module _ {W : Type 0} (hai : Hai W) where
  -- A surface that the notice is shown with is one of the conversation.
  unfoldable pub check_surface : Text → Text → Option Text → Exec W (Unit {0})
  check_surface id name none = pure tt
  check_surface id name (some handle) = do
    found ← hai.store.get_payload handle id
    on_option found
        (raise error (
          lit "notice \""
          ++ name
          ++ lit "\": no surface "
          ++ handle
          ++ lit " in conversation "
          ++ id))
        λ _. pure tt

  unfoldable pub put_checked : Text → Notice → Json → Option Text → Option Text → Exec W ℕ
  unfolding check_surface
  put_checked id n payload model handle = do
    check_surface id n.name handle
    record_put ← hai.store.put_notice (body_of id n payload model handle)
    pure record_put.seq

  unfoldable pub notify : Text → Notice → Json → Option Text → Exec W ℕ
  unfolding checked_model put_checked
  notify id n payload handle =
      if not n.registered
      then raise error (
          lit "notice \""
          ++ n.name
          ++ lit "\" is not registered: list it in createHai({ notices })")
      else (do
        parsed ← rethrow (n.parse payload)
        returned ← rethrow (n.model parsed)
        model ← rethrow (checked_model n returned)
        put_checked id n parsed model handle)

-- A signal's contract; `registered` where the server has this very one.
pub record SignalSpec : Type 0 where
  pub name : Text
  pub version : ℕ
  pub parse : Json → Result Json
  pub registered : Bool

unfoldable pub signal : Config → SignalSpec → Json → Exec Broadcast (Unit {0})
unfolding send
signal config spec payload =
    if not spec.registered
    then raise error (
        lit "signal \""
        ++ spec.name
        ++ lit "\" is not registered: list it in createHai({ signals })")
    else (do
      parsed ← rethrow (spec.parse payload)
      λ s. (
        ok tt,
        send config (record { name = spec.name; version = spec.version; payload = parsed }) s,
      ))
