-- ===== src/Runtime/Tools.antt =====
-- One tool call: `invokeTool` of packages/server/src/runtime.ts, with the `show`, `render` and
-- `update` of its context. A tool's calls of its context run one after another.
use haikit.Prelude.{
  Bool, true, false, not, ◌&&◌, Option, none, some, [], ◌∷◌, ◌++◌, if◌then◌else◌, Text, lit, ◌=t=◌,
  set, Result, ok, err, fail, error, type_error, Exec, ◌>>=◌, ◌>>◌, pure, on_option, attempt,
  rethrow, throw, raise, is_stale_lease,
}
use haikit.Core.Json.{Json, str, obj, Fields, end, field}
use haikit.Core.Types.{Conversation, Mode, display, elicit, Window, never, PayloadRecord, Number}
use haikit.Runtime.Types.{
  Hai, Turn, Surface, ToolRun, finish, throws, act, render, update, ToolReturn, string, not_string,
  Question, ui_open, ui_props,
}
use haikit.Runtime.Actions.{outside, observe, gets, modify, amend, emit}
use haikit.Runtime.Handles.{includes, revised, current_handle}
use haikit.Runtime.Windows.{window_of, strictest, expires_at, is_fresh, refuse_if_expired}

-- A surface's digest, checked to be a string.
unfoldable pub digest_of : {W : Type 0} → Surface W → Json → Text → Result Text
digest_of s props handle = elim (s.digest props handle) [
  | Result.err e ↦ err e
  | Result.ok (string d) ↦ ok d
  | Result.ok (not_string got) ↦
      fail type_error
        (lit "surface " ++ s.name ++ lit ": digest must return a string (got " ++ got ++ lit ")")
]

string_field : Text → Fields → Option Text
string_field name end = none
string_field name (field k (str s) fs) = if k =t= name then some s else string_field name fs
string_field name (field k v fs) = if k =t= name then none else string_field name fs

-- `(input as { handle?: unknown } | null)?.handle`, where it is a string.
unfoldable pub handle_field : Json → Option Text
unfolding string_field
handle_field (obj fs) = string_field (lit "handle") fs
handle_field _ = none

pub record ToolCall : Type 0 where
  pub id : Text
  pub name : Text
  pub input : Json

pub record Outcome : Type 0 where
  pub model : Text
  pub asked : Option Question

abbrev pub is_none : {A : Type 0} → Option A → Bool
is_none none = true
is_none (some a) = false

module _ {W : Type 0} (hai : Hai W) where
  -- `show`: the payload to the store and the browser, the digest back for the model.
  unfoldable pub show :
      Text
      → Surface W
      → Json
      → Mode
      → Option Text
      → Exec (Turn W) (Unit {0})
      → Exec (Turn W) Question
  unfolding digest_of emit window_of
  show tool_block_id impl props mode replaces before_attach = do
    parsed ← rethrow (impl.parse props)
    c ← gets (λ t. t.conversation)
    handle ← outside (
        hai.store.put_payload
          (record {
            conversation_id = c.id;
            component = impl.name;
            version = impl.version;
            props = parsed;
            mode = mode;
            stale_after_ms = window_of impl;
          })
          c.lease_token)
    digest ← rethrow (digest_of impl parsed handle)
    before_attach
    amend (λ c'. record c' { handles = c'.handles ++ handle ∷ [] })
    emit (ui_open handle tool_block_id impl.name impl.version mode (window_of impl) replaces)
    emit (ui_props handle parsed)
    pure (record { handle = handle; digest = digest })

  abbrev shown : Question → ToolReturn
  shown q = record { model = q.digest; handle = some q.handle }

  -- A question that shows is the one that this reply asks.
  unfoldable pub ask : Question → Exec (Turn W) ToolReturn
  ask q = do
    modify (λ t. record t {
      asking = some (record { handle = q.handle; question = q.digest; digest = none });
      asked = some q;
    })
    pure (shown q)

  unfoldable pub render_surface : Text → Surface W → Json → Mode → Exec (Turn W) ToolReturn
  unfolding ask
  render_surface tool_block_id impl props display = do
    q ← show tool_block_id impl props display none (pure tt)
    pure (shown q)
  render_surface tool_block_id impl props elicit = do
    asking ← gets (λ t. t.asking)
    on_option asking (do q ← show tool_block_id impl props elicit none (pure tt); ask q)
        λ a. pure (record {
          model =
              lit "Not shown: "
              ++ a.handle
              ++ lit " is already waiting for the user. Ask this again after it is answered.";
          handle = none;
        })

  -- Throws unless the window still runs as the revision takes effect.
  unfoldable pub still_fresh : Number → Window → Exec (Turn W) (Unit {0})
  still_fresh created_at never = pure tt
  still_fresh created_at window = do
    now ← observe hai.now
    if is_fresh (expires_at created_at window) now
        then pure tt
        else raise error (
            lit
              "this conversation went out of date while the revision was made; it was not applied")

  -- A question that waits on the revised surface waits on the revision.
  unfoldable pub follow_question : Text → Question → Turn W → Turn W
  follow_question handle q t =
      let mine : Bool = elim t.asked [ none ↦ false | some a ↦ a.handle =t= handle ] in
      let waits : Bool = elim t.asking [ none ↦ false | some a ↦ a.handle =t= handle ] in
      record t {
        asked = if mine then some q else t.asked;
        asking = elim t.asking [
          | none ↦ none
          | some a ↦
              if waits
              then some (record {
                handle = q.handle;
                question = if mine then q.digest else a.question;
                digest = some q.digest;
              })
              else some a
        ];
      }

  -- The guards of `update` on the conversation; a revision in flight is not among them, since the
  -- calls of the context run one after another.
  unfoldable pub check_revisable : Conversation → Text → Result (Unit {0})
  unfolding includes revised current_handle
  check_revisable c handle =
      if not (includes c.handles handle)
      then fail error (lit "no surface " ++ handle ++ lit " in this conversation")
      else if includes c.frozen handle
      then fail error (handle ++ lit " was answered, so it can't be revised")
      else elim (revised c.superseded handle) [
        | none ↦ ok tt
        | some _ ↦
            fail error (
              handle ++ lit " was revised already: it is " ++ current_handle c handle ++ lit " now")
      ]

  unfoldable pub revise_record :
      Text → Surface W → Text → Json → PayloadRecord → Exec (Turn W) ToolReturn
  unfolding still_fresh follow_question
  revise_record tool_block_id impl handle props r = do
    stale ← refuse_if_expired hai false
    if stale
        then raise error (lit "this conversation is out of date; nothing more can be revised in it")
        else do
          q ←
              show tool_block_id impl props r.mode (some handle)
                (still_fresh r.created_at (strictest r.stale_after_ms (window_of impl)))
          amend (λ c. record c { superseded = set handle q.handle c.superseded })
          modify (follow_question handle q)
          pure (shown q)

  unfoldable pub update_surface : Text → Surface W → Text → Json → Exec (Turn W) ToolReturn
  unfolding check_revisable revise_record
  update_surface tool_block_id impl handle props = do
    c ← gets (λ t. t.conversation)
    rethrow (check_revisable c handle)
    found ← outside (hai.store.get_payload handle c.id)
    on_option found (raise error (lit "no surface " ++ handle ++ lit " in this conversation")) λ r.
        if not (r.component =t= impl.name)
        then raise error (handle ++ lit " is a " ++ r.component ++ lit ", not a " ++ impl.name)
        else revise_record tool_block_id impl handle props r

  -- A lost lease is kept, whether the tool heard of it or not.
  unfoldable pub note_lost : {A : Type 0} → Result A → Exec (Turn W) (Unit {0})
  note_lost (Result.ok a) = pure tt
  note_lost (Result.err e) =
      modify (λ t. if is_stale_lease e && is_none t.lost then record t { lost = some e } else t)

  -- A tool's `run`.
  unfoldable pub run_tool : Text → ToolRun W → Exec (Turn W) (Option Text)
  unfolding render_surface update_surface note_lost
  run_tool tool_block_id (finish r) = pure r
  run_tool tool_block_id (throws e) = throw e
  run_tool tool_block_id (act f k) =
      λ t. run_tool tool_block_id (k t.world) (record t { world = f t.world })
  run_tool tool_block_id (render impl props mode k) = do
    r ← attempt (render_surface tool_block_id impl props mode)
    note_lost r
    run_tool tool_block_id (k r)
  run_tool tool_block_id (update impl handle props k) = do
    r ← attempt (update_surface tool_block_id impl handle props)
    note_lost r
    run_tool tool_block_id (k r)
