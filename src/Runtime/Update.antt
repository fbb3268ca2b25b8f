-- ===== src/Runtime/Update.antt =====
-- One write of `hai.update`: `revise` and `reviseHeld` of packages/server/src/runtime.ts.
use haikit.Prelude.{
  ℕ, zero, suc, ◌+◌, ◌-◌, ◌*◌, min, Bool, false, not, Option, none, some, [], ◌∷◌, ◌++◌,
  if◌then◌else◌, leb, ◌||◌, Text, lit, ◌=t=◌, set, Exec, Error, error, Result, ◌>>=◌, ◌>>◌, pure,
  throw, raise, rethrow, on_option, on_result, attempt, is_stale_lease, is_conversation_busy,
}
use haikit.Core.Json.{Json, null}
use haikit.Core.Types.{Conversation, NoticeBody, NoticeRecord, PayloadRecord}
use haikit.Runtime.Types.{max_safe_integer, Hai, Turn, Surface}
use haikit.Runtime.Actions.{observe, outside, gets, modify, amend}
use haikit.Runtime.Handles.{includes, current_handle}
use haikit.Runtime.Windows.{window_of, strictest, refuse_if_expired}
use haikit.Runtime.Notices.{announce}
use haikit.Runtime.Tools.{digest_of, still_fresh}

pub record UpdateJob : Type 0 where
  pub props : Json
  pub model : Option Text
  pub wake : Bool
  pub timeout_ms : ℕ

-- The surface that was written, and the one that it replaced.
pub record Written : Type 0 where
  pub handle : Text
  pub replaced : Text

-- The revision takes effect; a question that waits on the surface waits on it.
unfoldable pub take_revision : Text → Text → Conversation → Conversation
take_revision current next c = record c {
  handles = c.handles ++ next ∷ [];
  superseded = set current next c.superseded;
  pending = elim c.pending [
    | none ↦ none
    | some p ↦ some (if p.handle =t= current then record p { handle = next } else p)
  ];
}

-- `${job.model} `, unless it is missing or empty.
abbrev lead_of : Option Text → Text
lead_of none = []
lead_of (some []) = []
lead_of (some (x ∷ xs)) = (x ∷ xs) ++ lit " "

unfoldable pub notice_of :
    {W : Type 0} → Surface W → Text → UpdateJob → Text → Text → Text → NoticeBody
notice_of impl id job current next digest = record {
  conversation_id = id;
  name = impl.name;
  version = impl.version;
  wake = job.wake;
  payload = null;
  model = some (
      lead_of job.model
      ++ current
      ++ lit " was replaced by "
      ++ next
      ++ lit "; its earlier digest is out of date. Now: "
      ++ digest);
  handle = some next;
  replaces = some current;
}

-- `UPDATE_RETRY_MS` and `UPDATE_RETRY_MAX_MS`.
abbrev pub retry_ms : ℕ
retry_ms = 100

abbrev pub retry_max_ms : ℕ
retry_max_ms = 2000

module _ {W : Type 0} (hai : Hai W) where
  -- The notice was put, or stays owed.
  unfoldable pub after_notice : Text → Text → Result NoticeRecord → Exec (Turn W) Written
  after_notice current next put =
      on_result put
        (λ e. raise error (
          next
          ++ lit
              " is saved, but its update notice could not be stored yet: it goes out with the conversation's next request ("
          ++ e.message
          ++ lit ")"))
        λ _. do
          amend (λ c. record c { announcing = none })
          pure (record { handle = next; replaced = current })

  -- The revision and the notice that it owes are saved as one, and then the notice is put.
  unfoldable pub commit_revision : NoticeBody → Text → Text → Exec (Turn W) Written
  unfolding take_revision after_notice
  commit_revision notice current next = do
    amend (take_revision current next)
    amend (λ c. record c { announcing = some notice })
    c ← gets (λ t. t.conversation)
    outside (hai.store.save_conversation c)
    put ← attempt (outside (hai.store.put_notice notice))
    after_notice current next put

  -- The write itself, of a surface in a conversation that is not out of date.
  unfoldable pub write_revision :
      Surface W → Text → UpdateJob → PayloadRecord → Exec (Turn W) Written
  unfolding commit_revision digest_of still_fresh window_of notice_of
  write_revision impl current job r = do
    c ← gets (λ t. t.conversation)
    next ← outside (
        hai.store.put_payload
          (record {
            conversation_id = c.id;
            component = impl.name;
            version = impl.version;
            props = job.props;
            mode = r.mode;
            stale_after_ms = window_of impl;
          })
          c.lease_token)
    digest ← rethrow (digest_of impl job.props next)
    still_fresh hai r.created_at (strictest r.stale_after_ms (window_of impl))
    commit_revision (notice_of impl c.id job current next digest) current next

  unfoldable pub revise_current :
      Surface W → Text → UpdateJob → PayloadRecord → Exec (Turn W) Written
  unfolding write_revision
  revise_current impl current job r = do
    stale ← refuse_if_expired hai false
    if stale
        then raise error (lit "this conversation is out of date; nothing more can be revised in it")
        else write_revision impl current job r

  -- By what the store has under the handle.
  unfoldable pub revise_found :
      Surface W → Text → UpdateJob → Option PayloadRecord → Exec (Turn W) Written
  unfolding revise_current
  revise_found impl current job found = do
    c ← gets (λ t. t.conversation)
    on_option found (raise error (lit "no surface " ++ current ++ lit " in conversation " ++ c.id))
        λ r.
          if not (r.component =t= impl.name)
          then raise error (current ++ lit " is a " ++ r.component ++ lit ", not a " ++ impl.name)
          else revise_current impl current job r

  unfoldable pub revise_held : Surface W → Text → UpdateJob → Exec (Turn W) Written
  unfolding includes current_handle revise_found
  revise_held impl handle job = do
    c ← gets (λ t. t.conversation)
    let current = current_handle c handle
    if not (includes c.handles handle)
        then raise error (lit "no surface " ++ handle ++ lit " in conversation " ++ c.id)
        else if includes c.frozen current
        then raise error (current ++ lit " was answered, so it can't be revised")
        else do
          found ← outside (hai.store.get_payload current c.id)
          revise_found impl current job found

  abbrev is_lost : Result Written → Bool
  is_lost (Result.ok w) = false
  is_lost (Result.err e) = is_stale_lease e

  -- The conversation is let go, unless it was lost; the first failure is the one that is told.
  unfoldable pub end_revision : Result Written → Exec (Turn W) Written
  end_revision written = do
    amend (λ c. record c { lease_until = none })
    if is_lost written then rethrow written else do
      c ← gets (λ t. t.conversation)
      saved ← attempt (outside (hai.store.save_conversation c))
      on_result written throw λ w. on_result saved throw λ _. pure w

  -- The request once it holds the conversation.
  unfoldable pub revise_loaded : Surface W → Text → UpdateJob → Exec (Turn W) Written
  unfolding announce revise_held end_revision
  revise_loaded impl handle job = do
    written ← attempt (do announce hai; revise_held impl handle job)
    end_revision written

  module _ (sleep : ℕ → W → W) where
    -- After a failed try: another one, once some time has passed, while the deadline has not.
    unfoldable pub try_later :
        ℕ → ℕ → Exec W (Option Conversation) → Error → Exec W (Option Conversation)
    try_later deadline wait again e w =
        let (now, w1) = hai.now w in
        if not (is_conversation_busy e) || leb deadline now
        then throw e w1
        else (let (later, w2) = hai.now (sleep (min wait (deadline - now)) w1) in
            if leb deadline later then throw e w2 else again w2)

    -- The rounds of the wait for a turn in progress; `none` where they run out.
    unfoldable pub load_when_free : ℕ → ℕ → ℕ → Text → Exec W (Option Conversation)
    unfolding try_later
    load_when_free zero deadline wait id = pure none
    load_when_free (suc n) deadline wait id =
        let again = load_when_free n deadline (min (wait * 2) retry_max_ms) id in
        attempt (hai.store.load_conversation (some id)) >>= λ loaded.
        on_result loaded (try_later deadline wait again) λ c. pure (some c)

    -- One write: the conversation is awaited, loaded, revised and let go. The source has no case for
    -- rounds that ran out.
    unfoldable pub revise : Text → Surface W → Text → UpdateJob → Exec (Turn W) Written
    unfolding load_when_free revise_loaded
    revise id impl handle job = do
      known ← outside (hai.store.get_notices id max_safe_integer (some 1))
      on_option known (raise error (lit "no conversation " ++ id)) λ _. do
        now ← observe hai.now
        loaded ← outside (load_when_free (job.timeout_ms + 1) (now + job.timeout_ms) retry_ms id)
        on_option loaded (raise error (lit "no conversation " ++ id))
            λ c. do modify (λ t. record t { conversation = c }); revise_loaded impl handle job
