-- ===== src/Routes/Respond.antt =====
-- A POST request, from the gate to the end of its answer: `respond`, `refuse` and `failed` of
-- packages/server/src/routes.ts.
use haikit.Prelude.{
  ℕ, Bool, true, false, not, Option, none, some, [], ◌∷◌, if◌then◌else◌, Text, lit, ◌=t=◌, Result,
  Exec, ◌>>=◌, ◌>>◌, pure, throw, on_option, on_result, attempt, is_stale_lease,
  is_conversation_busy,
}
use haikit.Runtime.Types.{Hai, Turn, WireEvent, max_safe_integer}
use haikit.Runtime.Actions.{outside, gets, amend, emit}
use haikit.Runtime.Start.{send, start}
use haikit.Runtime.Click.{interact}
use haikit.Routes.Types.{
  Route, Admission, admitted, refused, Gate, PostBody, PostRead, too_large, malformed, read,
  Request, Options, Exchange, refuse, open_sse, end_response, beyond, failed, in_turn,
}

abbrev pub is_same : Text → Option Text → Bool
is_same id none = false
is_same id (some requested) = id =t= requested

abbrev pub named : Option Text → Option Text
named none = none
named (some []) = none
named (some (x ∷ xs)) = some (x ∷ xs)

abbrev pub is_lost : Result (Unit {0}) → Bool
is_lost (Result.ok _) = false
is_lost (Result.err e) = is_stale_lease e

module _ {W : Type 0} (hai : Hai W) (options : Options W) where
  -- A conversation made for this request is its user's before its id goes out.
  unfoldable pub own_created : Text → Option Text → Exec (Turn W) (Unit {0})
  own_created principal requested = do
    id ← gets (λ t. t.conversation.id)
    on_option options.gate (pure tt)
        λ g. if is_same id requested then pure tt else outside (g.created principal id)

  unfoldable pub say_hello : Exec (Turn W) (Unit {0})
  say_hello = do
    id ← gets (λ t. t.conversation.id)
    emit (WireEvent.hello id options.model_id options.streams_events)

  unfoldable pub run_route : Route → PostBody → Exec (Turn W) (Unit {0})
  unfolding say_hello send start interact
  run_route Route.chat_route body = do say_hello; send hai body.message
  run_route Route.start_route body = do say_hello; start hai
  run_route Route.interact_route body = interact hai body.handle body.action body.value

  -- The work of the request, in its `try`.
  unfoldable pub work : Route → PostBody → Text → Option Text → Exec (Turn W) (Unit {0})
  unfolding own_created run_route
  work route body principal requested = do own_created principal requested; run_route route body

  -- A save that another turn has overtaken is told; any other failure goes on to the handler.
  unfoldable pub tell_unsaved : Result (Unit {0}) → Exec (Turn W) (Unit {0})
  tell_unsaved saved =
      on_result saved (λ e. if is_stale_lease e then emit (WireEvent.failed e.message) else throw e)
        pure

  -- Its `finally`: the lease is let go and the conversation saved, unless it was lost.
  unfoldable pub let_go : Bool → Exec (Turn W) (Unit {0})
  unfolding tell_unsaved
  let_go lost = do
    amend (λ c. record c { lease_until = none })
    if lost then pure tt else do
      c ← gets (λ t. t.conversation)
      saved ← attempt (outside (hai.store.save_conversation c))
      tell_unsaved saved

  -- Its `catch`, then its `finally`.
  unfoldable pub close : Result (Unit {0}) → Exec (Turn W) (Unit {0})
  unfolding let_go
  close outcome = do
    on_result outcome (λ e. emit (WireEvent.failed e.message)) pure
    let_go (is_lost outcome)

  unfoldable pub work_and_close : Route → PostBody → Text → Option Text → Exec (Turn W) (Unit {0})
  unfolding work close
  work_and_close route body principal requested = do
    outcome ← attempt (work route body principal requested)
    close outcome

  -- From the load of the conversation on.
  unfoldable pub respond_loaded :
      Route → PostBody → Text → Option Text → Exec (Exchange W) (Unit {0})
  unfolding refuse open_sse end_response beyond in_turn work_and_close
  respond_loaded route body principal requested = do
    loaded ← attempt (beyond (hai.store.load_conversation requested))
    on_result loaded (λ e. if is_conversation_busy e then refuse 409 e.message else throw e)
        λ c. do open_sse; in_turn c (work_and_close route body principal requested); end_response

  -- Whether the conversation that a click names is there.
  unfoldable pub exists : Option Text → Exec (Exchange W) Bool
  exists none = pure false
  exists (some id) = do
    found ← beyond (hai.store.get_notices id max_safe_integer (some 1))
    pure (elim found [ none ↦ false | some _ ↦ true ])

  abbrev pub is_interact : Route → Bool
  is_interact Route.interact_route = true
  is_interact _ = false

  abbrev pub is_empty_start : Route → Bool
  is_empty_start Route.start_route = elim hai.init [ none ↦ true | some _ ↦ false ]
  is_empty_start _ = false

  -- A start with nothing to run creates no conversation.
  unfoldable pub respond_there :
      Bool → Route → PostBody → Text → Option Text → Exec (Exchange W) (Unit {0})
  unfolding respond_loaded
  respond_there there route body principal requested =
      if not there
      then refuse 404 (lit "unknown conversation")
      else if is_empty_start route
      then (do open_sse; end_response)
      else respond_loaded route body principal requested

  -- A request that its gate lets in.
  unfoldable pub respond_allowed :
      Route → PostBody → Text → Option Text → Exec (Exchange W) (Unit {0})
  unfolding exists respond_there
  respond_allowed route body principal requested = do
    there ← if is_interact route then exists requested else pure true
    respond_there there route body principal requested

  -- Whether the principal may use the conversation that the request names, if it names one.
  unfoldable pub allows_requested : Gate W → Text → Option Text → Exec (Exchange W) Bool
  allows_requested g principal none = pure true
  allows_requested g principal (some id) = beyond (g.allows principal id)

  unfoldable pub respond_gated :
      Option (Gate W) → Route → Text → PostBody → Exec (Exchange W) (Unit {0})
  unfolding allows_requested respond_allowed
  respond_gated none route principal body =
      respond_allowed route body principal body.conversation_id
  respond_gated (some g) route principal body = do
    let requested = named body.conversation_id
    allowed ← allows_requested g principal requested
    if allowed
        then respond_allowed route body principal requested
        else refuse 404 (lit "unknown conversation")

  unfoldable pub respond_read : Route → Text → PostBody → Exec (Exchange W) (Unit {0})
  unfolding respond_gated
  respond_read route principal body = respond_gated options.gate route principal body

  unfoldable pub respond_body : Route → Text → PostRead → Exec (Exchange W) (Unit {0})
  unfolding respond_read
  respond_body route principal too_large = refuse 413 (lit "the request body is too large")
  respond_body route principal malformed = refuse 400 (lit "the request body must be a JSON object")
  respond_body route principal (read b) = respond_read route principal b

  unfoldable pub respond_admitted : Request W → Text → Exec (Exchange W) (Unit {0})
  unfolding respond_body
  respond_admitted request principal = do
    body ← beyond (λ w. let (b, w') = request.read_body w in (Result.ok b, w'))
    respond_body request.route principal body

  unfoldable pub respond_admission : Request W → Admission → Exec (Exchange W) (Unit {0})
  unfolding respond_admitted
  respond_admission request (refused status error) = refuse status error
  respond_admission request (admitted principal) = respond_admitted request principal

  -- Who is asking comes first, before the body is read.
  unfoldable pub respond : Request W → Exec (Exchange W) (Unit {0})
  unfolding respond_admission
  respond request = on_option options.gate (respond_admitted request []) λ g. do
    admission ← beyond (g.admit (record { route = request.route; headers = request.headers }))
    respond_admission request admission

  -- The whole exchange; a request that fails is answered too.
  unfoldable pub handle : Request W → W → ℕ → Exchange W
  unfolding respond failed
  handle request w seq =
      let fresh : Exchange W = record {
        world = w;
        seq = seq;
        head = none;
        error = none;
        sent = [];
        ended = false;
      } in
      let (r, x) = respond request fresh in elim r [ Result.ok _ ↦ x | Result.err e ↦ failed e x ]
