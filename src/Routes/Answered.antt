-- ===== src/Routes/Answered.antt =====
-- That every request is answered: `respond` and `failed` of packages/server/src/routes.ts.
use haikit.Prelude.{
  ℕ, ◌≡◌, refl, Bool, true, false, Bool-cases, Option-cases, inl, inr, Option, none, some, [],
  if◌then◌else◌, Text, lit, Result, Exec, Error, ◌>>=◌, ◌>>◌, pure, throw, on_option, on_result,
  attempt, bind_by, is_conversation_busy,
}
use haikit.Core.Types.{Conversation}
use haikit.Runtime.Types.{Hai, Turn}
use haikit.Routes.Types.{
  Route, Gate, Admission, PostBody, PostRead, Request, Options, Exchange, admitted, refused, refuse,
  open_sse, end_response, beyond, failed, in_turn,
}
use haikit.Routes.Respond.{
  work_and_close, respond_loaded, exists, is_interact, is_empty_start, named, respond_there,
  respond_allowed, allows_requested, respond_gated, respond_read, respond_body, respond_admitted,
  respond_admission, respond, handle,
}

abbrev pub IsAnswered : {W : Type 0} → Exchange W → Type 0
IsAnswered x = (x.ended ≡ true) × (status : ℕ) × (x.head ≡ some status)

-- A request that did not throw has its answer.
unfoldable Answered : {W : Type 0} → Result (Unit {0}) → Exchange W → Type 0
Answered (Result.ok _) x = IsAnswered x
Answered (Result.err e) x = Unit

failed-IsAnswered : {W : Type 0} (e : Error) (x : Exchange W) → IsAnswered (failed e x)
unfolding failed
failed-IsAnswered e x = elim (Option-cases x.head) [
  | inl p ↦ rw p (refl, 500, refl)
  | inr (status, p) ↦ elim (Bool-cases x.ended) [
    | inl q ↦ rw (p, q) (refl, status, refl)
    | inr q ↦ rw (p, q) (refl, status, refl)
  ]
]

module _ {W : Type 0} where
  refuse-Answered :
      (status : ℕ) (error : Text) (x : Exchange W)
      → Answered (refuse status error x).0 (refuse status error x).1
  unfolding refuse Answered
  refuse-Answered status error x = (refl, status, refl)

  -- Only what comes last has to answer.
  then-Answered :
      {A : Type 0} (m : Exec (Exchange W) A) (f : A → Exec (Exchange W) (Unit {0})) (x : Exchange W)
      → ((a : A) (x' : Exchange W) → Answered (f a x').0 (f a x').1)
      → Answered ((m >>= f) x).0 ((m >>= f) x).1
  unfolding Answered
  then-Answered m f x k = bind_by Answered m f x (λ a _. k a (m x).1) (λ _ _. tt)

  stream-Answered :
      (c : Conversation) (m : Exec (Turn W) (Unit {0})) (x : Exchange W)
      → let n = open_sse >> (in_turn c m >> end_response) in Answered (n x).0 (n x).1
  unfolding open_sse in_turn end_response ◌>>=◌ Answered
  stream-Answered c m x =
      bind_by Answered (in_turn c m) (λ _. end_response) (record x { head = some 200 })
        (λ _ _. (refl, 200, refl)) (λ _ _. tt)

module _ {W : Type 0} (hai : Hai W) (options : Options W) where
  loaded-Answered :
      (route : Route) (body : PostBody) (principal : Text) (requested : Option Text)
      (loaded : Result Conversation) (x : Exchange W)
      → let m =
          on_result loaded
            (λ e. if is_conversation_busy e then refuse 409 e.message else throw e)
            λ c.
              open_sse
              >> (in_turn c (work_and_close hai options route body principal requested)
                  >> end_response) in
        Answered (m x).0 (m x).1
  unfolding on_result throw Answered
  loaded-Answered route body principal requested (Result.ok c) x = stream-Answered c _ x
  loaded-Answered route body principal requested (Result.err e) x =
      elim (Bool-cases (is_conversation_busy e)) [
        | inl p ↦ rw p (refuse-Answered 409 e.message x)
        | inr p ↦ rw p tt
      ]

  there-Answered :
      (there : Bool) (route : Route) (body : PostBody) (principal : Text) (requested : Option Text)
      (x : Exchange W)
      → Answered
          (respond_there hai options there route body principal requested x).0
          (respond_there hai options there route body principal requested x).1
  unfolding respond_there respond_loaded open_sse end_response ◌>>=◌ Answered
  there-Answered false route body principal requested x =
      refuse-Answered 404 (lit "unknown conversation") x
  there-Answered true route body principal requested x =
      elim (Bool-cases (is_empty_start hai options route)) [
        | inl p ↦ rw p (refl, 200, refl)
        | inr p ↦ rw p (
            then-Answered (attempt (beyond (hai.store.load_conversation requested))) _ x
              (λ loaded x'. loaded-Answered route body principal requested loaded x'))
      ]

  allowed-Answered :
      (route : Route) (body : PostBody) (principal : Text) (requested : Option Text)
      (x : Exchange W)
      → Answered
          (respond_allowed hai options route body principal requested x).0
          (respond_allowed hai options route body principal requested x).1
  unfolding respond_allowed
  allowed-Answered route body principal requested x =
      then-Answered
        (if is_interact hai options route then exists hai options requested else pure true) _ x
        (λ there x'. there-Answered there route body principal requested x')

  let_in-Answered :
      (allowed : Bool) (route : Route) (body : PostBody) (principal : Text)
      (requested : Option Text) (x : Exchange W)
      → let m =
          if allowed
          then respond_allowed hai options route body principal requested
          else refuse 404 (lit "unknown conversation") in
        Answered (m x).0 (m x).1
  let_in-Answered true route body principal requested x =
      allowed-Answered route body principal requested x
  let_in-Answered false route body principal requested x =
      refuse-Answered 404 (lit "unknown conversation") x

  read-Answered :
      (gate : Option (Gate W)) (route : Route) (principal : Text) (body : PostBody) (x : Exchange W)
      → Answered
          (respond_gated hai options gate route principal body x).0
          (respond_gated hai options gate route principal body x).1
  unfolding respond_gated
  read-Answered none route principal body x =
      allowed-Answered route body principal body.conversation_id x
  read-Answered (some g) route principal body x =
      then-Answered (allows_requested hai options g principal (named body.conversation_id)) _ x
        (λ allowed x'. let_in-Answered allowed route body principal _ x')

  body-Answered :
      (route : Route) (principal : Text) (b : PostRead) (x : Exchange W)
      → Answered
          (respond_body hai options route principal b x).0
          (respond_body hai options route principal b x).1
  unfolding respond_body respond_read
  body-Answered route principal PostRead.too_large x = refuse-Answered 413 _ x
  body-Answered route principal PostRead.malformed x = refuse-Answered 400 _ x
  body-Answered route principal (PostRead.read b) x = read-Answered options.gate route principal b x

  admitted-Answered :
      (request : Request W) (principal : Text) (x : Exchange W)
      → Answered
          (respond_admitted hai options request principal x).0
          (respond_admitted hai options request principal x).1
  unfolding respond_admitted
  admitted-Answered request principal x =
      then-Answered (beyond _) _ x (λ b x'. body-Answered request.route principal b x')

  admission-Answered :
      (request : Request W) (a : Admission) (x : Exchange W)
      → Answered
          (respond_admission hai options request a x).0
          (respond_admission hai options request a x).1
  unfolding respond_admission
  admission-Answered request (refused status error) x = refuse-Answered status error x
  admission-Answered request (admitted principal) x = admitted-Answered request principal x

  asked-Answered :
      (gate : Option (Gate W)) (request : Request W) (x : Exchange W)
      → let m = on_option gate (respond_admitted hai options request []) λ g.
        beyond (g.admit (record { route = request.route; headers = request.headers }))
        >>= respond_admission hai options request in
        Answered (m x).0 (m x).1
  unfolding on_option
  asked-Answered none request x = admitted-Answered request [] x
  asked-Answered (some g) request x =
      then-Answered (beyond _) _ x (λ a x'. admission-Answered request a x')

  finished :
      (r : Result (Unit {0})) (x : Exchange W)
      → Answered r x
      → IsAnswered (elim r [ Result.ok _ ↦ x | Result.err e ↦ failed e x ])
  unfolding Answered
  finished (Result.ok _) x a = a
  finished (Result.err e) x a = failed-IsAnswered e x

-- Whatever the gate, the store, the model and the tools do, a request is answered: a head goes out,
-- and the response ends.
pub handle-IsAnswered :
    {W : Type 0} (hai : Hai W) (options : Options W) (request : Request W) (w : W) (seq : ℕ)
    → IsAnswered (handle hai options request w seq)
unfolding handle respond
handle-IsAnswered hai options request w seq =
    finished hai options _ _ (asked-Answered hai options options.gate request _)
