-- ===== src/Routes/Strangers.antt =====
-- What a user learns of conversations that are not theirs: the gate in `respond` of
-- packages/server/src/routes.ts.
use haikit.Prelude.{
  ℕ, ◌≡◌, refl, ap, false, some, Text, Result, Exec, [], sym, subst, continue, ◌>>=◌, on_option,
}
use haikit.Runtime.Types.{Hai}
use haikit.Routes.Types.{
  Gate, Admission, admitted, refused, PostRead, too_large, malformed, read, Route, Request, Options,
  Exchange, beyond, failed,
}
use haikit.Routes.Respond.{
  named, allows_requested, respond_gated, respond_read, respond_body, respond_admitted,
  respond_admission, respond, handle,
}

-- A body that names a conversation that the gate lets nobody use; or that cannot be read.
unfoldable pub IsForbidden : {W : Type 0} → Gate W → PostRead → Type 0
IsForbidden g too_large = Unit
IsForbidden g malformed = Unit
IsForbidden {W} g (read b) =
    (id : Text) × (named b.conversation_id ≡ some id)
    × ((principal : Text) (w : W) → (g.allows principal id w).0 ≡ Result.ok false)

module _ {W : Type 0} (hai hai' : Hai W) (options : Options W) (g : Gate W)
    (gated : options.gate ≡ some g) where
  body-same :
      (route : Route) (principal : Text) (b : PostRead) (x : Exchange W)
      → IsForbidden g b
      → respond_body hai options route principal b x ≡ respond_body hai' options route principal b x
  unfolding respond_body respond_read respond_gated IsForbidden allows_requested beyond ◌>>=◌
  body-same route principal too_large x h = refl
  body-same route principal malformed x h = refl
  body-same route principal (read b) x (id, e, forbids) =
      subst
        (λ o.
          respond_gated hai options o route principal b x
          ≡ respond_gated hai' options o route principal b x)
        (sym gated) (rw (e, forbids principal x.world) refl)

  admission-same :
      (request : Request W) (a : Admission) (x : Exchange W)
      → ((w : W) → IsForbidden g (request.read_body w).0)
      → respond_admission hai options request a x ≡ respond_admission hai' options request a x
  unfolding respond_admission respond_admitted beyond ◌>>=◌
  admission-same request (refused status error) x h = refl
  admission-same request (admitted principal) x h =
      body-same request.route principal _ _ (h x.world)

  asked-same :
      (request : Request W) (r : Result Admission) (x : Exchange W)
      → ((w : W) → IsForbidden g (request.read_body w).0)
      → continue r (respond_admission hai options request) x
        ≡ continue r (respond_admission hai' options request) x
  asked-same request (Result.ok a) x h = admission-same request a x h
  asked-same request (Result.err e) x h = refl

  abbrev admit : Hai W → Request W → Gate W → Exec (Exchange W) (Unit {0})
  admit app request asked =
      beyond (asked.admit (record { route = request.route; headers = request.headers }))
      >>= respond_admission app options request

  respond-same :
      (request : Request W) (x : Exchange W)
      → ((w : W) → IsForbidden g (request.read_body w).0)
      → respond hai options request x ≡ respond hai' options request x
  unfolding respond beyond ◌>>=◌ on_option
  respond-same request x h =
      subst
        (λ o.
          on_option o (respond_admitted hai options request []) (admit hai request) x
          ≡ on_option o (respond_admitted hai' options request []) (admit hai' request) x)
        (sym gated) (asked-same request _ _ h)

-- Where the gate lets nobody use the conversation that a request names, the whole exchange is the same
-- over any two apps with that gate, whatever conversations their stores hold: the answer does not tell
-- whether the conversation exists, and no store is changed by it.
pub handle-Forbidden :
    {W : Type 0} (hai hai' : Hai W) (options : Options W) (g : Gate W) (request : Request W) (w : W)
    (seq : ℕ)
    → options.gate ≡ some g
    → ((w' : W) → IsForbidden g (request.read_body w').0)
    → handle hai options request w seq ≡ handle hai' options request w seq
unfolding handle
handle-Forbidden hai hai' options g request w seq gated h =
    ap
      (λ (p : Result (Unit {0}) × Exchange _). elim p.0 [
        | Result.ok _ ↦ p.1
        | Result.err e ↦ failed e p.1
      ])
      (respond-same hai hai' options g gated request _ h)
