-- ===== src/Routes/Tests.antt =====
-- The claims about the routes, at concrete requests.
use haikit.Prelude.{
  ℕ, ◌≡◌, refl, false, true, Option, none, some, [], ◌∷◌, lit, ok, List, if◌then◌else◌, ltb, length,
  ◌>>=◌, on_option,
}
use mathlib.Core.List.Perm
use haikit.Core.Json.{Json, null, obj, end}
use haikit.Store.Memory.{Memory}
use haikit.Runtime.Fixtures.{local_hai, failing_hai, clicked}
use haikit.Routes.Body.{read_json, parse_body, is_over, too_large}
use haikit.Routes.Types.{
  admitted, interact_route, Request, PostBody, PostRead, Options, Gate, beyond, refuse,
}
use haikit.Routes.Respond.{respond_body, respond_admitted, respond, handle}
use haikit.Routes.Reading.{arrive, joined, read_json-joined}
use haikit.Routes.Answered.{IsAnswered, handle-IsAnswered}
use haikit.Routes.Strangers.{IsForbidden, handle-Forbidden}

abbrev parse_none : List ℕ → Option Json
parse_none bs = some (obj end)

read_json-joined_example :
    read_json parse_none end 2 none (arrive ((1 ∷ []) ∷ (2 ∷ 3 ∷ []) ∷ []))
    ≡ some (
        if is_over 2 none
        then too_large
        else if ltb 2 (length (joined ((1 ∷ []) ∷ (2 ∷ 3 ∷ []) ∷ [])))
        then too_large
        else parse_body parse_none end (joined ((1 ∷ []) ∷ (2 ∷ 3 ∷ []) ∷ [])))
read_json-joined_example = read_json-joined parse_none end 2 none ((1 ∷ []) ∷ (2 ∷ 3 ∷ []) ∷ [])

abbrev no_one : Gate Memory
no_one = record {
  admit = λ r m. (ok (admitted (lit "u")), m);
  allows = λ p id m. (ok false, m);
  created = λ p id m. (ok tt, m);
}

abbrev open_options : Options Memory
open_options = record { gate = none; model_id = lit "m"; streams_events = true }

abbrev gated_options : Options Memory
gated_options = record { gate = some no_one; model_id = lit "m"; streams_events = true }

abbrev pick : PostBody
pick = record {
  conversation_id = some (lit "c");
  message = [];
  handle = lit "ui_02";
  action = lit "pick";
  value = null;
}

abbrev pick_request : Request Memory
pick_request = record {
  route = interact_route;
  headers = [];
  read_body = λ m. (PostRead.read pick, m);
}

handle-IsAnswered_example : IsAnswered (handle local_hai open_options pick_request clicked.world 0)
handle-IsAnswered_example = handle-IsAnswered local_hai open_options pick_request clicked.world 0

pick-IsForbidden : IsForbidden no_one (PostRead.read pick)
unfolding IsForbidden
pick-IsForbidden = (lit "c", refl, λ p w. refl)

handle-Forbidden_example :
    handle local_hai gated_options pick_request clicked.world 0
    ≡ handle failing_hai gated_options pick_request clicked.world 0
handle-Forbidden_example =
    handle-Forbidden local_hai failing_hai gated_options no_one pick_request clicked.world 0 refl
      (λ w. pick-IsForbidden)

abbrev large_request : Request Memory
large_request = record pick_request { read_body = λ m. (PostRead.too_large, m) }

-- A body that is too large.
too_large_answered : (handle local_hai open_options large_request clicked.world 0).head ≡ some 413
unfolding handle respond respond_admitted respond_body beyond refuse ◌>>=◌ on_option
too_large_answered = refl
