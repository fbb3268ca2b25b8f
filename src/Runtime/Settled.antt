-- ===== src/Runtime/Settled.antt =====
-- What a tool call comes to: `invokeTool` of packages/server/src/runtime.ts, as the agent loop calls it.
use haikit.Prelude.{
  ◌≡◌, refl, subst, Bool, true, false, Option, none, some, List, Text, Result, Exec, Error, pure,
  throw, on_option, attempt, ◌>>=◌, ◌>>◌, ◌&&◌, is_stale_lease, Bool-cases, Option-cases, inl, inr,
  get,
}
use haikit.Core.Json.{Json}
use haikit.Core.Types.{Conversation, Message, Pending}
use haikit.Runtime.Types.{Hai, Turn, Question, Tool, ToolRun, Asking}
use haikit.Runtime.Actions.{gets, modify, amend, emit}
use haikit.Runtime.Tools.{ToolCall, Outcome, run_tool}
use haikit.Runtime.Invoke.{
  with_rest, withdraw, returned, threw, decide, settle, is_init_tool, run_parsed, run_found,
  invoke_tool,
}
use haikit.Runtime.Keeps.{Holds, Keeps}
use haikit.Runtime.Frame.{is_some, Asks, IsLost, Running, Running-Admits, Keeps-run_tool}

-- What a call leaves; `before` is whether the reply asked before it.
abbrev pub Settled :
    List Message → Option Pending → Bool → Option Asking → Conversation → Result Outcome → Type 0
Settled messages pending before asking c (Result.err e) =
    (is_stale_lease e ≡ true) × (c.messages ≡ messages) × (c.pending ≡ pending)
Settled messages pending before asking c (Result.ok o) =
    Asks before (is_some o.asked) (is_some asking) × (c.messages ≡ messages) × (c.pending ≡ pending)

rest_asks : (m : Text) (q : Option Question) → is_some (with_rest m q) ≡ is_some q
unfolding with_rest
rest_asks m none = refl
rest_asks m (some q) = refl

-- A question that is withdrawn was the reply's first.
withdrawn-Asks : (before asking : Bool) → Asks before true asking → Asks before false false
withdrawn-Asks true asking h = elim h [ ]
withdrawn-Asks false asking h = tt

module _ {W : Type 0} (hai : Hai W) (messages : List Message) (pending : Option Pending)
    (before : Bool) where
  abbrev told : Text → Exec (Turn W) Outcome
  told m = pure (record { model = m; asked = none })

  abbrev Ends : Result Outcome → Turn W → Type 0
  Ends r t = Settled messages pending before t.asking t.conversation r

  withdraw-Settled :
      (m : Text) (q : Option Question) (t : Turn W)
      → t.asked ≡ q
      → Holds (Running messages pending before) t
      → Ends ((withdraw hai q >> told m) t).0 ((withdraw hai q >> told m) t).1
  unfolding withdraw ◌>>=◌ amend modify emit
  withdraw-Settled m none t e h =
      (subst (λ q. Asks before (is_some q) (is_some t.asking)) e h.2, h.0, h.1)
  withdraw-Settled m (some q) t e h =
      let asks =
        withdrawn-Asks before (is_some t.asking)
          (subst (λ q. Asks before (is_some q) (is_some t.asking)) e h.2) in
      elim (Option-cases t.held) [
        | inl p ↦ rw p (asks, h.0, h.1)
        | inr (l, p) ↦ rw p (asks, h.0, h.1)
      ]

  threw-Settled :
      (call : ToolCall) (e : Error) (t : Turn W)
      → Holds (Running messages pending before) t
      → Ends (threw hai false call e t).0 (threw hai false call e t).1
  unfolding threw gets ◌>>=◌
  threw-Settled call e t h = elim (Bool-cases (is_stale_lease e)) [
    | inl b ↦ rw b (b, h.0, h.1)
    | inr b ↦ rw b (withdraw-Settled _ t.asked t refl h)
  ]

  decide-Settled :
      (call : ToolCall) (input : Json) (r : Result (Option Text)) (t : Turn W)
      → Holds (Running messages pending before) t
      → Ends (decide hai false call input r t).0 (decide hai false call input r t).1
  unfolding decide returned
  decide-Settled call input (Result.ok r) t h = (rw (rest_asks _ t.asked) h.2, h.0, h.1)
  decide-Settled call input (Result.err e) t h = threw-Settled call e t h

  lost-Settled :
      (o : Option Error) (m : Exec (Turn W) Outcome) (t : Turn W)
      → t.lost ≡ o
      → Holds (Running messages pending before) t
      → Ends (m t).0 (m t).1
      → Ends (on_option o m throw t).0 (on_option o m throw t).1
  unfolding on_option throw
  lost-Settled none m t e h k = k
  lost-Settled (some x) m t e h k = (subst IsLost e h.3, h.0, h.1)

  settle-Settled :
      (call : ToolCall) (input : Json) (r : Result (Option Text)) (t : Turn W)
      → Holds (Running messages pending before) t
      → Ends (settle hai false call input r t).0 (settle hai false call input r t).1
  unfolding settle gets ◌>>=◌
  settle-Settled call input r t h = lost-Settled t.lost _ t refl h (decide-Settled call input r t h)

  ran-Settled :
      (id : Text) (call : ToolCall) (input : Json) (run : ToolRun W) (t : Turn W)
      → Holds (Running messages pending before) t
      → Ends
          ((attempt (run_tool hai id run) >>= settle hai false call input) t).0
          ((attempt (run_tool hai id run) >>= settle hai false call input) t).1
  unfolding attempt ◌>>=◌
  ran-Settled id call input run t h =
      settle-Settled call input (run_tool hai id run t).0 (run_tool hai id run t).1 (
        Keeps.kept
          (Keeps-run_tool hai (Running messages pending before)
            (Running-Admits messages pending before) id run)
          t h)

  parsed-Settled :
      (id : Text) (call : ToolCall) (tool : Tool W) (r : Result Json) (t : Turn W)
      → Asks before false (is_some t.asking)
      → Holds (Running messages pending before) t
      → Ends (run_parsed hai false id call tool r t).0 (run_parsed hai false id call tool r t).1
  unfolding run_parsed modify ◌>>=◌
  parsed-Settled id call tool (Result.ok input) t a h =
      ran-Settled id call input (tool.run input) (record t { ran = true }) h
  parsed-Settled id call tool (Result.err e) t a h = (a, h.0, h.1)

  found-Settled :
      (id : Text) (call : ToolCall) (o : Option (Tool W)) (model : Text) (t : Turn W)
      → Asks before false (is_some t.asking)
      → Holds (Running messages pending before) t
      → Ends
          (on_option o (told model) (run_found hai false id call) t).0
          (on_option o (told model) (run_found hai false id call) t).1
  unfolding on_option run_found pure
  found-Settled id call none model t a h = (a, h.0, h.1)
  found-Settled id call (some tool) model t a h =
      elim (Bool-cases (is_init_tool hai call.name && true)) [
        | inl b ↦ rw b (a, h.0, h.1)
        | inr b ↦ rw b (parsed-Settled id call tool (tool.parse call.input) t a h)
      ]

nothing_asked : (asking : Bool) → Asks asking false asking
nothing_asked true = tt
nothing_asked false = tt

-- A call of the agent loop, whatever its tool does, leaves the messages and the question that the turn
-- waits on as they were. It gives an outcome, which asks only if nothing in the reply asked before,
-- and then a question of the reply is open; or else the lease was lost.
pub invoke_tool-Settled :
    {W : Type 0} (hai : Hai W) (id : Text) (call : ToolCall) (t : Turn W)
    → Settled t.conversation.messages t.conversation.pending
        (is_some t.asking)
        (invoke_tool hai false id call t).1.asking
        (invoke_tool hai false id call t).1.conversation
        (invoke_tool hai false id call t).0
unfolding invoke_tool modify ◌>>=◌
invoke_tool-Settled hai id call t =
    let asks = nothing_asked (is_some t.asking) in
    found-Settled hai t.conversation.messages t.conversation.pending (is_some t.asking) id call
      (get call.name hai.tools) _ (record t { asked = none; lost = none }) asks
      (refl, refl, asks, tt)
