-- ===== src/Runtime/Beginnings.antt =====
-- A start that its tool refused: `runInit` of packages/server/src/runtime.ts, up to the tool's outcome.
use haikit.Prelude.{
  ◌≡◌, refl, ap, sym, Bool, true, Option, none, some, List, [], ◌∷◌, ◌++◌, append_assoc, append-nil,
  Text, take-append, Map, Result, Exec, Error, ◌>>=◌, ◌>>◌, pure, throw, raise, on_result, attempt,
  is_stale_lease, Bool-cases, inl, inr, bind_by, set, lit, error,
}
use haikit.Core.Json.{Json}
use haikit.Core.Types.{Conversation, ConversationStatus}
use haikit.Runtime.Types.{
  Hai, Turn, Tool, Question, Asking, WireEvent, BlockStatus, block_update, tool_block, status,
}
use haikit.Runtime.Actions.{emit, amend, gets, modify}
use haikit.Runtime.Tools.{ToolCall, Outcome}
use haikit.Runtime.Invoke.{returned, threw, decide, settle, run_parsed, run_found, invoke_tool}
use haikit.Runtime.Start.{undo_start, refused_start, emit_all, hold, release, try_init}
use haikit.Runtime.Keeps.{Claim, Holds, Keeps, Keeps-modify, Keeps-bind, Keeps-emit, keeps_rules}
use haikit.Runtime.Frame.{Admits, Keeps-run_tool}
use haikit.Runtime.Batches.{emit_by}

-- What a tool that runs at the start may have recorded.
abbrev pub Began : Conversation → Claim
Began before r a k l c =
    (shown : List Text) × (revised : Map Text) × (c
      ≡ record before { handles = before.handles ++ shown; superseded = revised })

Began-Admits : (before : Conversation) → Admits (Began before)
Began-Admits before = record {
  shown = λ r a k l c handle (hs, sup, e). (
    hs ++ handle ∷ [],
    sup,
    rw e (
        ap (λ (l : List Text). record before { handles = l; superseded = sup })
          (append_assoc before.handles hs (handle ∷ []))),
  );
  superseded = λ r a k l c handle next (hs, sup, e). (
    hs,
    set handle next c.superseded,
    ap (λ (x : Conversation). record x { superseded = set handle next c.superseded }) e,
  );
  asks = λ r a l c q first h. h;
  follows = λ r a a' k k' l c e f h. h;
  loses = λ r a k l c e s h. h;
}

-- What a start that failed leaves: of the tool's revisions, those that it recorded.
abbrev pub TookBack : Conversation → Conversation → Type 0
TookBack before c = (revised : Map Text) × (c ≡ record before { superseded = revised })

-- By how the tool ended.
abbrev pub Tried : Conversation → Conversation → Result Outcome → Type 0
Tried before c (Result.ok o) =
    (shown : List Text) × (revised : Map Text) × (c ≡ record before {
      status = ConversationStatus.streaming;
      handles = before.handles ++ shown;
      superseded = revised;
    })
Tried before c (Result.err e) = TookBack before c

undo_start-Began :
    (before c : Conversation) (a : Option Question) (k : Option Asking) (l : Option Error)
    (r : Bool)
    → Began (record before { status = ConversationStatus.streaming }) r a k l c
    → TookBack before (undo_start before c)
unfolding undo_start
undo_start-Began before c a k l r (hs, sup, e) = (
  sup,
  rw e (
      ap (λ (l : List Text). record before { handles = l; superseded = sup })
        (take-append before.handles hs)),
)

module _ {W : Type 0} (hai : Hai W) (before : Conversation) where
  abbrev P : Claim
  P = Began before

  Keeps-returned :
      (call : ToolCall) (input : Json) (r : Option Text) → Keeps P (returned hai call input r)
  unfolding returned
  Keeps-returned call input r = record { kept = λ t h. h }

  Keeps-decide :
      (call : ToolCall) (input : Json) (r : Result (Option Text))
      → Keeps P (decide hai true call input r)
  unfolding decide threw throw
  Keeps-decide call input (Result.ok r) = Keeps-returned call input r
  Keeps-decide call input (Result.err e) = record { kept = λ t h. h }

  Keeps-settle :
      (call : ToolCall) (input : Json) (r : Result (Option Text))
      → Keeps P (settle hai true call input r)
  unfolding settle
  Keeps-settle call input r = search (keeps_rules, Keeps-decide) depth 14

  Keeps-ran : Keeps {W = W} P (modify (λ t. record t { ran = true }))
  Keeps-ran = Keeps-modify (λ t. record t { ran = true }) (λ t h. h)

  Keeps-reset : Keeps {W = W} P (modify (λ t. record t { asked = none; lost = none }))
  Keeps-reset = Keeps-modify (λ t. record t { asked = none; lost = none }) (λ t h. h)

  Keeps-run_parsed :
      (id : Text) (call : ToolCall) (tool : Tool W) (r : Result Json)
      → Keeps P (run_parsed hai true id call tool r)
  unfolding run_parsed
  Keeps-run_parsed id call tool (Result.err e) = search keeps_rules
  Keeps-run_parsed id call tool (Result.ok v) =
      search (keeps_rules, Keeps-ran, Keeps-run_tool hai P (Began-Admits before), Keeps-settle)
        depth 14

  Keeps-run_found :
      (id : Text) (call : ToolCall) (tool : Tool W) → Keeps P (run_found hai true id call tool)
  unfolding run_found
  Keeps-run_found id call tool = search (keeps_rules, Keeps-run_parsed)

  Keeps-invoke_init : (id : Text) (call : ToolCall) → Keeps P (invoke_tool hai true id call)
  unfolding invoke_tool
  Keeps-invoke_init id call = search (keeps_rules, Keeps-reset, Keeps-run_found) depth 14

  Keeps-hold : Keeps {W = W} P hold
  unfolding hold
  Keeps-hold = Keeps-modify (λ t. record t { held = some [] }) (λ t h. h)

  Keeps-emit_all : (es : List WireEvent) → Keeps {W = W} P (emit_all es)
  unfolding emit_all
  Keeps-emit_all [] = search keeps_rules
  Keeps-emit_all (e ∷ es) = Keeps-bind _ _ (Keeps-emit e) (λ _. Keeps-emit_all es)

emit_all_ok : {W : Type 0} (es : List WireEvent) (t : Turn W) → (emit_all es t).0 ≡ Result.ok tt
unfolding emit_all pure
emit_all_ok [] t = refl
emit_all_ok (e ∷ es) t =
    emit_by (λ ran asked asking lost c. Unit) (λ r t'. r ≡ Result.ok tt) e (λ _. emit_all es) t tt
      (λ t' _. emit_all_ok es t')

module _ {W : Type 0} (hai : Hai W) (c : Conversation) where
  abbrev Streaming : Claim
  Streaming = Began (record c { status = ConversationStatus.streaming })

  refused_start-Tried :
      (block : Text) (e : Error) (t : Turn W)
      → Holds Streaming t
      → Tried c (refused_start c block e t).1.conversation (refused_start c block e t).0
  unfolding refused_start amend ◌>>=◌
  refused_start-Tried block e t h =
      let back = undo_start-Began c t.conversation t.asked t.asking t.lost t.ran h in
      elim (Bool-cases (is_stale_lease e)) [
        | inl b ↦ rw b back
        | inr b ↦ rw b (
            emit_by (λ ran asked asking lost now. TookBack c now)
              (λ r t'. Tried c t'.conversation r)
              (block_update block BlockStatus.error (lit "initialisation failed: " ++ e.message))
              (λ _. raise error (lit "initialisation failed: " ++ e.message))
              (record t { conversation = undo_start c t.conversation }) back (λ t' k. k))
      ]

  outcome-Tried :
      (block : Text) (r : Result Outcome) (held : List WireEvent) (t : Turn W)
      → Holds Streaming t
      → let m = on_result r (refused_start c block) (λ o. emit_all held >> pure o) in
        Tried c (m t).1.conversation (m t).0
  unfolding on_result pure
  outcome-Tried block (Result.err e) held t h = refused_start-Tried block e t h
  outcome-Tried block (Result.ok o) held t h =
      bind_by (λ r t'. Tried c t'.conversation r) (emit_all held) (λ _. pure o) t
        (λ _ _.
          Keeps.kept (Keeps-emit_all hai (record c { status = ConversationStatus.streaming }) held)
            t h)
        (λ e q. cc (q, emit_all_ok held t))

  -- From `hold` on.
  abbrev run_held : ToolCall → Text → Exec (Turn W) Outcome
  run_held call block =
      hold
      >> (attempt (invoke_tool hai true block call) >>= λ outcome. release >>= λ held.
          on_result outcome (refused_start c block) (λ o. emit_all held >> pure o))

  run-Tried :
      (call : ToolCall) (block : Text) (t : Turn W)
      → Holds Streaming t
      → Tried c (run_held call block t).1.conversation (run_held call block t).0
  unfolding hold modify attempt release ◌>>=◌
  run-Tried call block t h =
      let t1 : Turn W = record t { held = some [] } in
      outcome-Tried block (invoke_tool hai true block call t1).0 _ _ (
        Keeps.kept
          (Keeps-invoke_init hai (record c { status = ConversationStatus.streaming }) block call) t1
          h)

pub try_init-Tried :
    {W : Type 0} (hai : Hai W) (call : ToolCall) (block : Text) (t : Turn W)
    → Tried t.conversation (try_init hai call block t).1.conversation (try_init hai call block t).0
unfolding try_init gets amend ◌>>=◌
try_init-Tried {W} hai call block t =
    let c = t.conversation in
    let streaming : Conversation = record c { status = ConversationStatus.streaming } in
    let Q : Result Outcome → Turn W → Type 0 = λ r t'. Tried c t'.conversation r in
    let began : Began streaming t.ran t.asked t.asking t.lost streaming = (
      [],
      c.superseded,
      ap (λ (l : List Text). record streaming { handles = l }) (sym (append-nil c.handles)),
    ) in
    let tell = emit (tool_block block call.name call.input) >> run_held hai c call block in
    emit_by (Streaming hai c) Q (status ConversationStatus.streaming none) (λ _. tell)
      (record t { conversation = streaming }) began
      λ t1 h1.
        emit_by (Streaming hai c) Q (tool_block block call.name call.input)
          (λ _. run_held hai c call block) t1 h1 λ t2 h2. run-Tried hai c call block t2 h2
