-- ===== src/Runtime/History.antt =====
-- A history that the model's API takes: each message answers the tool calls of the one before it.
use haikit.Prelude.{
  ◌≡◌, refl, ap, Option, none, some, List, [], ◌∷◌, ◌++◌, map, append-nil, append_assoc, Text,
}
use mathlib.Core.List.{Perm, perm_append_comm}
use mathlib.Core.List.Perm
use haikit.Core.Types.{
  ContentBlock, text, tool_use, tool_result, other, plain, blocks, user, assistant, Message,
  Pending, Conversation,
}
use haikit.Runtime.Types.{Question}
use haikit.Runtime.Tools.{ToolCall}
use haikit.Runtime.Loop.{Batch, calls_of}

abbrev pub call_ids : List ToolCall → List Text
call_ids = map (λ (c : ToolCall). c.id)

abbrev pub result_ids : List ContentBlock → List Text
result_ids [] = []
result_ids (tool_result id m ∷ bs) = id ∷ result_ids bs
result_ids (b ∷ bs) = result_ids bs

-- The calls that a message makes, and those that it answers.
unfoldable pub uses : Message → List Text
unfolding calls_of
uses m = elim m.role [ user ↦ [] | assistant ↦ call_ids (calls_of m.content) ]

unfoldable pub answers : Message → List Text
answers m = elim m.role [
  | assistant ↦ []
  | user ↦ elim m.content [ plain t ↦ [] | blocks bs ↦ result_ids bs ]
]

-- From calls that wait for an answer, through the messages, to those that wait after them.
abbrev pub Leads : List Text → List Message → List Text → Type 0
Leads waiting [] rest = Perm waiting rest
Leads waiting (m ∷ ms) rest = Perm waiting (answers m) × Leads (uses m) ms rest

-- The calls that the parked turn will answer: those answered already, and the one that waits.
abbrev pub waiting : Option Pending → List Text
waiting none = []
waiting (some p) = result_ids p.results ++ p.tool_use_id ∷ []

unfoldable pub IsWellFormed : Conversation → Type 0
IsWellFormed c = Leads [] c.messages (waiting c.pending)

pub Leads-push :
    (before : List Text) (ms : List Message) (m : Message) (rest : List Text)
    → Leads before ms rest
    → Perm rest (answers m)
    → Leads before (ms ++ m ∷ []) (uses m)
Leads-push before [] m rest l p = (Perm.trans l p, Perm.refl (uses m))
Leads-push before (x ∷ ms) m rest l p = (l.0, Leads-push (uses x) ms m rest l.1 p)

pub Leads-perm :
    (before : List Text) (ms : List Message) (rest rest' : List Text)
    → Leads before ms rest
    → Perm rest rest'
    → Leads before ms rest'
Leads-perm before [] rest rest' l p = Perm.trans l p
Leads-perm before (x ∷ ms) rest rest' l p = (l.0, Leads-perm (uses x) ms rest rest' l.1 p)

pub result_ids-append :
    (bs cs : List ContentBlock) → result_ids (bs ++ cs) ≡ result_ids bs ++ result_ids cs
result_ids-append [] cs = refl
result_ids-append (text t ∷ bs) cs = result_ids-append bs cs
result_ids-append (tool_use i n v ∷ bs) cs = result_ids-append bs cs
result_ids-append (tool_result i m ∷ bs) cs = ap (◌∷◌ i) (result_ids-append bs cs)
result_ids-append (other v ∷ bs) cs = result_ids-append bs cs

-- The calls of a reply that have run: those answered, and the one that asked.
abbrev parked_ids : Option (Text × Question) → List Text
parked_ids none = []
parked_ids (some (id, q)) = id ∷ []

abbrev pub tally : Batch → List Text
tally b = result_ids b.results ++ parked_ids b.parked

pub tally_answered :
    (b : Batch) (id m : Text)
    → Perm (tally (record b { results = b.results ++ tool_result id m ∷ [] })) (tally b ++ id ∷ [])
tally_answered b id m =
    let rs = result_ids b.results in
    let ps = parked_ids b.parked in
    rw
      (
        result_ids-append b.results (tool_result id m ∷ []),
        append_assoc rs (id ∷ []) ps,
        append_assoc rs ps (id ∷ []),
      )
      (Perm.append (Perm.refl rs) (perm_append_comm (id ∷ []) ps))

pub tally_parked :
    (b : Batch) (id : Text) (q : Question)
    → b.parked ≡ none
    → Perm (tally (record b { parked = some (id, q) })) (tally b ++ id ∷ [])
tally_parked b id q e =
    rw (e, append-nil (result_ids b.results)) (Perm.refl (result_ids b.results ++ id ∷ []))
