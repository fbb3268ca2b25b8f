-- ===== src/Runtime/Actions.antt =====
-- The steps that every request of packages/server/src/runtime.ts is made of.
use haikit.Prelude.{
  ◌+◌, Bool, true, false, none, some, [], ◌∷◌, ◌++◌, Text, lit, decimal, ok, Exec, if◌then◌else◌,
}
use haikit.Core.Types.{Conversation, Message}
use haikit.Runtime.Types.{Hai, Turn, WireEvent, ui_open, ui_props}

abbrev pub is_surface_event : WireEvent → Bool
is_surface_event (ui_open h i n v m w r) = true
is_surface_event (ui_props h p) = true
is_surface_event _ = false

module _ {W : Type 0} where
  -- A call of something outside the request, such as the store.
  unfoldable pub outside : {A : Type 0} → Exec W A → Exec (Turn W) A
  outside m t = let (r, w) = m t.world in (r, record t { world = w })

  unfoldable pub observe : {A : Type 0} → (W → A × W) → Exec (Turn W) A
  observe m t = let (a, w) = m t.world in (ok a, record t { world = w })

  unfoldable pub gets : {A : Type 0} → (Turn W → A) → Exec (Turn W) A
  gets f t = (ok (f t), t)

  unfoldable pub modify : (Turn W → Turn W) → Exec (Turn W) (Unit {0})
  modify f t = (ok tt, f t)

  -- An assignment to fields of the conversation.
  unfoldable pub amend : (Conversation → Conversation) → Exec (Turn W) (Unit {0})
  amend f t = (ok tt, record t { conversation = f t.conversation })

  unfoldable pub push : Message → Exec (Turn W) (Unit {0})
  unfolding amend
  push m = amend (λ c. record c { messages = c.messages ++ m ∷ [] })

  -- `emit`; while init runs, the surfaces' events are held back.
  unfoldable pub emit : WireEvent → Exec (Turn W) (Unit {0})
  emit e t = elim t.held [
    | none ↦ (ok tt, record t { sent = t.sent ++ e ∷ [] })
    | some h ↦
        if is_surface_event e
        then (ok tt, record t { held = some (h ++ e ∷ []) })
        else (ok tt, record t { sent = t.sent ++ e ∷ [] })
  ]

  -- `nid`: this Hai's own part, then a count.
  unfoldable pub nid : Hai W → Text → Exec (Turn W) Text
  nid hai prefix t = (
    ok (prefix ++ lit "_" ++ hai.block_ids ++ lit "_" ++ decimal (t.seq + 1)),
    record t { seq = t.seq + 1 },
  )
