-- ===== src/Routes/Closing.antt =====
-- What a POST request leaves in the store: the `try` of `respond` in packages/server/src/routes.ts.
use haikit.Prelude.{◌≡◌, ◌⊎◌, Bool, true, none, List, Result}
use mathlib.Core.List.{Perm}
use mathlib.Core.List.Perm
use haikit.Runtime.Types.{Hai, Turn}
use haikit.Runtime.Keeps.{Claim, Keeps}
use haikit.Runtime.History.{IsWellFormed}
use haikit.Runtime.Messages.{IsAnswerable}
use haikit.Routes.Types.{Options}

-- The lease is let go, of a conversation that is otherwise as the work left it. The request had lost
-- its lease; or the history is whole, and the conversation was saved, whether or not the save went
-- through, in the store as the work left it.
unfoldable pub Closed : {W : Type 0} → Hai W → Bool → Turn W → Turn W → Type 0
Closed hai lost left t =
    (t.conversation ≡ record left.conversation { lease_until = none })
    × ((lost ≡ true)
        ⊎ (IsWellFormed t.conversation
            × (saved : Result (Unit {0})) × (hai.store.save_conversation t.conversation left.world
                ≡ (saved, t.world))))

-- An event goes to the browser alone.
abbrev Same : {W : Type 0} → Turn W → Turn W → Type 0
Same t t' = (t'.world ≡ t.world) × (t'.conversation ≡ t.conversation)

module _ {W : Type 0} (hai : Hai W) (options : Options W) where
  abbrev Ready : Claim
  Ready r a k l c = IsWellFormed c × IsAnswerable c
