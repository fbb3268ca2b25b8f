-- ===== src/Runtime/Announced.antt =====
-- The notice that a conversation owes: `announce` of packages/server/src/runtime.ts.
use haikit.Prelude.{
  ◌≡◌, refl, ap, ◌∙◌, true, [], ◌∷◌, Option, none, some, List, ◌⊎◌, inl, inr, Bool-cases, Result,
  Exec, ◌>>=◌, ◌>>◌, pure, on_option, bind_by, if◌then◌else◌,
}
use haikit.Core.Types.{Conversation, NoticeBody, NoticeRecord}
use haikit.Store.Memory.{list_or_empty, same_token}
use haikit.Store.Writes.{same_token_iff}
use mathlib.Core.List.{Memᴰ}
use haikit.Runtime.Types.{Hai, Turn}
use haikit.Runtime.Actions.{outside, gets, amend}
use haikit.Runtime.Notices.{is_announced, announce}

-- A notice that shows the same surface in place of the same one.
unfoldable pub SameRevision : NoticeBody → List NoticeRecord → Type 0
SameRevision owed ns =
    (n : NoticeRecord) × Memᴰ n ns × (n.handle ≡ owed.handle) × (n.replaces ≡ owed.replaces)

announced-SameRevision :
    (owed : NoticeBody) (ns : List NoticeRecord)
    → is_announced owed ns ≡ true
    → SameRevision owed ns
unfolding is_announced SameRevision
announced-SameRevision owed [] = λ e. cc
announced-SameRevision owed (n ∷ ns) = elim (Bool-cases (same_token n.handle owed.handle)) [
  | inr p ↦ rw p (λ e.
      let (found, there, shows, replaces) = announced-SameRevision owed ns e in
      (found, Memᴰ.tail there, shows, replaces))
  | inl p ↦ elim (Bool-cases (same_token n.replaces owed.replaces)) [
    | inl q ↦ λ e. (
      n,
      Memᴰ.head refl,
      (same_token_iff n.handle owed.handle).0 p,
      (same_token_iff n.replaces owed.replaces).0 q,
    )
    | inr q ↦
        rw (p, q)
          (λ e.
            let (found, there, shows, replaces) = announced-SameRevision owed ns e in
            (found, Memᴰ.tail there, shows, replaces))
  ]
]

-- The notice is put as the last thing before the turn goes on, or was among the unread ones already.
abbrev Put : {W : Type 0} → Hai W → Conversation → NoticeBody → Turn W → Type 0
Put {W} hai c owed t =
    ((world : W) × (unread : Option (List NoticeRecord)) × (hai.store.get_notices c.id
          c.noticed_through none world
        ≡ (Result.ok unread, t.world))
      × SameRevision owed (list_or_empty unread))
    ⊎ ((world : W) × (stored : NoticeRecord) × (hai.store.put_notice owed world
          ≡ (Result.ok stored, t.world)))

abbrev Settles : {W : Type 0} → Hai W → Conversation → Option NoticeBody → Turn W → Type 0
Settles hai c none t = Unit
Settles hai c (some owed) t = Put hai c owed t

-- By how it ended: the conversation owes nothing, or what it owed before.
unfoldable pub Announced :
    {W : Type 0} → Hai W → Conversation → Option NoticeBody → Result (Unit {0}) → Turn W → Type 0
Announced hai before owed (Result.ok _) t =
    (t.conversation ≡ record before { announcing = none }) × Settles hai before owed t
Announced hai before owed (Result.err e) t = t.conversation ≡ before

module _ {W : Type 0} (hai : Hai W) (before : Conversation) where
  -- Once the unread notices are there.
  abbrev settle : NoticeBody → Option (List NoticeRecord) → Exec (Turn W) (Unit {0})
  settle owed unread =
      if is_announced owed (list_or_empty unread)
      then amend (λ c. record c { announcing = none })
      else (outside (hai.store.put_notice owed) >> amend (λ c. record c { announcing = none }))

  settle-Announced :
      (owed : NoticeBody) (unread : Option (List NoticeRecord)) (world : W) (t : Turn W)
      → t.conversation ≡ before
      → hai.store.get_notices before.id before.noticed_through none world
        ≡ (Result.ok unread, t.world)
      → Announced hai before (some owed) (settle owed unread t).0 (settle owed unread t).1
  unfolding amend outside ◌>>=◌ Announced
  settle-Announced owed unread world t h e =
      let put = hai.store.put_notice owed t.world in
      elim (Bool-cases (is_announced owed (list_or_empty unread))) [
        | inl b ↦ rw b (
          ap (λ (c : Conversation). record c { announcing = none }) h,
          inl (world, unread, e, announced-SameRevision owed (list_or_empty unread) b),
        )
        | inr b ↦ rw b (
            bind_by (Announced hai before (some owed)) (outside (hai.store.put_notice owed)) _ t
              (λ stored p. (
                ap (λ (c : Conversation). record c { announcing = none }) h,
                inr (t.world, stored, ap (λ r. (r, put.1)) p),
              ))
              (λ x _. h))
      ]

  owed-Announced :
      (owed : Option NoticeBody) (t : Turn W)
      → t.conversation ≡ before
      → before.announcing ≡ owed
      → let m =
          on_option owed (pure tt) λ n.
            outside (hai.store.get_notices before.id before.noticed_through none) >>= settle n in
        Announced hai before owed (m t).0 (m t).1
  unfolding on_option outside pure Announced
  owed-Announced none t h o =
      (h ∙ ap (λ (n : Option NoticeBody). record before { announcing = n }) o, tt)
  owed-Announced (some n) t h o =
      let notices = hai.store.get_notices before.id before.noticed_through none in
      let now = notices t.world in
      bind_by (Announced hai before (some n)) (outside notices) (settle n) t
        (λ unread p.
          settle-Announced n unread t.world (record t { world = now.1 }) h (ap (λ r. (r, now.1)) p))
        (λ x _. h)

-- Where `announce` succeeds, the conversation is as it was but owes no notice, and the one that it owed, if
-- any, was put as its last call, or that call found one that shows the same surface in place of the
-- same one among the notices that the history has not taken in. Where it fails, the conversation is as it was, and still owes it.
pub announce-Announced :
    {W : Type 0} (hai : Hai W) (t : Turn W)
    → Announced hai t.conversation t.conversation.announcing (announce hai t).0 (announce hai t).1
unfolding announce gets ◌>>=◌
announce-Announced hai t = owed-Announced hai t.conversation t.conversation.announcing t refl refl
