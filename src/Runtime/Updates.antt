-- ===== src/Runtime/Updates.antt =====
-- A whole write of `hai.update`, from the load of the conversation on: `revise` of
-- packages/server/src/runtime.ts.
use haikit.Prelude.{
  ◌≡◌, refl, ap, subst, Option, none, some, ◌⊎◌, inl, inr, Bool-cases, Result, Text, ◌>>=◌, ◌>>◌,
  pure, throw, rethrow, attempt, on_result, bind_by, is_stale_lease,
}
use haikit.Core.Types.{Conversation, NoticeBody}
use haikit.Runtime.Types.{Hai, Turn, Surface}
use haikit.Runtime.Actions.{outside, gets, amend}
use haikit.Runtime.Notices.{announce}
use haikit.Runtime.Update.{UpdateJob, Written, revise_held, end_revision, revise_loaded}
use haikit.Runtime.Revisions.{Told, with_revision, revise_held-Told}
use haikit.Runtime.Announced.{Announced, announce-Announced}

-- What the request had made of the conversation: the notice that it owed is told, and the surface is
-- revised; or it stopped on the way.
abbrev pub Came : Conversation → Conversation → Type 0
Came before c =
    ((n : Option NoticeBody) × (c ≡ record before { announcing = n }))
    ⊎ ((current : Text) × (next : Text) × (n : Option NoticeBody) × (c
          ≡ record (with_revision current next before) { announcing = n }))

-- It ended: let go, and saved just so where it tells of a revision.
unfoldable pub LetGo : {W : Type 0} → Hai W → Conversation → Result Written → Turn W → Type 0
LetGo {W} hai before (Result.ok w) t =
    (t.conversation
      ≡ record (with_revision w.replaced w.handle before) { announcing = none; lease_until = none })
    × (world : W) × (hai.store.save_conversation t.conversation world ≡ (Result.ok tt, t.world))
LetGo {W} hai before (Result.err e) t =
    (c : Conversation) × Came before c × (t.conversation ≡ record c { lease_until = none })

module _ {W : Type 0} (hai : Hai W) (before : Conversation) where
  -- Before it is let go.
  unfoldable Tried : Result Written → Turn W → Type 0
  Tried (Result.ok w) t =
      t.conversation ≡ record (with_revision w.replaced w.handle before) { announcing = none }
  Tried (Result.err e) t = Came before t.conversation

  Told-Tried :
      (r : Result Written) (t : Turn W)
      → Told hai (record before { announcing = none }) r t
      → Tried r t
  unfolding Told Tried
  Told-Tried (Result.ok w) t told = told.0
  Told-Tried (Result.err e) t (inl same) = inl (none, same)
  Told-Tried (Result.err e) t (inr (current, next, notice, tells, owes)) =
      inr (current, next, some notice, owes)

  revise_held-Tried :
      (impl : Surface W) (handle : Text) (job : UpdateJob) (t : Turn W)
      → t.conversation ≡ record before { announcing = none }
      → Tried (revise_held hai impl handle job t).0 (revise_held hai impl handle job t).1
  revise_held-Tried impl handle job t e = Told-Tried _ _ (
      subst
        (λ c.
          Told hai c (revise_held hai impl handle job t).0 (revise_held hai impl handle job t).1)
        e (revise_held-Told hai impl handle job t))

  saved-LetGo :
      (w : Written) (saved : Result (Unit {0})) (world : W) (t : Turn W)
      → t.conversation ≡ record (with_revision w.replaced w.handle before) {
        announcing = none;
        lease_until = none;
      }
      → hai.store.save_conversation t.conversation world ≡ (saved, t.world)
      → let m = on_result saved throw λ _. pure w in LetGo hai before (m t).0 (m t).1
  unfolding on_result throw pure LetGo
  saved-LetGo w (Result.ok _) world t came e = (came, world, e)
  saved-LetGo w (Result.err x) world t came e = (
    record (with_revision w.replaced w.handle before) { announcing = none },
    inr (w.replaced, w.handle, none, refl),
    came,
  )

  end_revision-LetGo :
      (r : Result Written) (t : Turn W)
      → Tried r t
      → LetGo hai before (end_revision hai r t).0 (end_revision hai r t).1
  unfolding end_revision amend gets outside attempt rethrow on_result pure throw ◌>>=◌ Tried LetGo
  end_revision-LetGo (Result.err e) t came = elim (Bool-cases (is_stale_lease e)) [
    | inl b ↦ rw b (t.conversation, came, refl)
    | inr b ↦ rw b (t.conversation, came, refl)
  ]
  end_revision-LetGo (Result.ok w) t came =
      let free : Conversation = record t.conversation { lease_until = none } in
      saved-LetGo w _ t.world
        (record t { conversation = free; world = (hai.store.save_conversation free t.world).1 })
        (ap (λ (c : Conversation). record c { lease_until = none }) came) refl

-- An update that succeeds leaves the conversation as it was but for the revision, which is one handle
-- more, that the replaced one leads to, and that a question has that waited on the replaced one:
-- nothing owed, let go, and just so saved by its last call. One that fails leaves it let go, and as it was or as the
-- revision leaves it, but for the notice that it owes.
pub revise_loaded-LetGo :
    {W : Type 0} (hai : Hai W) (impl : Surface W) (handle : Text) (job : UpdateJob) (t : Turn W)
    → LetGo hai t.conversation
        (revise_loaded hai impl handle job t).0
        (revise_loaded hai impl handle job t).1
unfolding revise_loaded attempt ◌>>=◌ Announced Tried
revise_loaded-LetGo hai impl handle job t =
    let before = t.conversation in
    let announced = announce-Announced hai t in
    let Now : Result (Unit {0}) → Type 0 =
      λ r. Announced hai before before.announcing r (announce hai t).1 in
    let tried = announce hai >> revise_held hai impl handle job in
    end_revision-LetGo hai before (tried t).0 (tried t).1 (
      bind_by (Tried hai before) (announce hai) (λ _. revise_held hai impl handle job) t
        (λ _ p. revise_held-Tried hai before impl handle job _ (subst Now p announced).0)
        (λ e p. inl (before.announcing, subst Now p announced)))
