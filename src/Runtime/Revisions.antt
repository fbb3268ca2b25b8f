-- ===== src/Runtime/Revisions.antt =====
-- A revision and the notice that tells of it: `reviseHeld` of packages/server/src/runtime.ts.
use haikit.Prelude.{
  ◌≡◌, refl, ap, ◌∙◌, ◌++◌, [], ◌∷◌, set, Option-cases, Bool, true, false, Option, none, some, ◌⊎◌,
  inl, inr, Bool-cases, Text, Result, ◌>>=◌, lit, ◌>>◌, raise, rethrow, attempt, on_option,
  on_result, bind_by, if◌then◌else◌, ◌=t=◌, error,
}
use haikit.Core.Types.{
  Conversation, Pending, NoticeBody, NoticeRecord, PayloadRecord, Window, never, ms, unknown,
  Number,
}
use haikit.Runtime.Types.{Hai, Turn, Surface}
use haikit.Runtime.Actions.{outside, gets, amend}
use haikit.Runtime.Handles.{includes, current_handle}
use haikit.Runtime.Windows.{window_of, strictest, refuse_if_expired}
use haikit.Runtime.Tools.{digest_of, still_fresh}
use haikit.Runtime.Update.{
  UpdateJob, Written, take_revision, notice_of, after_notice, commit_revision, write_revision,
  revise_current, revise_found, revise_held,
}
use haikit.Runtime.Keeps.{Claim, Holds, Keeps, keeps_rules}
use haikit.Runtime.Frame.{Keeps-refuse_if_expired}

-- A notice that one surface replaced another.
abbrev Tells : NoticeBody → Text → Text → Type 0
Tells n current next = (n.replaces ≡ some current) × (n.handle ≡ some next)

-- A question that waits on the replaced surface waits on the one that replaces it.
abbrev pub waits_on : Text → Text → Option Pending → Option Pending
waits_on current next none = none
waits_on current next (some p) =
    some (if p.handle =t= current then record p { handle = next } else p)

-- One surface more, which the replaced one leads to.
abbrev pub with_revision : Text → Text → Conversation → Conversation
with_revision current next c = record c {
  handles = c.handles ++ next ∷ [];
  superseded = set current next c.superseded;
  pending = waits_on current next c.pending;
}

take_revision-with_revision :
    (current next : Text) (c : Conversation)
    → take_revision current next c ≡ with_revision current next c
unfolding take_revision
take_revision-with_revision current next c = elim (Option-cases c.pending) [
  | inl e ↦ rw e refl
  | inr (p, e) ↦ rw e refl
]

-- What a write left, by how it ended: the surface revised and its notice put, or nothing changed, or
-- the surface revised and its notice owed.
unfoldable pub Told : {W : Type 0} → Hai W → Conversation → Result Written → Turn W → Type 0
Told {W} hai before (Result.ok w) t =
    (t.conversation ≡ record (with_revision w.replaced w.handle before) { announcing = none })
    × (notice : NoticeBody) × Tells notice w.replaced w.handle
    × (stored : NoticeRecord) × (world : W) × (hai.store.put_notice notice world
        ≡ (Result.ok stored, t.world))
Told hai before (Result.err e) t =
    (t.conversation ≡ before)
    ⊎ ((current : Text) × (next : Text) × (notice : NoticeBody) × Tells notice current next
        × (t.conversation
            ≡ record (with_revision current next before) { announcing = some notice }))

module _ {W : Type 0} (hai : Hai W) (before : Conversation) where
  abbrev Same : Claim
  Same r a k l c = c ≡ before

  Keeps-still_fresh : (n : Number) (w : Window) → Keeps Same (still_fresh hai n w)
  unfolding still_fresh
  Keeps-still_fresh n never = search keeps_rules
  Keeps-still_fresh n (ms k) = search keeps_rules
  Keeps-still_fresh n unknown = search keeps_rules

  -- Once the revision and the notice that it owes are saved.
  after_notice-Told :
      (notice : NoticeBody) (current next : Text) (put : Result NoticeRecord) (world : W)
      (t : Turn W)
      → Tells notice current next
      → t.conversation ≡ record (with_revision current next before) { announcing = some notice }
      → hai.store.put_notice notice world ≡ (put, t.world)
      → Told hai before
          (after_notice hai current next put t).0
          (after_notice hai current next put t).1
  unfolding after_notice on_result amend ◌>>=◌ Told
  after_notice-Told notice current next (Result.ok stored) world t tells owes p = (
    ap (λ (c : Conversation). record c { announcing = none }) owes,
    notice,
    tells,
    stored,
    world,
    p,
  )
  after_notice-Told notice current next (Result.err e) world t tells owes p =
      inr (current, next, notice, tells, owes)

  commit_revision-Told :
      (notice : NoticeBody) (current next : Text) (t : Turn W)
      → Tells notice current next
      → Holds Same t
      → Told hai before
          (commit_revision hai notice current next t).0
          (commit_revision hai notice current next t).1
  unfolding commit_revision amend gets outside attempt ◌>>=◌ Told
  commit_revision-Told notice current next t tells h =
      let owing : Turn W = record t {
        conversation = record (take_revision current next t.conversation) {
          announcing = some notice;
        };
      } in
      let owes =
        ap (λ (c : Conversation). record c { announcing = some notice })
          (take_revision-with_revision current next t.conversation
            ∙ ap (with_revision current next) h) in
      bind_by (Told hai before) (outside (hai.store.save_conversation owing.conversation)) _ owing
        (λ _ _. after_notice-Told notice current next _ _ _ tells owes refl)
        (λ e _. inr (current, next, notice, tells, owes))

  written-Told :
      (impl : Surface W) (current : Text) (job : UpdateJob) (r : PayloadRecord) (next : Text)
      (t : Turn W)
      → Holds Same t
      → let c = before in
        let m = rethrow (digest_of impl job.props next) >>= λ digest.
        still_fresh hai r.created_at (strictest r.stale_after_ms (window_of impl))
        >> commit_revision hai
            (notice_of impl t.conversation.id job current next digest)
            current
            next in
        Told hai before (m t).0 (m t).1
  unfolding rethrow notice_of Told
  written-Told impl current job r next t h =
      bind_by (Told hai before) (rethrow (digest_of impl job.props next)) _ t
        (λ digest _.
          bind_by (Told hai before)
            (still_fresh hai r.created_at (strictest r.stale_after_ms (window_of impl))) _ t
            (λ _ _.
              commit_revision-Told (notice_of impl t.conversation.id job current next digest)
                current next _ (refl, refl) (Keeps.kept (Keeps-still_fresh r.created_at _) t h))
            (λ e _. inl (Keeps.kept (Keeps-still_fresh r.created_at _) t h)))
        (λ e _. inl h)

  -- Once the conversation is known to be fresh.
  fresh-Told :
      (stale : Bool) (impl : Surface W) (current : Text) (job : UpdateJob) (r : PayloadRecord)
      (t : Turn W)
      → Holds Same t
      → let m =
          if stale
          then raise error
              (lit "this conversation is out of date; nothing more can be revised in it")
          else write_revision hai impl current job r in
        Told hai before (m t).0 (m t).1
  unfolding write_revision gets outside ◌>>=◌ Told
  fresh-Told true impl current job r t h = inl h
  fresh-Told false impl current job r t h =
      bind_by (Told hai before) (outside (hai.store.put_payload _ _)) _ t
        (λ next _. written-Told impl current job r next _ h) (λ e _. inl h)

  revise_current-Told :
      (impl : Surface W) (current : Text) (job : UpdateJob) (r : PayloadRecord) (t : Turn W)
      → Holds Same t
      → Told hai before
          (revise_current hai impl current job r t).0
          (revise_current hai impl current job r t).1
  unfolding revise_current Told
  revise_current-Told impl current job r t h =
      let t1 : Turn W = (refuse_if_expired hai false t).1 in
      let kept = Keeps.kept (Keeps-refuse_if_expired hai Same false) t h in
      bind_by (Told hai before) (refuse_if_expired hai false) _ t
        (λ stale _. fresh-Told stale impl current job r t1 kept) (λ e _. inl kept)

  found-Told :
      (impl : Surface W) (current : Text) (job : UpdateJob) (found : Option PayloadRecord)
      (t : Turn W)
      → Holds Same t
      → Told hai before
          (revise_found hai impl current job found t).0
          (revise_found hai impl current job found t).1
  unfolding revise_found on_option gets ◌>>=◌ Told
  found-Told impl current job none t h = inl h
  found-Told impl current job (some r) t h = elim (Bool-cases (r.component =t= impl.name)) [
    | inl b ↦ rw b (revise_current-Told impl current job r t h)
    | inr b ↦ rw b (inl h)
  ]

-- A write of a surface that succeeds leaves the conversation as it was but for the revision, which is
-- one handle more, that the replaced one leads to, and that a question has that waited on the
-- replaced one; and its last call put the notice that the surface was replaced, and by which. One
-- that fails leaves the conversation as it was, or with the revision and that notice owed.
pub revise_held-Told :
    {W : Type 0} (hai : Hai W) (impl : Surface W) (handle : Text) (job : UpdateJob) (t : Turn W)
    → Told hai t.conversation
        (revise_held hai impl handle job t).0
        (revise_held hai impl handle job t).1
unfolding revise_held gets outside ◌>>=◌ Told
revise_held-Told hai impl handle job t =
    let c = t.conversation in
    let current = current_handle c handle in
    elim (Bool-cases (includes c.handles handle)) [
      | inr b ↦ rw b (inl refl)
      | inl b ↦ elim (Bool-cases (includes c.frozen current)) [
        | inl f ↦ rw (b, f) (inl refl)
        | inr f ↦
            rw (b, f)
              (bind_by (Told hai c) (outside (hai.store.get_payload current c.id)) _ t
                (λ found _. found-Told hai c impl current job found _ refl) (λ e _. inl refl))
      ]
    ]
