-- ===== src/Runtime/Unread.antt =====
-- The notices that a user message takes in: `unreadNotices` of packages/server/src/runtime.ts.
use haikit.Prelude.{
  ◌≡◌, refl, Bool-cases, Option-cases, inl, inr, none, List, [], ◌∷◌, Result, ◌>>=◌, pure, bind_by,
}
use haikit.Core.Types.{NoticeRecord}
use haikit.Runtime.Types.{Hai, Turn}
use haikit.Runtime.Actions.{outside, gets}
use haikit.Runtime.Notices.{Unread, notice_text, notice_texts, unread_of, unread_notices}
use haikit.Runtime.Keeps.{Claim, Keeps, keeps_rules}
use haikit.Runtime.History.{result_ids, result_ids-append}
use haikit.Store.Memory.{list_or_empty}

notice_text-result_ids : (n : NoticeRecord) → result_ids (notice_text n) ≡ []
unfolding notice_text
notice_text-result_ids n = elim (Option-cases n.model) [
  | inl e ↦ rw e refl
  | inr (m, e) ↦ elim (Option-cases n.replaces) [
    | inl f ↦ rw (e, f) refl
    | inr (h, f) ↦ rw (e, f) refl
  ]
]

notice_texts-result_ids : (ns : List NoticeRecord) → result_ids (notice_texts ns) ≡ []
unfolding notice_texts
notice_texts-result_ids [] = refl
notice_texts-result_ids (n ∷ ns) =
    rw (result_ids-append (notice_text n) (notice_texts ns), notice_text-result_ids n)
      (notice_texts-result_ids ns)

-- No notice answers a tool call.
abbrev pub OnlyTexts : Result Unread → Type 0
OnlyTexts (Result.ok u) = result_ids u.texts ≡ []
OnlyTexts (Result.err e) = Unit

module _ {W : Type 0} (hai : Hai W) where
  pub unread_notices-OnlyTexts : (t : Turn W) → OnlyTexts (unread_notices hai t).0
  unfolding unread_notices gets ◌>>=◌ unread_of
  unread_notices-OnlyTexts t = elim (Bool-cases hai.sends_notices) [
    | inr e ↦ rw e refl
    | inl e ↦ rw e (
        bind_by (λ r t'. OnlyTexts r)
          (outside (hai.store.get_notices t.conversation.id t.conversation.noticed_through none))
          (λ fresh. pure (unread_of t.conversation.noticed_through (list_or_empty fresh))) t
          (λ fresh _. notice_texts-result_ids (list_or_empty fresh)) (λ x _. tt))
  ]

  pub Keeps-unread_notices : (P : Claim) → Keeps {W = W} P (unread_notices hai)
  unfolding unread_notices
  Keeps-unread_notices P = search keeps_rules
