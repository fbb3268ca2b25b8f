-- ===== src/Runtime/Notices.antt =====
-- Notices in packages/server/src/runtime.ts: `announce`, `unreadNotices` and `withText`.
use haikit.Prelude.{
  ℕ, Bool, true, false, not, none, some, List, [], ◌∷◌, ◌++◌, if◌then◌else◌, ◌&&◌, Text, lit, last?,
  Exec, ◌>>=◌, ◌>>◌, pure, on_option,
}
use haikit.Core.Types.{NoticeBody, NoticeRecord, ContentBlock, text, Content, plain, blocks}
use haikit.Store.Memory.{same_token, list_or_empty}
use haikit.Runtime.Types.{Hai, Turn}
use haikit.Runtime.Actions.{outside, gets, amend}

pub record Unread : Type 0 where
  pub texts : List ContentBlock
  pub through : ℕ
  pub wake : ℕ

-- The block of a notice that has something for the model.
unfoldable pub notice_text : NoticeRecord → List ContentBlock
notice_text n = elim n.model [
  | none ↦ []
  | some m ↦ elim n.replaces [
    | none ↦ text (lit "[App notification: " ++ n.name ++ lit "] " ++ m) ∷ []
    | some _ ↦ text (lit "[UI update] " ++ m) ∷ []
  ]
]

unfoldable pub notice_texts : List NoticeRecord → List ContentBlock
unfolding notice_text
notice_texts [] = []
notice_texts (n ∷ ns) = notice_text n ++ notice_texts ns

-- `findLast` of the wake notices.
last_wake : ℕ → List NoticeRecord → ℕ
last_wake found [] = found
last_wake found (n ∷ ns) = last_wake (if n.wake then n.seq else found) ns

unfoldable pub unread_of : ℕ → List NoticeRecord → Unread
unfolding notice_texts last_wake
unread_of through fresh = record {
  texts = notice_texts fresh;
  through = elim (last? fresh) [ none ↦ through | some n ↦ n.seq ];
  wake = last_wake 0 fresh;
}

-- A user message: text after any notice blocks, or the text alone when there are none.
unfoldable pub with_text : List ContentBlock → Text → Content
with_text [] t = plain t
with_text (b ∷ bs) t = blocks ((b ∷ bs) ++ text t ∷ [])

-- A notice in the list that announces the same revision.
unfoldable pub is_announced : NoticeBody → List NoticeRecord → Bool
is_announced owed [] = false
is_announced owed (n ∷ ns) =
    if same_token n.handle owed.handle && same_token n.replaces owed.replaces
    then true
    else is_announced owed ns

module _ {W : Type 0} (hai : Hai W) where
  unfoldable pub unread_notices : Exec (Turn W) Unread
  unfolding unread_of
  unread_notices = do
    c ← gets (λ t. t.conversation)
    if not hai.sends_notices
        then pure (record { texts = []; through = c.noticed_through; wake = 0 })
        else do
          fresh ← outside (hai.store.get_notices c.id c.noticed_through none)
          pure (unread_of c.noticed_through (list_or_empty fresh))

  -- The update notice that the conversation owes, appended before anything else.
  unfoldable pub announce : Exec (Turn W) (Unit {0})
  unfolding is_announced
  announce = do
    c ← gets (λ t. t.conversation)
    on_option c.announcing (pure tt) λ owed. do
      unread ← outside (hai.store.get_notices c.id c.noticed_through none)
      if is_announced owed (list_or_empty unread)
          then amend (λ c'. record c' { announcing = none })
          else do outside (hai.store.put_notice owed); amend (λ c'. record c' { announcing = none })
