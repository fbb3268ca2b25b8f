-- ===== src/Runtime/Undo.antt =====
-- What a refused or failed click leaves of the conversation: `interact` of
-- packages/server/src/runtime.ts, up to the point where the model runs.
use haikit.Prelude.{
  ℕ, arith, true, false, Bool-cases, Option-cases, inl, inr, List, [], ◌∷◌, ◌++◌, sym, ◌≡◌, refl,
  ap, ◌∙◌, Option, none, some, Text, rethrow, lit, error, =t=_iff, raise, take-append, take-length,
  rethrow, lit, error, =t=_iff, raise, Result, ok, ◌>>=◌, ◌>>◌, on_option, on_result, attempt, pure,
  throw, bind_by, subst,
}
use haikit.Core.Json.{Json}
use haikit.Core.Types.{
  ConversationStatus, Conversation, Pending, PayloadRecord, ContentBlock, text, tool_result,
  Content, plain, blocks, user,
}
use haikit.Runtime.Handles.{includes, revised}
use haikit.Runtime.Types.{Hai, Turn, ActionKind, resolve, inform}
use haikit.Runtime.Actions.{outside, gets, amend}
use haikit.Runtime.Unread.{OnlyTexts, unread_notices-OnlyTexts, Keeps-unread_notices}
use haikit.Runtime.History.{result_ids}
use haikit.Runtime.Keeps.{Claim, Keeps, keeps_rules}
use haikit.Runtime.Notices.{Unread, unread_notices, with_text}
use haikit.Runtime.Click.{
  click_on, BoundAction, failed_action, run_handler, take_click, undo_click, gate, check_clickable,
  bind_action, commit_with, commit_click, record_click,
}

-- Nothing that a click records is lost on the way back.
undo_click-take_click :
    (p : Option Pending) (handle label : Text) (unread : Unread) (c : Conversation)
    → undo_click c (take_click p handle label unread c) ≡ c
unfolding undo_click take_click
undo_click-take_click none handle label unread c =
    rw (take-append c.messages, take-length c.frozen) refl
undo_click-take_click (some p) handle label unread c =
    rw (take-append c.messages, take-append c.frozen) refl

-- A message of what was typed, after the texts that came before it, if any did.
abbrev pub Says : List ContentBlock → Text → Content → Type 0
Says [] typed content = content ≡ plain typed
Says (b ∷ bs) typed content = content ≡ blocks ((b ∷ bs) ++ text typed ∷ [])

-- The click is the last message, and nothing before it changed. Where a question waited, it is closed:
-- the message has the results of the reply's other calls and then the question's own, by its call,
-- with what was shown and what was chosen, and the surface is frozen. The texts, of the notices that
-- were read, answer no call.
abbrev pub Taken : Option Pending → Text → Text → Conversation → Conversation → Type 0
Taken none handle label before after =
    (texts : List ContentBlock) × (result_ids texts ≡ [])
    × (through : ℕ) × (content : Content) × Says texts (lit "[UI interaction] " ++ label) content
    × (after ≡ record before {
      messages = before.messages ++ record { role = user; content = content } ∷ [];
      noticed_through = through;
    })
Taken (some p) handle label before after =
    (texts : List ContentBlock) × (result_ids texts ≡ [])
    × (through : ℕ) × (after ≡ record before {
      messages =
          before.messages
          ++ record {
            role = user;
            content =
                blocks
                  (p.results ++ tool_result p.tool_use_id (p.digest ++ lit "\n" ++ label) ∷ texts);
          }
            ∷ [];
      frozen = before.frozen ++ handle ∷ [];
      pending = none;
      status = ConversationStatus.idle;
      noticed_through = through;
    })

Says-with_text :
    (texts : List ContentBlock) (typed : Text) → Says texts typed (with_text texts typed)
unfolding with_text
Says-with_text [] typed = refl
Says-with_text (b ∷ bs) typed = refl

take_click-Taken :
    (p : Option Pending) (handle label : Text) (unread : Unread) (c : Conversation)
    → result_ids unread.texts ≡ []
    → Taken p handle label c (take_click p handle label unread c)
unfolding take_click
take_click-Taken none handle label unread c n =
    (unread.texts, n, unread.through, _, Says-with_text unread.texts _, refl)
take_click-Taken (some p) handle label unread c n = (unread.texts, n, unread.through, refl)

-- A surface of this history that takes clicks: it was not revised, and not answered.
abbrev pub IsClickable : Conversation → Text → Type 0
IsClickable c handle =
    (includes c.handles handle ≡ true)
    × (revised c.superseded handle ≡ none)
    × (includes c.frozen handle ≡ false)

checked-IsClickable :
    (c : Conversation) (handle : Text) → check_clickable c handle ≡ ok tt → IsClickable c handle
unfolding check_clickable
checked-IsClickable c handle = elim (Bool-cases (includes c.handles handle)) [
  | inr p ↦ rw p (λ e. cc)
  | inl p ↦ elim (Option-cases (revised c.superseded handle)) [
    | inr (next, q) ↦ rw (p, q, check_clickable) (λ e. cc)
    | inl q ↦ elim (Bool-cases (includes c.frozen handle)) [
      | inl r ↦ rw (p, q, r, check_clickable) (λ e. cc)
      | inr r ↦ λ e. (p, q, r)
    ]
  ]
]

-- A failure leaves the conversation as it was; a label means that the click is in it.
Committed : Option Pending → Text → Text → Conversation → Conversation → Result (Unit {0}) → Type 0
Committed p handle label before after (Result.err e) = after ≡ before
Committed p handle label before after (Result.ok _) = Taken p handle label before after

-- The same, from the guards on.
unfoldable pub Recorded : Text → Conversation → Conversation → Result (Json × Text) → Type 0
Recorded handle before after (Result.err e) = after ≡ before
Recorded handle before after (Result.ok (value, label)) =
    IsClickable before handle
    × ((p : Pending) → before.pending ≡ some p → p.handle ≡ handle)
    × Taken before.pending handle label before after

-- What the gate says of the question that waits.
gate_handle :
    (k : ActionKind) (p : Option Pending) (handle : Text)
    → gate k p handle ≡ ok tt
    → (q : Pending) → p ≡ some q
    → q.handle ≡ handle
unfolding gate
gate_handle resolve none handle g q e = cc
gate_handle resolve (some p) handle g q e = grind (arith, =t=_iff p.handle handle)
gate_handle inform none handle g q e = cc
gate_handle inform (some p) handle g q e = cc

abbrev Same : Conversation → Claim
Same c ran asked asking lost now = now ≡ c

module _ {W : Type 0} (hai : Hai W) where
  -- What `commit_click` does once the notices are read.
  saved-Committed :
      (p : Option Pending) (handle label : Text) (unread : Unread) (before : Conversation)
      (t : Turn W) (r : Result (Unit {0}))
      → result_ids unread.texts ≡ []
      → t.conversation ≡ take_click p handle label unread before
      → Committed p handle label before
          (on_result r (λ e. do amend (undo_click before); throw e) pure t).1.conversation
          (on_result r (λ e. do amend (undo_click before); throw e) pure t).0
  unfolding on_result ◌>>=◌ amend Committed
  saved-Committed p handle label unread before t (Result.ok _) n q =
      subst (Taken p handle label before) (sym q) (take_click-Taken p handle label unread before n)
  saved-Committed p handle label unread before t (Result.err e) n q =
      ap (undo_click before) q ∙ undo_click-take_click p handle label unread before

  commit_with-Committed :
      (p : Option Pending) (handle label : Text) (unread : Unread) (t : Turn W)
      → result_ids unread.texts ≡ []
      → Committed p handle label t.conversation
          (commit_with hai p handle label unread t).1.conversation
          (commit_with hai p handle label unread t).0
  unfolding ◌>>=◌ gets amend attempt outside commit_with
  commit_with-Committed p handle label unread t n =
      saved-Committed p handle label unread t.conversation _ _ n refl

  commit_click-Committed :
      (p : Option Pending) (handle label : Text) (t : Turn W) (before : Conversation)
      → t.conversation ≡ before
      → Committed p handle label before
          (commit_click hai p handle label t).1.conversation
          (commit_click hai p handle label t).0
  unfolding commit_click Committed
  commit_click-Committed p handle label t before q =
      let kept = Keeps.kept (Keeps-unread_notices hai (Same before)) t q in
      bind_by (λ r t'. Committed p handle label before t'.conversation r) (unread_notices hai)
        (commit_with hai p handle label) t
        (λ unread e.
          subst
            (λ c.
              Committed p handle label c
                (commit_with hai p handle label unread (unread_notices hai t).1).1.conversation
                (commit_with hai p handle label unread (unread_notices hai t).1).0)
            kept
            (commit_with-Committed p handle label unread (unread_notices hai t).1
              (subst OnlyTexts e (unread_notices-OnlyTexts hai t))))
        (λ e _. kept)

  run_handler-Recorded :
      (handle : Text) (bound : BoundAction W) (t : Turn W)
      → check_clickable t.conversation handle ≡ ok tt
      → gate bound.kind t.conversation.pending handle ≡ ok tt
      → Recorded handle t.conversation
          (run_handler hai t.conversation.pending handle bound t).1.conversation
          (run_handler hai t.conversation.pending handle bound t).0
  unfolding Recorded run_handler attempt outside pure Committed
  run_handler-Recorded handle bound t clickable gated =
      let Q : Result (Json × Text) → Turn W → Type 0 =
        λ r t'. Recorded handle t.conversation t'.conversation r in
      let p = t.conversation.pending in
      bind_by Q (attempt (outside bound.handler)) _ t
        (λ said _.
          let named = on_result said (failed_action hai) pure in
          let t1 : Turn W = (attempt (outside bound.handler) t).1 in
          let kept =
            Keeps.kept {P = Same t.conversation} {m = named} (search keeps_rules) t1 refl in
          bind_by Q named _ t1
            (λ label _.
              let t2 : Turn W = (named t1).1 in
              let committed = commit_click-Committed p handle label t2 t.conversation kept in
              bind_by Q (commit_click hai p handle label) _ t2
                (λ u e. (
                  checked-IsClickable t.conversation handle clickable,
                  gate_handle bound.kind p handle gated,
                  subst
                      (Committed p handle label t.conversation
                        (commit_click hai p handle label t2).1.conversation)
                      e committed,
                ))
                (λ x e.
                  subst
                    (Committed p handle label t.conversation
                      (commit_click hai p handle label t2).1.conversation)
                    e committed))
            (λ e _. kept))
        (λ e _. refl)

  bound-Recorded :
      (handle action : Text) (value : Json) (r : PayloadRecord) (t : Turn W)
      → check_clickable t.conversation handle ≡ ok tt
      → Recorded handle t.conversation
          (click_on hai t.conversation.pending handle action value r t).1.conversation
          (click_on hai t.conversation.pending handle action value r t).0
  unfolding Recorded click_on rethrow
  bound-Recorded handle action value r t clickable =
      let Q : Result (Json × Text) → Turn W → Type 0 =
        λ r t'. Recorded handle t.conversation t'.conversation r in
      let p = t.conversation.pending in
      bind_by Q (rethrow (bind_action hai r action value)) _ t
        (λ bound _.
          bind_by Q (rethrow (gate bound.kind p handle)) _ t
            (λ u gated. run_handler-Recorded handle bound t clickable gated) (λ e _. refl))
        (λ e _. refl)

  -- Up to the point where the model runs, a click that is refused, whose handler throws or whose save
  -- fails leaves the conversation exactly as it was. One that goes through was on a surface of this
  -- history that is neither revised nor frozen, and on the one that the question which waits was asked
  -- on, if one waits. The conversation is then as it was but for one user message more, which has what
  -- was clicked, and texts that answer no call, and for the notices that count as read. Where a
  -- question waited, that message has the results of its reply's other calls and a result for its own,
  -- with its digest and the click's label; nothing waits any more, and the surface is frozen.
  pub record_click-Recorded :
      (handle action : Text) (value : Json) (t : Turn W)
      → Recorded handle t.conversation
          (record_click hai handle action value t).1.conversation
          (record_click hai handle action value t).0
  unfolding Recorded record_click gets outside rethrow raise on_option ◌>>=◌
  record_click-Recorded handle action value t =
      let c = t.conversation in
      let Q : Result (Json × Text) → Turn W → Type 0 =
        λ r t'. Recorded handle c t'.conversation r in
      bind_by Q (rethrow (check_clickable c handle)) _ t
        (λ u clickable.
          bind_by Q (outside (hai.store.get_payload handle c.id)) _ t
            (λ found _.
              elim found
                as (λ found.
                  Q
                    (on_option found (raise error (lit "unknown handle"))
                      (click_on hai c.pending handle action value)
                      (outside (hai.store.get_payload handle c.id) t).1).0
                    (on_option found (raise error (lit "unknown handle"))
                      (click_on hai c.pending handle action value)
                      (outside (hai.store.get_payload handle c.id) t).1).1) [
                        | none ↦ refl
                        | some r ↦
                            bound-Recorded handle action value r
                              (outside (hai.store.get_payload handle c.id) t).1 clickable
                      ])
            (λ e _. refl))
        (λ e _. refl)
