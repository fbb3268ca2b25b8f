-- ===== src/Runtime/Requests.antt =====
-- The history through a click: `interact` of packages/server/src/runtime.ts.
use haikit.Prelude.{
  ◌≡◌, refl, sym, ap, subst, ◌∙◌, inr, Bool, true, false, Option, none, some, List, [], ◌∷◌, ◌++◌,
  append-nil, Text, lit, Result, ok, Exec, ◌>>=◌, pure, on_option, bind_by, if◌then◌else◌,
}
use mathlib.Core.List.{Perm}
use mathlib.Core.List.Perm
use haikit.Core.Json.{Json}
use haikit.Core.Types.{
  Conversation, Pending, ContentBlock, Content, text, tool_result, blocks, user,
}
use haikit.Runtime.Types.{Hai, Turn, ui_state, interaction_block}
use haikit.Runtime.Actions.{emit, nid, amend, gets}
use haikit.Runtime.Windows.{refuse_if_expired}
use haikit.Runtime.Notices.{announce, with_text}
use haikit.Runtime.Loop.{run_turn}
use haikit.Runtime.Click.{record_click, follow_click, click, interact}
use haikit.Runtime.Keeps.{Claim, Keeps, Keeps-amend, Keeps-nid, keeps_rules}
use haikit.Runtime.Frame.{Keeps-refuse_if_expired}
use haikit.Runtime.History.{
  result_ids, result_ids-append, uses, answers, waiting, Leads, Leads-push, IsWellFormed,
}
use haikit.Runtime.Batches.{emit_by}
use haikit.Runtime.Complete.{complete_fits, Fits, Ended, ended, IsComplete, run_turn-Ended}
use haikit.Runtime.Undo.{Says, Taken, Recorded, record_click-Recorded}

-- What a message of notices and text answers: nothing.
pub with_text-answers :
    (texts : List ContentBlock) (t : Text)
    → result_ids texts ≡ []
    → answers (record { role = user; content = with_text texts t }) ≡ []
unfolding answers with_text
with_text-answers [] t n = refl
with_text-answers (b ∷ bs) t n =
    result_ids-append (b ∷ bs) (text t ∷ []) ∙ append-nil (result_ids (b ∷ bs)) ∙ n

Says-answers :
    (texts : List ContentBlock) (typed : Text) (content : Content)
    → Says texts typed content
    → result_ids texts ≡ []
    → answers (record { role = user; content = content }) ≡ []
unfolding answers
Says-answers [] typed content says n = rw says refl
Says-answers (b ∷ bs) typed content says n =
    rw says (result_ids-append (b ∷ bs) (text typed ∷ []) ∙ append-nil (result_ids (b ∷ bs)) ∙ n)

-- A click that is recorded answers the question that waits, so the history is complete.
Taken-IsComplete :
    (p : Option Pending) (handle label : Text) (before after : Conversation)
    → before.pending ≡ p
    → Leads [] before.messages (waiting p)
    → Taken p handle label before after
    → IsComplete after
unfolding uses answers
Taken-IsComplete none handle label before after e l (texts, n, through, content, says, q) =
    subst IsComplete (sym q) (
      Leads-push [] before.messages (record { role = user; content = content }) [] l
          (subst (Perm []) (sym (Says-answers texts _ content says n)) (Perm.refl [])),
      e,
    )
Taken-IsComplete (some p) handle label before after e l (texts, n, through, q) =
    let said = p.digest ++ lit "\n" ++ label in
    subst IsComplete (sym q) (
      Leads-push [] before.messages
          (record {
            role = user;
            content = blocks (p.results ++ tool_result p.tool_use_id said ∷ texts);
          })
          (waiting (some p)) l
          (subst (Perm (waiting (some p)))
            (sym (
              result_ids-append p.results (tool_result p.tool_use_id said ∷ texts)
              ∙ ap (λ ids. result_ids p.results ++ p.tool_use_id ∷ ids) n))
            (Perm.refl (waiting (some p)))),
      refl,
    )

pub fits-Leads : (c : Conversation) → IsWellFormed c → Leads [] c.messages (waiting c.pending)
unfolding IsWellFormed
fits-Leads c h = h

pub unless_stale :
    {W : Type 0} (stale : Bool) (m : Exec (Turn W) (Unit {0})) (t : Turn W)
    → IsWellFormed t.conversation
    → Ended (m t).1.conversation (m t).0
    → Ended ((if stale then pure tt else m) t).1.conversation ((if stale then pure tt else m) t).0
unfolding pure
unless_stale true m t h k = ended _ (ok tt) h
unless_stale false m t h k = k

abbrev pub Whole : Claim
Whole ran asked asking lost c = IsComplete c

module _ {W : Type 0} (hai : Hai W) where
  Keeps-cleared : Keeps {W = W} Fits (amend (λ c. record c { announcing = none }))
  unfolding IsWellFormed
  Keeps-cleared = Keeps-amend (λ c. record c { announcing = none }) (λ t h. h)

  pub Keeps-announce : Keeps Fits (announce hai)
  unfolding announce
  Keeps-announce = search (keeps_rules, Keeps-cleared) depth 14

  Keeps-told_click :
      (pending : Option Pending) (handle label : Text) (parsed : Json)
      → Keeps {W = W} Whole (on_option pending (pure tt) λ p. emit (ui_state handle (some parsed)))
  Keeps-told_click pending handle label parsed = search keeps_rules

  follow_click-Ended :
      (pending : Option Pending) (handle label : Text) (parsed : Json) (t : Turn W)
      → IsComplete t.conversation
      → Ended
          (follow_click hai pending handle parsed label t).1.conversation
          (follow_click hai pending handle parsed label t).0
  unfolding follow_click
  follow_click-Ended pending handle label parsed t h =
      let Q : Result (Unit {0}) → Turn W → Type 0 = λ r t'. Ended t'.conversation r in
      let tell = on_option pending (pure tt) λ p. emit (ui_state handle (some parsed)) in
      let t1 : Turn W = (tell t).1 in
      let whole = Keeps.kept (Keeps-told_click pending handle label parsed) t h in
      bind_by Q tell _ t
        (λ u _.
          bind_by Q (nid hai (lit "b")) _ t1
            (λ id _.
              let t2 : Turn W = (nid hai (lit "b") t1).1 in
              let whole2 = Keeps.kept {P = Whole} (Keeps-nid hai (lit "b")) t1 whole in
              emit_by Whole Q (interaction_block id handle label) (λ _. run_turn hai) t2 whole2
                (run_turn-Ended hai))
            (λ e _.
              ended _ _
                (complete_fits _ (Keeps.kept {P = Whole} (Keeps-nid hai (lit "b")) t1 whole))))
        (λ e _. ended _ _ (complete_fits _ whole))

  click-Ended :
      (handle action : Text) (value : Json) (t : Turn W)
      → IsWellFormed t.conversation
      → Ended (click hai handle action value t).1.conversation (click hai handle action value t).0
  unfolding click gets ◌>>=◌ Recorded Ended
  click-Ended handle action value t h =
      let c = t.conversation in
      let t1 : Turn W = (record_click hai handle action value t).1 in
      let Clicked : Result (Json × Text) → Type 0 = Recorded handle c t1.conversation in
      let recorded = record_click-Recorded hai handle action value t in
      bind_by (λ r t'. Ended t'.conversation r) (record_click hai handle action value) _ t
        (λ (parsed, label) e.
          let done = subst Clicked e recorded in
          follow_click-Ended c.pending handle label parsed t1 (
            Taken-IsComplete c.pending handle label c t1.conversation refl (fits-Leads c h) done.2))
        (λ x e. inr (subst IsWellFormed (sym (subst Clicked e recorded)) h))

  -- From a history in which each message answers, in some order, exactly the calls of the one before
  -- it, and the question that waits those of the last, a click leaves such a history, whether it is
  -- refused, fails or is followed by the model; unless it ends by the loss of the lease.
  pub interact-Ended :
      (handle action : Text) (value : Json) (t : Turn W)
      → IsWellFormed t.conversation
      → Ended
          (interact hai handle action value t).1.conversation
          (interact hai handle action value t).0
  unfolding interact
  interact-Ended handle action value t h =
      let Q : Result (Unit {0}) → Turn W → Type 0 = λ r t'. Ended t'.conversation r in
      let t1 : Turn W = (announce hai t).1 in
      let kept1 = Keeps.kept Keeps-announce t h in
      bind_by Q (announce hai) _ t
        (λ u _.
          let t2 : Turn W = (refuse_if_expired hai true t1).1 in
          let kept2 = Keeps.kept (Keeps-refuse_if_expired hai Fits true) t1 kept1 in
          bind_by Q (refuse_if_expired hai true) _ t1
            (λ stale _.
              unless_stale stale (click hai handle action value) t2 kept2
                (click-Ended handle action value t2 kept2))
            (λ e _. ended _ _ kept2))
        (λ e _. ended _ _ kept1)
