-- ===== src/Runtime/Messages.antt =====
-- The history through a message: `send` of packages/server/src/runtime.ts.
use haikit.Prelude.{
  ℕ, ◌≡◌, refl, sym, subst, Bool, true, false, Option, none, some, [], ◌∷◌, ◌++◌, Text, lit, Result,
  Exec, ◌>>=◌, ◌>>◌, pure, on_option, Option-cases, Bool-cases, inl, inr, bind_by, if◌then◌else◌,
}
use mathlib.Core.List.{Perm}
use mathlib.Core.List.Perm
use haikit.Core.Types.{Conversation, Pending, Content, tool_result, blocks, user}
use haikit.Runtime.Types.{Hai, Turn, Tool, user_block, ui_state}
use haikit.Runtime.Actions.{emit, amend, gets, push, nid}
use haikit.Runtime.Windows.{refuse_if_expired}
use haikit.Runtime.Notices.{with_text, unread_notices, announce}
use haikit.Runtime.Loop.{run_turn}
use haikit.Runtime.Start.{
  is_awaiting, decline, record_message, run_init, close_pending, init_for, take_message, send_fresh,
  send,
}
use haikit.Runtime.Keeps.{Claim, Holds, Keeps, Keeps-nid, Keeps-amend, keeps_rules}
use haikit.Runtime.Frame.{Keeps-refuse_if_expired}
use haikit.Runtime.Batches.{emit_by}
use haikit.Runtime.History.{
  result_ids-append, uses, answers, waiting, Leads, Leads-push, IsWellFormed,
}
use haikit.Runtime.Complete.{complete_fits, Ended, ended, IsComplete, run_turn-Ended}
use haikit.Runtime.Unread.{OnlyTexts, unread_notices-OnlyTexts, Keeps-unread_notices}
use haikit.Runtime.Requests.{with_text-answers, unless_stale, Whole}
use haikit.Runtime.Starts.{IsPlain, push-IsPlain, Started, run_init-Started}

parked-Ended :
    {W : Type 0} (parked : Bool) (t : Turn W) (next : Exec (Turn W) (Unit {0}))
    → Started t.conversation (Result.ok parked)
    → ((t' : Turn W) → IsComplete t'.conversation → Ended (next t').1.conversation (next t').0)
    → let n = if parked then pure tt else next in Ended (n t).1.conversation (n t).0
unfolding pure Ended
parked-Ended true t next s k = s
parked-Ended false t next s k = k t s

-- A question waits only where the status says so.
abbrev pub IsAnswerable : Conversation → Type 0
IsAnswerable c = (p : Pending) → c.pending ≡ some p → is_awaiting c.status ≡ true

-- The question that waits is closed.
declined :
    (typed : Text) (p : Pending) (c : Conversation)
    → IsWellFormed c
    → c.pending ≡ some p
    → IsComplete (decline typed p c)
unfolding decline IsWellFormed uses answers
declined typed p c h e =
    let said = p.digest ++ lit "\nUser did not select; they said: \"" ++ typed ++ lit "\"" in
    (
      Leads-push [] c.messages
          (record {
            role = user;
            content = blocks (p.results ++ tool_result p.tool_use_id said ∷ []);
          })
          (waiting (some p)) (subst (λ o. Leads [] c.messages (waiting o)) e h)
          (subst (Perm (waiting (some p)))
            (sym (result_ids-append p.results (tool_result p.tool_use_id said ∷ [])))
            (Perm.refl (waiting (some p)))),
      refl,
    )

module _ {W : Type 0} (hai : Hai W) where
  -- After a start: with true it rests, else the model runs, or the conversation does.
  then-Ended :
      (m : Exec (Turn W) Bool) (next : Exec (Turn W) (Unit {0})) (t : Turn W)
      → Started (m t).1.conversation (m t).0
      → ((t' : Turn W) → IsComplete t'.conversation → Ended (next t').1.conversation (next t').0)
      → let n = m >>= λ parked. if parked then pure tt else next in
        Ended (n t).1.conversation (n t).0
  unfolding pure Ended
  then-Ended m next t s k =
      let Now : Result Bool → Type 0 = Started (m t).1.conversation in
      bind_by (λ r t'. Ended t'.conversation r) m (λ parked. if parked then pure tt else next) t
        (λ parked e. parked-Ended parked (m t).1 next (subst Now e s) k)
        (λ x e. inr (subst Now e s))

  take_message-Ended :
      (starting : Option (Tool W)) (message : Content) (through : ℕ) (t : Turn W)
      → IsPlain message
      → IsComplete t.conversation
      → Ended
          (take_message hai starting message through t).1.conversation
          (take_message hai starting message through t).0
  unfolding take_message on_option record_message push amend ◌>>=◌
  take_message-Ended none message through t p h =
      run_turn-Ended hai _ (push-IsPlain t.conversation message through p h)
  take_message-Ended (some init) message through t p h =
      then-Ended (run_init hai init message through) (run_turn hai) t
        (run_init-Started hai init message through t p h) (run_turn-Ended hai)

  abbrev Closed : Result (Unit {0}) → Turn W → Type 0
  Closed (Result.ok _) t = IsComplete t.conversation
  Closed (Result.err e) t = ⊥

  closing-Closed :
      (typed : Text) (o : Option Pending) (t : Turn W)
      → t.conversation.pending ≡ o
      → IsWellFormed t.conversation
      → let m = on_option o (pure tt) λ p.
        amend (λ c. record c { frozen = c.frozen ++ p.handle ∷ [] })
        >> emit (ui_state p.handle none)
        >> amend (decline typed p) in
        Closed (m t).0 (m t).1
  unfolding on_option pure amend ◌>>=◌ IsWellFormed
  closing-Closed typed none t e h =
      (subst (λ o. Leads [] t.conversation.messages (waiting o)) e h, e)
  closing-Closed typed (some p) t e h =
      let asks : Claim = λ r a k l c. IsWellFormed c × (c.pending ≡ some p) in
      emit_by asks Closed (ui_state p.handle none) (λ _. amend (decline typed p)) _ (h, e)
        (λ t' k. declined typed p t'.conversation k.0 k.1)

  pending-IsAnswerable :
      (c : Conversation)
      → IsAnswerable c
      → c.pending ≡ (if is_awaiting c.status then c.pending else none)
  pending-IsAnswerable c a = elim (Option-cases c.pending) [
    | inl e ↦ elim (Bool-cases (is_awaiting c.status)) [ inl b ↦ rw b refl | inr b ↦ rw b e ]
    | inr (p, e) ↦ rw (a p e) refl
  ]

  close_pending-Closed :
      (typed : Text) (t : Turn W)
      → IsWellFormed t.conversation
      → IsAnswerable t.conversation
      → Closed (close_pending hai typed t).0 (close_pending hai typed t).1
  unfolding close_pending gets ◌>>=◌ amend
  close_pending-Closed typed t h a =
      closing-Closed typed
        (if is_awaiting t.conversation.status then t.conversation.pending else none) t
        (pending-IsAnswerable t.conversation a) h

  -- From the reading of the notices on.
  abbrev Ready : Claim
  Ready r a k l c = IsWellFormed c × IsAnswerable c

  close_pending-Ended :
      (typed : Text) (message : Content) (through : ℕ) (starting : Option (Tool W)) (t : Turn W)
      → IsPlain message
      → Holds Ready t
      → let m =
          close_pending hai typed
          >> (nid hai (lit "b") >>= λ id.
              emit (user_block id typed) >> take_message hai starting message through) in
        Ended (m t).1.conversation (m t).0
  close_pending-Ended typed message through starting t p h =
      let Q : Result (Unit {0}) → Turn W → Type 0 = λ r t'. Ended t'.conversation r in
      let t1 : Turn W = (close_pending hai typed t).1 in
      let Now : Result (Unit {0}) → Type 0 = λ r. Closed r t1 in
      let closed = close_pending-Closed typed t h.0 h.1 in
      bind_by Q (close_pending hai typed) _ t
        (λ _ e.
          let t2 : Turn W = (nid hai (lit "b") t1).1 in
          let complete = Keeps.kept {P = Whole} (Keeps-nid hai (lit "b")) t1 (subst Now e closed) in
          bind_by Q (nid hai (lit "b")) _ t1
            (λ id _.
              emit_by Whole Q (user_block id typed) (λ _. take_message hai starting message through)
                t2 complete (λ t' w. take_message-Ended starting message through t' p w))
            (λ x _. ended _ _ (complete_fits _ complete)))
        (λ x e. absurd (subst Now e closed))

  send_fresh-Ended :
      (typed : Text) (t : Turn W)
      → Holds Ready t
      → Ended (send_fresh hai typed t).1.conversation (send_fresh hai typed t).0
  unfolding send_fresh gets ◌>>=◌ IsPlain
  send_fresh-Ended typed t h =
      let Q : Result (Unit {0}) → Turn W → Type 0 = λ r t'. Ended t'.conversation r in
      let t1 : Turn W = (unread_notices hai t).1 in
      let ready = Keeps.kept (Keeps-unread_notices hai Ready) t h in
      bind_by Q (unread_notices hai) _ t
        (λ unread e.
          close_pending-Ended typed (with_text unread.texts typed) unread.through
            (init_for hai t.conversation) t1
            (with_text-answers unread.texts typed
              (subst OnlyTexts e (unread_notices-OnlyTexts hai t)))
            ready)
        (λ x _. ended _ _ ready.0)

  Keeps-cleared-Ready : Keeps {W = W} Ready (amend (λ c. record c { announcing = none }))
  unfolding IsWellFormed
  Keeps-cleared-Ready = Keeps-amend (λ c. record c { announcing = none }) (λ t h. h)

  Keeps-announce-Ready : Keeps Ready (announce hai)
  unfolding announce
  Keeps-announce-Ready = search (keeps_rules, Keeps-cleared-Ready) depth 14

  -- From a history in which each message answers, in some order, exactly the calls of the one before
  -- it, and the question that waits those of the last, and where a question waits only under the
  -- status that says so, a message leaves such a history: whether it is refused, starts the
  -- conversation, closes a question, fails or is followed by the model; unless it ends by the loss of
  -- the lease.
  pub send-Ended :
      (typed : Text) (t : Turn W)
      → IsWellFormed t.conversation
      → IsAnswerable t.conversation
      → Ended (send hai typed t).1.conversation (send hai typed t).0
  unfolding send
  send-Ended typed t h a =
      let Q : Result (Unit {0}) → Turn W → Type 0 = λ r t'. Ended t'.conversation r in
      let t1 : Turn W = (announce hai t).1 in
      let ready1 = Keeps.kept Keeps-announce-Ready t (h, a) in
      bind_by Q (announce hai) _ t
        (λ u _.
          let t2 : Turn W = (refuse_if_expired hai true t1).1 in
          let ready2 = Keeps.kept (Keeps-refuse_if_expired hai Ready true) t1 ready1 in
          bind_by Q (refuse_if_expired hai true) _ t1
            (λ stale _.
              unless_stale stale (send_fresh hai typed) t2 ready2.0
                (send_fresh-Ended typed t2 ready2))
            (λ e _. ended _ _ ready2.0))
        (λ e _. ended _ _ ready1.0)
