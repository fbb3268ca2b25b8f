-- ===== src/Runtime/Openings.antt =====
-- The history through a start without a message: `start` of packages/server/src/runtime.ts.
use haikit.Prelude.{
  ℕ, subst, Bool, true, false, Option, none, some, lit, Result, ◌>>=◌, ◌>>◌, pure, on_option, inr,
  bind_by,
}
use haikit.Core.Types.{Content}
use haikit.Runtime.Types.{Hai, Turn, Tool}
use haikit.Runtime.Actions.{amend, gets}
use haikit.Runtime.Notices.{with_text, unread_notices, announce}
use haikit.Runtime.Loop.{finish_turn}
use haikit.Runtime.Start.{run_init, init_for, rest_idle, start}
use haikit.Runtime.Keeps.{Keeps, Keeps-amend, keeps_rules}
use haikit.Runtime.Complete.{finish-Ended, complete_fits, Ended, ended, IsComplete}
use haikit.Runtime.Unread.{OnlyTexts, unread_notices-OnlyTexts, Keeps-unread_notices}
use haikit.Runtime.Requests.{with_text-answers, Whole}
use haikit.Runtime.Starts.{IsPlain, Started, run_init-Started}

module _ {W : Type 0} (hai : Hai W) where
  rest_idle-Ended :
      (parked : Bool) (t : Turn W)
      → Started t.conversation (Result.ok parked)
      → Ended (rest_idle hai parked t).1.conversation (rest_idle hai parked t).0
  unfolding rest_idle finish_turn pure Ended
  rest_idle-Ended true t h = h
  rest_idle-Ended false t h = finish-Ended hai t (complete_fits t.conversation h)

  Keeps-cleared : Keeps {W = W} Whole (amend (λ c. record c { announcing = none }))
  Keeps-cleared = Keeps-amend (λ c. record c { announcing = none }) (λ t h. h)

  Keeps-announce-whole : Keeps Whole (announce hai)
  unfolding announce
  Keeps-announce-whole = search (keeps_rules, Keeps-cleared) depth 14

  init-Ended :
      (init : Tool W) (message : Content) (through : ℕ) (t : Turn W)
      → IsPlain message
      → IsComplete t.conversation
      → let m = run_init hai init message through >>= rest_idle hai in
        Ended (m t).1.conversation (m t).0
  unfolding Ended
  init-Ended init message through t p h =
      let t1 : Turn W = (run_init hai init message through t).1 in
      let Now : Result Bool → Type 0 = Started t1.conversation in
      let begun = run_init-Started hai init message through t p h in
      bind_by (λ r t'. Ended t'.conversation r) (run_init hai init message through) (rest_idle hai)
        t (λ parked e. rest_idle-Ended parked t1 (subst Now e begun))
        (λ x e. inr (subst Now e begun))

  starting-Ended :
      (o : Option (Tool W)) (t : Turn W)
      → IsComplete t.conversation
      → let m = on_option o (pure tt) λ init.
        announce hai
        >> (unread_notices hai >>= λ unread.
            run_init hai init (with_text unread.texts (lit "[conversation started]")) unread.through
            >>= rest_idle hai) in
        Ended (m t).1.conversation (m t).0
  unfolding on_option pure IsPlain
  starting-Ended none t h = ended _ _ (complete_fits t.conversation h)
  starting-Ended (some init) t h =
      let Q : Result (Unit {0}) → Turn W → Type 0 = λ r t'. Ended t'.conversation r in
      let t1 : Turn W = (announce hai t).1 in
      let whole1 = Keeps.kept Keeps-announce-whole t h in
      bind_by Q (announce hai) _ t
        (λ _ _.
          let t2 : Turn W = (unread_notices hai t1).1 in
          let whole2 = Keeps.kept (Keeps-unread_notices hai Whole) t1 whole1 in
          bind_by Q (unread_notices hai) _ t1
            (λ unread e.
              init-Ended init (with_text unread.texts (lit "[conversation started]")) unread.through
                t2
                (with_text-answers unread.texts _
                  (subst OnlyTexts e (unread_notices-OnlyTexts hai t1)))
                whole2)
            (λ x _. ended _ _ (complete_fits _ whole2)))
        (λ x _. ended _ _ (complete_fits _ whole1))

  -- From a history without a question, in which each message answers, in some order, exactly the calls
  -- of the one before it, a start leaves such a history, or one whose last calls the question that
  -- waits answers; unless it ends by the loss of the lease.
  pub start-Ended :
      (t : Turn W) → IsComplete t.conversation → Ended (start hai t).1.conversation (start hai t).0
  unfolding start gets ◌>>=◌
  start-Ended t h = starting-Ended (init_for hai t.conversation) t h
