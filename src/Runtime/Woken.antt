-- ===== src/Runtime/Woken.antt =====
-- A turn that notices start, and that fails before any tool runs: `wakeTurn` of
-- packages/server/src/runtime.ts.
use haikit.Prelude.{
  ℕ, ◌+◌, ◌≡◌, refl, ap, subst, false, Option, none, some, List, [], ◌∷◌, ◌++◌, append_assoc,
  length, take-append, take-length, leb, Result, Error, ◌>>=◌, ◌>>◌, pure, throw, on_result,
  attempt, is_stale_lease, Bool-cases, inl, inr,
}
use haikit.Core.Types.{Conversation, ConversationStatus, Message, Pending}
use haikit.Runtime.Types.{Hai, Turn, status}
use haikit.Runtime.Actions.{amend, gets, outside}
use haikit.Runtime.Notices.{Unread}
use haikit.Runtime.Loop.{run_turn}
use haikit.Runtime.Wake.{
  WakeOutcome, recent_wakes, add_wake, undo_wake, take_notices, undo_failed, run_wake, start_wake,
}
use haikit.Runtime.Keeps.{Holds, Keeps, Keeps-bind, Keeps-outside}
use haikit.Runtime.Batches.{emit_by}
use haikit.Runtime.Until.{IsLoose, Until, Keeps-run_turn}

module _ (before : Conversation) (wakes : List ℕ) (turns : ℕ) where
  -- What the turn may have changed while no tool had run.
  abbrev MayUndo : Conversation → Type 0
  MayUndo c =
      (ms : List Message) × (s : ConversationStatus) × (p : Option Pending) × (n : ℕ) × (w : ℕ) × (c
        ≡ record before {
          messages = before.messages ++ ms;
          status = s;
          pending = p;
          noticed_through = n;
          woke_through = w;
          wakes = wakes;
          wake_turns = turns;
        })

  MayUndo-IsLoose : IsLoose MayUndo
  MayUndo-IsLoose = record {
    pushed = λ c m (ms, s, p, n, w, e). (
      ms ++ m ∷ [],
      s,
      p,
      n,
      w,
      rw e (
          ap
            (λ (l : List Message). record before {
              messages = l;
              status = s;
              pending = p;
              noticed_through = n;
              woke_through = w;
              wakes = wakes;
              wake_turns = turns;
            })
            (append_assoc before.messages ms (m ∷ []))),
    );
    staged = λ c s' (ms, s, p, n, w, e).
        (ms, s', p, n, w, ap (λ (x : Conversation). record x { status = s' }) e);
    parked = λ c p' (ms, s, p, n, w, e).
        (ms, s, p', n, w, ap (λ (x : Conversation). record x { pending = p' }) e);
  }

  -- The conversation as it was, but for the count of the starts.
  abbrev AsBefore : Conversation → Type 0
  AsBefore c = c ≡ record before { pending = none; wakes = wakes; wake_turns = turns }

  undo_wake-AsBefore : (c : Conversation) → MayUndo c → AsBefore (undo_wake before c)
  unfolding undo_wake
  undo_wake-AsBefore c (ms, s, p, n, w, e) =
      rw (e, take-append before.messages ms, take-length before.handles, take-length before.frozen)
        refl

  unfoldable Undone : {W : Type 0} → Result WakeOutcome → Turn W → Type 0
  Undone (Result.ok o) t = Unit
  Undone (Result.err e) t = is_stale_lease e ≡ false → t.ran ≡ false → AsBefore t.conversation

  module _ {W : Type 0} (hai : Hai W) where
    undo_failed-Undone :
        (e : Error) (t : Turn W)
        → Holds (Until MayUndo) t
        → Undone (undo_failed hai before e t).0 (undo_failed hai before e t).1
    unfolding undo_failed gets amend throw ◌>>=◌ Undone
    undo_failed-Undone e t h = elim (Bool-cases (is_stale_lease e)) [
      | inl b ↦ rw b (λ n r. cc (b, n))
      | inr b ↦ rw b (λ n r. rw r (undo_wake-AsBefore t.conversation (h r)))
    ]

    ended-Undone :
        (r : Result (Unit {0})) (t : Turn W)
        → Holds (Until MayUndo) t
        → let m = on_result r (undo_failed hai before) λ _. pure WakeOutcome.woke in
          Undone (m t).0 (m t).1
    unfolding on_result pure Undone
    ended-Undone (Result.ok _) t h = tt
    ended-Undone (Result.err e) t h = undo_failed-Undone e t h

    committed :
        (c : Conversation)
        → Keeps (Until MayUndo) (outside (hai.store.save_conversation c) >> run_turn hai)
    committed c = Keeps-bind _ _ (Keeps-outside _) (λ _. Keeps-run_turn hai MayUndo MayUndo-IsLoose)

    run_wake-Undone :
        (t : Turn W)
        → Holds (Until MayUndo) t
        → Undone (run_wake hai before t).0 (run_wake hai before t).1
    unfolding run_wake gets attempt ◌>>=◌
    run_wake-Undone t h =
        let m = outside (hai.store.save_conversation t.conversation) >> run_turn hai in
        ended-Undone (m t).0 (m t).1 (Keeps.kept (committed t.conversation) t h)

start_wake-Undone :
    {W : Type 0} (hai : Hai W) (unread : Unread) (now : ℕ) (t : Turn W)
    → leb hai.wakes_count (length (recent_wakes hai.wakes_per_ms now t.conversation.wakes)) ≡ false
    → Undone t.conversation
        (add_wake hai.wakes_count now (recent_wakes hai.wakes_per_ms now t.conversation.wakes))
        (t.conversation.wake_turns + 1)
        (start_wake hai unread now t).0
        (start_wake hai unread now t).1
unfolding start_wake gets amend take_notices ◌>>=◌
start_wake-Undone {W} hai unread now t below =
    let before = t.conversation in
    let wakes = add_wake hai.wakes_count now (recent_wakes hai.wakes_per_ms now before.wakes) in
    let turns = before.wake_turns + 1 in
    let after = take_notices unread (record before { woke_through = unread.wake; wakes = wakes }) in
    rw below (
      emit_by (Until (MayUndo before wakes turns)) (λ r t'. Undone before wakes turns r t')
        (status ConversationStatus.streaming (some turns)) (λ _. run_wake hai before)
        (record t { conversation = after })
        (λ _. (_, before.status, before.pending, unread.through, unread.wake, refl))
        (run_wake-Undone before wakes turns hai))

-- Where a turn that notices started fails, the lease is still held and no tool has run, the
-- conversation is as it was before the notices were taken in: the same history, surfaces and status,
-- no question, the notices unread and able to start a turn again. Only the start stays counted.
pub start_wake-undo_wake :
    {W : Type 0} (hai : Hai W) (unread : Unread) (now : ℕ) (t : Turn W) (e : Error)
    → leb hai.wakes_count (length (recent_wakes hai.wakes_per_ms now t.conversation.wakes)) ≡ false
    → (start_wake hai unread now t).0 ≡ Result.err e
    → is_stale_lease e ≡ false
    → (start_wake hai unread now t).1.ran ≡ false
    → (start_wake hai unread now t).1.conversation ≡ record t.conversation {
      pending = none;
      wakes = add_wake hai.wakes_count now (recent_wakes hai.wakes_per_ms now t.conversation.wakes);
      wake_turns = t.conversation.wake_turns + 1;
    }
unfolding Undone
start_wake-undo_wake hai unread now t e below failed held none_ran =
    let wakes =
      add_wake hai.wakes_count now (recent_wakes hai.wakes_per_ms now t.conversation.wakes) in
    subst
      (λ r.
        Undone t.conversation wakes (t.conversation.wake_turns + 1) r
          (start_wake hai unread now t).1)
      failed (start_wake-Undone hai unread now t below) held none_ran
