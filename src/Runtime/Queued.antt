-- ===== src/Runtime/Queued.antt =====
-- That each call of `hai.update` is answered once: `update` of packages/server/src/runtime.ts.
use haikit.Prelude.{
  ℕ, ◌+◌, ◌≡◌, refl, Bool, Bool-cases, inl, inr, Option, none, some, List, [], ◌∷◌, ◌++◌, map,
  if◌then◌else◌, ltb, ◌==◌, arith, Text, ◌=t=◌, =t=_iff, Map, get, set, remove, Distinct,
  Distinct-set, Distinct-remove, remove-absent, Result,
}
use haikit.Runtime.Update.{UpdateJob, Written}
use haikit.Runtime.Queue.{
  UpdateCall, QueuedJob, UpdateQueue, Updates, check_update, first_of, queue_key, replace, started,
  joined, take_call, update, advance, write_done, write_ended, UpdateEvent, called, written,
  no_updates, run_updates, answer_of,
}

-- How many times a caller is in a list, and in the queues.
abbrev pub times : ℕ → List ℕ → ℕ
times c [] = 0
times c (x ∷ xs) = (if x == c then 1 else 0) + times c xs

abbrev pub times_next : ℕ → Option QueuedJob → ℕ
times_next c none = 0
times_next c (some j) = times c j.waiters

abbrev pub times_answered : ℕ → List (ℕ × Result Text) → ℕ
times_answered c xs = times c (map (λ (a : ℕ × Result Text). a.0) xs)

times-append : (c : ℕ) (xs ys : List ℕ) → times c (xs ++ ys) ≡ times c xs + times c ys
times-append c [] ys = omega arith
times-append c (x ∷ xs) ys = omega (arith, times-append c xs ys)

pub answered-append :
    (c : ℕ) (xs ys : List (ℕ × Result Text))
    → times_answered c (xs ++ ys) ≡ times_answered c xs + times_answered c ys
answered-append c [] ys = omega arith
answered-append c (a ∷ xs) ys = omega (arith, answered-append c xs ys)

pub answered-map :
    (c : ℕ) (r : Result Text) (xs : List ℕ)
    → times_answered c (map (λ caller. (caller, r)) xs) ≡ times c xs
answered-map c r [] = refl
answered-map c r (x ∷ xs) = omega (arith, answered-map c r xs)

pub replaced_times :
    (c n : ℕ) (o : Option QueuedJob) (job : UpdateJob)
    → times c (replace o job n).waiters ≡ times_next c o + (if n == c then 1 else 0)
unfolding replace
replaced_times c n none job = omega arith
replaced_times c n (some behind) job = omega (arith, times-append c behind.waiters (n ∷ []))

module _ {W : Type 0} where
  abbrev pub times_queue : ℕ → UpdateQueue W → ℕ
  times_queue c q = times c q.running.waiters + times_next c q.next

  abbrev pub times_queued : ℕ → Option (UpdateQueue W) → ℕ
  times_queued c none = 0
  times_queued c (some q) = times_queue c q

  abbrev pub times_waiting : ℕ → Map (UpdateQueue W) → ℕ
  times_waiting c [] = 0
  times_waiting c ((k, q) ∷ m) = times_queue c q + times_waiting c m

  times_waiting-set :
      (c : ℕ) (k : Text) (q : UpdateQueue W) (m : Map (UpdateQueue W))
      → times_waiting c (set k q m) + times_queued c (get k m) ≡ times_waiting c m + times_queue c q
  unfolding set get
  times_waiting-set c k q [] = omega arith
  times_waiting-set c k q ((j, p) ∷ m) = elim (Bool-cases (j =t= k)) [
    | inl e ↦ rw e (omega arith)
    | inr e ↦ rw e (let rest = times_waiting-set c k q m in omega arith)
  ]

  times_waiting-remove :
      (c : ℕ) (k : Text) (m : Map (UpdateQueue W))
      → Distinct m
      → times_waiting c (remove k m) + times_queued c (get k m) ≡ times_waiting c m
  unfolding remove get Distinct
  times_waiting-remove c k [] d = refl
  times_waiting-remove c k ((j, p) ∷ m) d = elim (Bool-cases (j =t= k)) [
    | inl e ↦ ground (arith, e, d.0, remove-absent k m, =t=_iff j k)
    | inr e ↦ rw e (let rest = times_waiting-remove c k m (d.1) in omega arith)
  ]

  -- Every call so far waits in one queue, or was answered, once; and nobody else.
  unfoldable pub Accounted : Updates W → Type 0
  Accounted u =
      Distinct u.updating
      × ((c : ℕ)
          → times_answered c u.answers + times_waiting c u.updating
            ≡ (if ltb c u.calls then 1 else 0))

  joined_times :
      (c n : ℕ) (o : Option (UpdateQueue W)) (call : UpdateCall W) (first : Text) (job : UpdateJob)
      → times_queue c (joined o (started call first job n) job n)
        ≡ times_queued c o + (if n == c then 1 else 0)
  unfolding joined started
  joined_times c n none call first job = omega arith
  joined_times c n (some q) call first job = omega (arith, replaced_times c n q.next job)

  Distinct-advance :
      (o : Option QueuedJob) (key : Text) (q : UpdateQueue W) (m : Map (UpdateQueue W))
      → Distinct m
      → Distinct (advance o key q m)
  unfolding advance
  Distinct-advance none key q m d = Distinct-remove key m d
  Distinct-advance (some j) key q m d = Distinct-set key _ m d

  advanced_times :
      (c : ℕ) (o : Option QueuedJob) (key : Text) (q : UpdateQueue W) (m : Map (UpdateQueue W))
      → Distinct m
      → times_waiting c (advance o key q m) + times_queued c (get key m)
        ≡ times_waiting c m + times_next c o
  unfolding advance
  advanced_times c none key q m d = omega (arith, times_waiting-remove c key m d)
  advanced_times c (some j) key q m d =
      omega (arith, times_waiting-set c key (record q { running = j; next = none }) m)

  taken-Accounted :
      (r : Result UpdateJob) (call : UpdateCall W) (u : Updates W)
      → Accounted u
      → Accounted (take_call r call u)
  unfolding take_call Accounted
  taken-Accounted (Result.err e) call u (d, h) =
      (d, λ c. ground (arith, answered-append c u.answers ((u.calls, Result.err e) ∷ []), h c))
  taken-Accounted (Result.ok job) call u (d, h) =
      let first = first_of call.conversation_id call.handle u.surface_names in
      let key = queue_key call.conversation_id first in
      let q = joined (get key u.updating) (started call first job u.calls) job u.calls in
      (
        Distinct-set key q u.updating d,
        λ c. ground (
          arith,
          times_waiting-set c key q u.updating,
          joined_times c u.calls (get key u.updating) call first job,
          h c,
        ),
      )

  done-Accounted :
      (o : Option (UpdateQueue W)) (key : Text) (r : Result Written) (u : Updates W)
      → get key u.updating ≡ o
      → Accounted u
      → Accounted (write_done o key r u)
  unfolding write_done Accounted
  done-Accounted none key r u e h = h
  done-Accounted (some q) key r u e (d, h) = (
    Distinct-advance q.next key q u.updating d,
    λ c.
        let advanced = advanced_times c q.next key q u.updating d in
        omega (
          arith,
          answered-append c u.answers (map (λ caller. (caller, answer_of r)) q.running.waiters),
          answered-map c (answer_of r) q.running.waiters,
          rw e at advanced,
          h c,
        ),
  )

  run-Accounted :
      (updates : Bool) (es : List (UpdateEvent W)) (u : Updates W)
      → Accounted u
      → Accounted (run_updates updates es u)
  unfolding update write_ended
  run-Accounted updates [] u h = h
  run-Accounted updates (called call ∷ es) u h =
      run-Accounted updates es _ (taken-Accounted (check_update updates call) call u h)
  run-Accounted updates (written key r ∷ es) u h =
      run-Accounted updates es _ (done-Accounted (get key u.updating) key r u refl h)

  -- Whatever calls come and however their writes end, in any order, each call so far was answered once
  -- and waits no more, or waits in one queue and has no answer yet; nobody else is answered.
  pub run_updates-Accounted :
      (updates : Bool) (es : List (UpdateEvent W)) → Accounted (run_updates updates es no_updates)
  unfolding Accounted Distinct
  run_updates-Accounted updates es = run-Accounted updates es no_updates (tt, λ c. ground arith)
