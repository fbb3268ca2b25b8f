-- ===== src/Runtime/Waking.antt =====
-- That an update that asked to wake wakes: `update` of packages/server/src/runtime.ts.
use haikit.Prelude.{
  ℕ, ◌+◌, ◌≤◌, ◌<◌, ◌≡◌, refl, Bool, true, false, ◌||◌, Bool-cases, inl, inr, Option, none, some,
  List, [], ◌∷◌, ◌==◌, arith, subst, sym, Text, ◌=t=◌, Map, get, set, remove, get-set, get-remove,
  Result, ok,
}
use haikit.Runtime.Update.{UpdateJob, Written}
use haikit.Runtime.Queue.{
  UpdateCall, QueuedJob, UpdateQueue, Updates, check_update, first_of, queue_key, replace, started,
  joined, take_call, update, advance, write_done, write_ended, UpdateEvent, called, written,
  run_updates, no_updates,
}
use haikit.Runtime.Queued.{
  times, times_next, times_queue, times_waiting, Accounted, run_updates-Accounted, replaced_times,
}

or-true : (a b : Bool) → b ≡ true → (a || b) ≡ true
or-true true b h = refl
or-true false b h = h

module _ (c : ℕ) where
  abbrev JobWakes : QueuedJob → Type 0
  JobWakes j = 1 ≤ times c j.waiters → j.job.wake ≡ true

  abbrev NextWakes : Option QueuedJob → Type 0
  NextWakes none = Unit
  NextWakes (some j) = JobWakes j

  replaced_wakes :
      (o : Option QueuedJob) (job : UpdateJob) (caller : ℕ)
      → NextWakes o
      → ((caller == c) ≡ true → job.wake ≡ true)
      → JobWakes (replace o job caller)
  unfolding replace
  replaced_wakes none job caller h w l = w (ground arith)
  replaced_wakes (some behind) job caller h w l = elim (Bool-cases (caller == c)) [
    | inl b ↦ ground (arith, w b)
    | inr b ↦
        or-true job.wake behind.job.wake
          (h (ground (arith, b, replaced_times c caller (some behind) job)))
  ]

  absent-NextWakes : (o : Option QueuedJob) → times_next c o ≡ 0 → NextWakes o
  absent-NextWakes none z = tt
  absent-NextWakes (some j) z = λ l. absurd (omega arith)

module _ {W : Type 0} (c : ℕ) where
  abbrev QueueWakes : UpdateQueue W → Type 0
  QueueWakes q = JobWakes c q.running × NextWakes c q.next

  -- Each write that answers the caller wakes, in these queues.
  abbrev AllWake : Map (UpdateQueue W) → Type 0
  AllWake m = (k : Text) (q : UpdateQueue W) → get k m ≡ some q → QueueWakes q

  AllWake-set :
      (key : Text) (q : UpdateQueue W) (m : Map (UpdateQueue W))
      → QueueWakes q
      → AllWake m
      → AllWake (set key q m)
  AllWake-set key q m w h k p e = elim (Bool-cases (key =t= k)) [
    | inl b ↦ let same : p ≡ q = grind (arith, get-set key k q m) in subst QueueWakes (sym same) w
    | inr b ↦ h k p (grind (arith, get-set key k q m))
  ]

  AllWake-remove : (key : Text) (m : Map (UpdateQueue W)) → AllWake m → AllWake (remove key m)
  AllWake-remove key m h k p e = elim (Bool-cases (key =t= k)) [
    | inl b ↦ grind (arith, get-remove key k m)
    | inr b ↦ h k p (grind (arith, get-remove key k m))
  ]

  joined-QueueWakes :
      (o : Option (UpdateQueue W)) (call : UpdateCall W) (first : Text) (job : UpdateJob)
      (caller : ℕ)
      → ((q : UpdateQueue W) → o ≡ some q → QueueWakes q)
      → ((caller == c) ≡ true → job.wake ≡ true)
      → QueueWakes (joined o (started call first job caller) job caller)
  unfolding joined started
  joined-QueueWakes none call first job caller h w = (λ l. w (ground arith), tt)
  joined-QueueWakes (some q) call first job caller h w =
      ((h q refl).0, replaced_wakes c q.next job caller (h q refl).1 w)

  taken-AllWake :
      (r : Result UpdateJob) (call : UpdateCall W) (u : Updates W)
      → ((job : UpdateJob) → r ≡ ok job → (u.calls == c) ≡ true → job.wake ≡ true)
      → AllWake u.updating
      → AllWake (take_call r call u).updating
  unfolding take_call
  taken-AllWake (Result.err e) call u w h = h
  taken-AllWake (Result.ok job) call u w h =
      let first = first_of call.conversation_id call.handle u.surface_names in
      let key = queue_key call.conversation_id first in
      AllWake-set key _ u.updating
        (joined-QueueWakes (get key u.updating) call first job u.calls (h key) (w job refl)) h

  advanced-AllWake :
      (o : Option QueuedJob) (key : Text) (q : UpdateQueue W) (m : Map (UpdateQueue W))
      → NextWakes c o
      → AllWake m
      → AllWake (advance o key q m)
  unfolding advance
  advanced-AllWake none key q m w h = AllWake-remove key m h
  advanced-AllWake (some j) key q m w h = AllWake-set key _ m (w, tt) h

  done-AllWake :
      (o : Option (UpdateQueue W)) (key : Text) (r : Result Written) (u : Updates W)
      → get key u.updating ≡ o
      → AllWake u.updating
      → AllWake (write_done o key r u).updating
  unfolding write_done
  done-AllWake none key r u e h = h
  done-AllWake (some q) key r u e h = advanced-AllWake q.next key q u.updating (h key q e).1 h

  taken_calls :
      (r : Result UpdateJob) (call : UpdateCall W) (u : Updates W)
      → (take_call r call u).calls ≡ u.calls + 1
  unfolding take_call
  taken_calls (Result.err e) call u = refl
  taken_calls (Result.ok job) call u = refl

  done_calls :
      (o : Option (UpdateQueue W)) (key : Text) (r : Result Written) (u : Updates W)
      → (write_done o key r u).calls ≡ u.calls
  unfolding write_done
  done_calls none key r u = refl
  done_calls (some q) key r u = refl

  -- After the caller's own call.
  run-AllWake :
      (updates : Bool) (es : List (UpdateEvent W)) (u : Updates W)
      → c < u.calls
      → AllWake u.updating
      → AllWake (run_updates updates es u).updating
  unfolding update write_ended
  run-AllWake updates [] u l h = h
  run-AllWake updates (called call ∷ es) u l h =
      let r = check_update updates call in
      run-AllWake updates es _ (omega (arith, taken_calls r call u))
        (taken-AllWake r call u (λ job e b. ground arith) h)
  run-AllWake updates (written key r ∷ es) u l h =
      run-AllWake updates es _ (omega (arith, done_calls (get key u.updating) key r u))
        (done-AllWake (get key u.updating) key r u refl h)

  absent-QueueWakes : (q : UpdateQueue W) → times_queue c q ≡ 0 → QueueWakes q
  absent-QueueWakes q z = (λ l. absurd (omega arith), absent-NextWakes c q.next (omega arith))

  absent-AllWake : (m : Map (UpdateQueue W)) → times_waiting c m ≡ 0 → AllWake m
  unfolding get
  absent-AllWake [] z k q e = cc
  absent-AllWake ((j, p) ∷ m) z k q e = elim (Bool-cases (j =t= k)) [
    | inl b ↦
        let same : p ≡ q = grind (arith, b, e) in
        subst QueueWakes same (absent-QueueWakes p (omega arith))
    | inr b ↦ absent-AllWake m (omega arith) k q (grind (arith, b, e))
  ]

module _ {W : Type 0} where
  -- A call that is accepted and asked to wake is answered by a write that wakes: whatever came before
  -- and comes after, when a write that answers it is in flight, for whichever surface, that write wakes,
  -- also where later calls that did not ask have taken its place.
  pub update-wakes :
      (updates : Bool) (before after : List (UpdateEvent W)) (call : UpdateCall W) (job : UpdateJob)
      (key : Text) (q : UpdateQueue W)
      → check_update updates call ≡ ok job
      → job.wake ≡ true
      → let u = run_updates updates before no_updates in
        get key (run_updates updates after (update updates call u)).updating ≡ some q
        → 1 ≤ times u.calls q.running.waiters
        → q.running.job.wake ≡ true
  unfolding update Accounted
  update-wakes updates before after call job key q e w found l =
      let u = run_updates updates before no_updates in
      let counted = (run_updates-Accounted updates before).1 u.calls in
      (run-AllWake u.calls updates after _
          (omega (arith, taken_calls u.calls (check_update updates call) call u))
          (taken-AllWake u.calls (check_update updates call) call u
            (λ other same b.
              let is : other ≡ job = cc in subst (λ (j : UpdateJob). j.wake ≡ true) (sym is) w)
            (absent-AllWake u.calls u.updating (ground arith)))
          key q found).0
        l
