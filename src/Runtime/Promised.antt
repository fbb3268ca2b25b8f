-- ===== src/Runtime/Promised.antt =====
-- That two writes answer a call of `hai.update`: `update` of packages/server/src/runtime.ts.
use haikit.Prelude.{
  ℕ, ◌+◌, ◌-◌, ◌≤◌, ◌≡◌, refl, Bool, true, false, Bool-cases, ◌⊎◌, inl, inr, Option, none, some,
  List, [], ◌∷◌, map, if◌then◌else◌, arith, Text, ◌=t=◌, =t=_iff, Map, get, set, get-set,
  get-remove, Result, ok, ◌∙◌, ap, subst, sym,
}
use haikit.Runtime.Update.{UpdateJob, Written}
use haikit.Runtime.Queue.{
  UpdateCall, QueuedJob, UpdateQueue, Updates, check_update, first_of, queue_key, key_of_call,
  started, joined, take_call, update, advance, write_done, write_ended, UpdateEvent, called,
  written, run_updates, answer_of,
}
use haikit.Runtime.Queued.{
  times, times_next, times_answered, answered-append, answered-map, replaced_times,
}

-- How many writes of a queue end.
abbrev pub writes : {W : Type 0} → Text → List (UpdateEvent W) → ℕ
writes key [] = 0
writes key (called call ∷ es) = writes key es
writes key (written k r ∷ es) = (if k =t= key then 1 else 0) + writes key es

set_here :
    {V : Type 0} (k key : Text) (v : V) (m : Map V)
    → (k =t= key) ≡ true
    → get key (set k v m) ≡ some v
set_here k key v m p = rw (get-set k key v m, p) refl

set_elsewhere :
    {V : Type 0} (k key : Text) (v : V) (m : Map V)
    → (k =t= key) ≡ false
    → get key (set k v m) ≡ get key m
set_elsewhere k key v m p = rw (get-set k key v m, p) refl

same_text : (key : Text) → (key =t= key) ≡ true
same_text key = (=t=_iff key key).1 refl

module _ {W : Type 0} (c : ℕ) (key : Text) where
  -- A caller waits for the write in flight, or for the next one, and that many are still to end.
  abbrev Awaits : ℕ → UpdateQueue W → Type 0
  Awaits n q = (1 ≤ times c q.running.waiters × 1 ≤ n) ⊎ (1 ≤ times_next c q.next × 2 ≤ n)

  unfoldable Due : ℕ → Updates W → Type 0
  Due n u =
      (1 ≤ times_answered c u.answers)
      ⊎ ((q : UpdateQueue W) × (get key u.updating ≡ some q) × Awaits n q)

  joined-Awaits :
      (n : ℕ) (call : UpdateCall W) (caller : ℕ) (q fresh : UpdateQueue W) (job : UpdateJob)
      → Awaits n q
      → Awaits n (joined (some q) fresh job caller)
  unfolding joined
  joined-Awaits n call caller q fresh job (inl h) = inl h
  joined-Awaits n call caller q fresh job (inr h) =
      inr (omega (arith, replaced_times c caller q.next job), h.1)

  taken-Due :
      (n : ℕ) (r : Result UpdateJob) (call : UpdateCall W) (u : Updates W)
      → Due n u
      → Due n (take_call r call u)
  unfolding take_call Due
  taken-Due n (Result.err e) call u (inl h) =
      inl (omega (arith, answered-append c u.answers ((u.calls, Result.err e) ∷ [])))
  taken-Due n (Result.err e) call u (inr h) = inr h
  taken-Due n (Result.ok job) call u (inl h) = inl h
  taken-Due n (Result.ok job) call u (inr (q, e, h)) =
      let first = first_of call.conversation_id call.handle u.surface_names in
      let k = queue_key call.conversation_id first in
      let fresh = started call first job u.calls in
      elim (Bool-cases (k =t= key)) [
        | inl p ↦ inr (
          joined (some q) fresh job u.calls,
          set_here k key _ u.updating p
              ∙ ap (λ o. some (joined o fresh job u.calls))
                  (subst (λ i. get i u.updating ≡ some q) (sym ((=t=_iff k key).0 p)) e),
          joined-Awaits n call u.calls q fresh job h,
        )
        | inr p ↦ inr (q, set_elsewhere k key _ u.updating p ∙ e, h)
      ]

  advanced-Due :
      (n : ℕ) (o : Option QueuedJob) (q : UpdateQueue W) (u : Updates W)
      → 1 ≤ times_next c o
      → 2 ≤ n
      → (q' : UpdateQueue W) × (get key (advance o key q u.updating) ≡ some q') × Awaits (n - 1) q'
  unfolding advance
  advanced-Due n none q u h l = absurd (omega arith)
  advanced-Due n (some j) q u h l = (
    record q { running = j; next = none },
    set_here key key _ u.updating (same_text key),
    inl (h, omega arith),
  )

  awaited-Due :
      (n : ℕ) (q : UpdateQueue W) (r : Result Written) (u : Updates W)
      → Awaits n q
      → Due (n - 1) (write_done (some q) key r u)
  unfolding write_done Due
  awaited-Due n q r u (inl h) = inl (
      omega (
        arith,
        answered-append c u.answers (map (λ caller. (caller, answer_of r)) q.running.waiters),
        answered-map c (answer_of r) q.running.waiters,
      ))
  awaited-Due n q r u (inr h) = inr (advanced-Due n q.next q u h.0 h.1)

  -- The end of the write that a caller waits for.
  ended-Due :
      (n : ℕ) (o : Option (UpdateQueue W)) (r : Result Written) (u : Updates W)
      → get key u.updating ≡ o
      → Due n u
      → Due (n - 1) (write_done o key r u)
  unfolding write_done Due
  ended-Due n none r u e (inl h) = inl h
  ended-Due n none r u e (inr (q, f, h)) = cc
  ended-Due n (some q) r u e (inl h) = inl (
      omega (
        arith,
        answered-append c u.answers (map (λ caller. (caller, answer_of r)) q.running.waiters),
      ))
  ended-Due n (some q) r u e (inr (q', f, h)) =
      let same : q' ≡ q = cc in awaited-Due n q r u (subst (Awaits n) same h)

  -- The end of another write.
  advanced_elsewhere :
      (k : Text) (o : Option QueuedJob) (q : UpdateQueue W) (m : Map (UpdateQueue W))
      → (k =t= key) ≡ false
      → get key (advance o k q m) ≡ get key m
  unfolding advance
  advanced_elsewhere k none q m p = rw (get-remove k key m, p) refl
  advanced_elsewhere k (some j) q m p = set_elsewhere k key _ m p

  other-Due :
      (n : ℕ) (k : Text) (o : Option (UpdateQueue W)) (r : Result Written) (u : Updates W)
      → (k =t= key) ≡ false
      → Due n u
      → Due n (write_done o k r u)
  unfolding write_done Due
  other-Due n k none r u p h = h
  other-Due n k (some q) r u p (inl h) = inl (
      omega (
        arith,
        answered-append c u.answers (map (λ caller. (caller, answer_of r)) q.running.waiters),
      ))
  other-Due n k (some q) r u p (inr (q', f, h)) =
      inr (q', advanced_elsewhere k q.next q u.updating p ∙ f, h)

  run-Due :
      (updates : Bool) (n : ℕ) (es : List (UpdateEvent W)) (u : Updates W)
      → Due n u
      → n ≤ writes key es
      → 1 ≤ times_answered c (run_updates updates es u).answers
  unfolding Due update write_ended
  run-Due updates n [] u (inl h) l = h
  run-Due updates n [] u (inr (q, e, inl h)) l = absurd (omega arith)
  run-Due updates n [] u (inr (q, e, inr h)) l = absurd (omega arith)
  run-Due updates n (called call ∷ es) u h l =
      run-Due updates n es _ (taken-Due n (check_update updates call) call u h) l
  run-Due updates n (written k r ∷ es) u h l = elim (Bool-cases (k =t= key)) [
    | inl p ↦
        let k_is : k ≡ key = (=t=_iff k key).0 p in
        run-Due updates (n - 1) es _
          (subst (λ i. Due (n - 1) (write_done (get i u.updating) i r u)) (sym k_is)
            (ended-Due n (get key u.updating) r u refl h))
          (ground (arith, p, l))
    | inr p ↦
        run-Due updates n es _ (other-Due n k (get k u.updating) r u p h) (ground (arith, p, l))
  ]

module _ {W : Type 0} where
  joined-Due :
      (caller : ℕ) (o : Option (UpdateQueue W)) (call : UpdateCall W) (first : Text)
      (job : UpdateJob)
      → Awaits caller [] 2 (joined o (started call first job caller) job caller)
  unfolding joined started
  joined-Due caller none call first job = inl (ground arith, omega arith)
  joined-Due caller (some q) call first job =
      inr (ground (arith, replaced_times caller caller q.next job), omega arith)

  -- A call that is accepted is answered once two writes of its surface's queue have ended after it,
  -- whatever else happens in between: later calls and other surfaces' writes never put it off.
  pub update-answered :
      (updates : Bool) (call : UpdateCall W) (job : UpdateJob) (u : Updates W)
      (es : List (UpdateEvent W))
      → check_update updates call ≡ ok job
      → 2 ≤ writes (key_of_call call u) es
      → 1 ≤ times_answered u.calls (run_updates updates es (update updates call u)).answers
  unfolding update take_call Due
  update-answered updates call job u es e l =
      let key = key_of_call call u in
      run-Due u.calls key updates 2 es _
        (rw e
          (inr (_, set_here key key _ u.updating (same_text key), joined-Due u.calls _ call _ job)))
        l
