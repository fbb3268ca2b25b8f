-- ===== src/Signals/Flush.antt =====
-- The publishes that wait: `publish` and `flush` of packages/server/src/signals.ts.
use haikit.Prelude.{
  ℕ, zero, suc, ◌+◌, ltb, leb, ◌==◌, ◌≡◌, refl, sym, ap, subst, ◌∙◌, Bool, true, false, ◌&&◌,
  Bool-cases, Option-cases, inl, inr, Option, none, some, List, [], ◌∷◌, ◌++◌, append_assoc,
  append-nil, map, if◌then◌else◌, Text, ◌=t=◌, Map, get, set, remove, remove-first, Distinct,
  Distinct-set, Distinct-remove, length, min,
}
use haikit.Signals.Broadcast.{
  Broadcast, Config, Body, signal, presence, Stream, Event, Output, published, local, max_safe,
  others, still_heard, key_of, values, flush_next, publish, recount, tell, changed, send, start,
  arrived, opened, left_by, close_found, closed, take_out, replay, end_grace, grace_ended,
  on_presence, stopped, hear_count, hear, beat, settled, step, run, created, or_else, is_none,
}

-- Each key waits once, and nothing waits while no publish is in flight.
abbrev Rest : Bool → Map Body → Type 0
Rest true m = Unit
Rest false m = m ≡ []

abbrev InLine : Broadcast → Type 0
InLine s = Distinct s.unsent × Rest s.publishing s.unsent

flush_next-InLine :
    (m : Map Body) (s : Broadcast)
    → s.unsent ≡ m
    → Distinct m
    → s.publishing ≡ true
    → InLine (flush_next m s)
unfolding flush_next Distinct
flush_next-InLine [] s e d p = (subst Distinct (sym e) tt, e)
flush_next-InLine ((k, b) ∷ m) s e d p = (
  Distinct-remove k s.unsent (subst Distinct (sym e) d),
  subst (λ x. Rest x (remove k s.unsent)) (sym p) tt,
)

settled-InLine : (s : Broadcast) → InLine s → InLine (settled s)
unfolding settled
settled-InLine s h = elim (Bool-cases s.publishing) [
  | inl p ↦ simp p (flush_next-InLine s.unsent s refl h.0 p)
  | inr p ↦ simp p (h.0, subst (λ x. Rest x s.unsent) p h.1)
]

left_by-InLine : (c : Text) (n : ℕ) (s : Broadcast) → InLine s → InLine (left_by c n s)
unfolding left_by
left_by-InLine c zero s h = h
left_by-InLine c (suc n) s h = h

module _ (config : Config) where
  publish-InLine : (b : Body) (s : Broadcast) → InLine s → InLine (publish config b s)
  unfolding publish
  publish-InLine b s h =
      let unsent = set (key_of b) b (remove (key_of b) s.unsent) in
      let once : Distinct unsent =
        Distinct-set (key_of b) b _ (Distinct-remove (key_of b) s.unsent h.0) in
      elim (Bool-cases config.can_publish) [
        | inr p ↦ simp p h
        | inl p ↦ elim (Bool-cases s.publishing) [
          | inl q ↦ simp (p, q) (once, tt)
          | inr q ↦
              simp (p, q)
                (flush_next-InLine unsent (record s { unsent = unsent; publishing = true }) refl
                  once refl)
        ]
      ]

  recount-InLine : (now : ℕ) (s : Broadcast) → InLine s → InLine (recount config now s)
  unfolding recount
  recount-InLine now s h =
      let total = min (local s + others (still_heard config.heartbeat_ms now s.peers)) max_safe in
      elim (Bool-cases (total == s.total)) [ inl p ↦ simp p h | inr p ↦ simp p h ]

  tell-InLine : (s : Broadcast) → InLine s → InLine (tell config s)
  unfolding tell
  tell-InLine s h = elim (Bool-cases (local s == s.told)) [
    | inl p ↦ simp p h
    | inr p ↦ simp p (publish-InLine (presence (local s)) (record s { told = local s }) h)
  ]

  changed-InLine : (now : ℕ) (s : Broadcast) → InLine s → InLine (changed config now s)
  unfolding changed
  changed-InLine now s h = tell-InLine (recount config now s) (recount-InLine now s h)

  publish_if-InLine :
      (b : Bool) (body : Body) (s : Broadcast)
      → InLine s
      → InLine (if b then publish config body s else s)
  publish_if-InLine true body s h = publish-InLine body s h
  publish_if-InLine false body s h = h

  arrived-InLine :
      (c : Text) (before : ℕ) (w : Option (Unit {0})) (now : ℕ) (s : Broadcast)
      → InLine s
      → InLine (arrived config c before w now s)
  unfolding arrived
  arrived-InLine c before w now s h =
      let s1 : Broadcast = record s {
        leaving = remove c s.leaving;
        opens = set c (before + 1) s.opens;
      } in
      elim (Bool-cases (before == 0 && is_none w)) [
        | inl p ↦ simp p (changed-InLine now s1 h)
        | inr p ↦ simp p h
      ]

  close_found-InLine :
      (found : Option (Stream × List Stream)) (s : Broadcast)
      → InLine s
      → InLine (close_found found s)
  unfolding close_found
  close_found-InLine none s h = h
  close_found-InLine (some (x, xs)) s h = left_by-InLine _ _ (record s { streams = xs }) h

  end_grace-InLine :
      (o : Option (Unit {0})) (c : Text) (now : ℕ) (s : Broadcast)
      → InLine s
      → InLine (end_grace config o c now s)
  unfolding end_grace
  end_grace-InLine none c now s h = h
  end_grace-InLine (some _) c now s h =
      changed-InLine now (record s { leaving = remove c s.leaving }) h

  replay-InLine : (id : ℕ) (s : Broadcast) → InLine s → InLine (replay id s)
  unfolding replay
  replay-InLine id s h = elim (Option-cases (take_out id s.streams)) [
    | inl e ↦ rw (e, replay) h
    | inr (x, e) ↦ rw (e, replay) h
  ]

  hear-InLine :
      (origin : Text) (b : Body) (now : ℕ) (s : Broadcast)
      → InLine s
      → InLine (hear config origin b now s)
  unfolding hear hear_count
  hear-InLine origin (signal e) now s h = elim (Bool-cases (origin =t= config.origin)) [
    | inl p ↦ rw p h
    | inr p ↦ rw p h
  ]
  hear-InLine origin (presence count) now s h = elim (Bool-cases (origin =t= config.origin)) [
    | inl p ↦ rw p h
    | inr p ↦ elim (Bool-cases (leb count max_safe)) [
      | inl q ↦ rw (p, q) (recount-InLine now _ (publish_if-InLine _ (presence (local s)) _ h))
      | inr q ↦ rw (p, q) h
    ]
  ]

  step-InLine : (e : Event) (now : ℕ) (s : Broadcast) → InLine s → InLine (step config e now s)
  unfolding step send opened closed grace_ended on_presence start stopped beat
  step-InLine (Event.sends e) now s h = publish-InLine (signal e) _ h
  step-InLine (Event.opens_stream c) now s h =
      arrived-InLine c (or_else 0 (get c s.opens)) (get c s.leaving) now
        (record s {
          streams = s.streams ++ record { id = s.next_stream; conversation = c } ∷ [];
          next_stream = s.next_stream + 1;
          started = true;
        })
        h
  step-InLine (Event.closes_stream id) now s h = close_found-InLine (take_out id s.streams) s h
  step-InLine (Event.replays id) now s h = replay-InLine id s h
  step-InLine (Event.ends_grace c) now s h = end_grace-InLine (get c s.leaving) c now s h
  step-InLine (Event.listens l) now s h = h
  step-InLine (Event.stops l) now s h = h
  step-InLine (Event.hears origin b) now s h = hear-InLine origin b now s h
  step-InLine Event.beats now s h =
      let s1 = recount config now s in
      publish_if-InLine (ltb 0 (local s1)) (presence (local s1)) s1 (recount-InLine now s h)
  step-InLine Event.settles now s h = settled-InLine s h

  run-InLine : (es : List (Event × ℕ)) (s : Broadcast) → InLine s → InLine (run config es s)
  unfolding run
  run-InLine [] s h = h
  run-InLine ((e, now) ∷ es) s h = run-InLine es (step config e now s) (step-InLine e now s h)

-- The store settles one publish after another.
unfoldable pub settle_all : ℕ → Broadcast → Broadcast
unfolding settled
settle_all zero s = s
settle_all (suc n) s = settle_all n (settled s)

-- Nothing waits, and what waited went out.
abbrev drained : Map Body → Broadcast → Broadcast
drained m s = record s { unsent = []; publishing = false; out = s.out ++ map published (values m) }

settle_all-drained :
    (m : Map Body) (s : Broadcast)
    → Distinct m
    → settle_all (suc (length m)) (record s { unsent = m; publishing = true }) ≡ drained m s
unfolding settle_all settled flush_next Distinct
settle_all-drained [] s d =
    ap (λ (o : List Output). record s { unsent = []; publishing = false; out = o })
      (sym (append-nil s.out))
settle_all-drained ((k, b) ∷ m) s d =
    let sent = s.out ++ published b ∷ [] in
    ap
      (λ (rest : Map Body).
        settle_all (suc (length m)) (record s { unsent = rest; publishing = true; out = sent }))
      (remove-first k b m (d.0))
    ∙ settle_all-drained m (record s { out = sent }) (d.1)
    ∙ ap (λ (o : List Output). record s { unsent = []; publishing = false; out = o })
        (append_assoc s.out (published b ∷ []) (map published (values m)))

settle_all-InLine :
    (p : Bool) (m : Map Body) (s : Broadcast)
    → s.publishing ≡ p
    → s.unsent ≡ m
    → Distinct m
    → Rest p m
    → settle_all (suc (length m)) s ≡ drained m s
unfolding settle_all settled
settle_all-InLine true m s p e d r =
    ap (settle_all (suc (length m))) (
      ap (λ (u : Map Body). record s { unsent = u }) e
      ∙ ap (λ (b : Bool). record s { unsent = m; publishing = b }) p)
    ∙ settle_all-drained m s d
settle_all-InLine false m s p e d r =
    subst (λ w. settle_all (suc (length w)) s ≡ drained w s) (sym r)
      (ap (λ b. if b then flush_next s.unsent s else s) p
        ∙ ap (λ (u : Map Body). record s { unsent = u }) (e ∙ r)
        ∙ ap (λ (b : Bool). record s { unsent = []; publishing = b }) p
        ∙ ap (λ (o : List Output). record s { unsent = []; publishing = false; out = o })
            (sym (append-nil s.out)))

-- Whatever has happened to a server: once the store has settled one publish more than wait, nothing
-- waits and none is in flight, and what waited went out, each once and in its order.
pub publishes_drain :
    (config : Config) (es : List (Event × ℕ))
    → let s = run config es created in
      settle_all (suc (length s.unsent)) s
      ≡ record s { unsent = []; publishing = false; out = s.out ++ map published (values s.unsent) }
unfolding Distinct
publishes_drain config es =
    let s = run config es created in
    let line = run-InLine config es created (tt, refl) in
    settle_all-InLine s.publishing s.unsent s refl refl line.0 line.1
