-- ===== src/Signals/Presence.antt =====
-- The counts of `Broadcast` in packages/server/src/signals.ts, as streams open and close.
use haikit.Prelude.{
  ℕ, zero, suc, ◌+◌, min, ◌==◌, ltb, leb, ◌≡◌, refl, sym, ap, subst, ◌∙◌, Bool, true, false, ◌&&◌,
  Bool-cases, Option-cases, inl, inr, Option, none, some, List, [], ◌∷◌, ◌++◌, if◌then◌else◌, Text,
  ◌=t=◌, =t=_iff, get, set, remove, get-set, get-remove, Distinct, Distinct-set, Distinct-remove,
  length-set, length-remove, arith, entries,
}
use haikit.Signals.Broadcast.{
  Broadcast, Config, Body, signal, presence, Stream, Event, local, max_safe, others, publish,
  recount, send, start, arrived, opened, closed, take_out, replay, end_grace, grace_ended,
  on_presence, stopped, hear_count, hear, beat, step, created, or_else, is_none,
}
use haikit.Signals.Departures.{closed-Counts}
use haikit.Signals.Counts.{
  streams_of, positive, Idle, Seen, seen, Placed, here, Counts, replaced, seen-settled,
  seen-publish, changed-Counts, recount-Counts,
}

streams_of-push :
    (c : Text) (xs : List Stream) (x : Stream)
    → streams_of c (xs ++ x ∷ [])
      ≡ (if x.conversation =t= c then suc (streams_of c xs) else streams_of c xs)
unfolding streams_of
streams_of-push c [] x = refl
streams_of-push c (y ∷ ys) x = ground (arith, streams_of-push c ys x)

or_else-positive : (n : ℕ) → or_else 0 (positive n) ≡ n
or_else-positive zero = refl
or_else-positive (suc n) = refl

entries-positive : (n : ℕ) → (n == 0) ≡ false → entries (positive n) ≡ 1
entries-positive zero p = ground (arith, p)
entries-positive (suc n) p = refl

entries-zero : (n : ℕ) → (n == 0) ≡ true → entries (positive n) ≡ 0
entries-zero zero p = refl
entries-zero (suc n) p = ground (arith, p)

one_more : {n m : ℕ} → n ≡ m → n + 1 ≡ suc m
one_more e = omega arith

module _ (s : Broadcast) (c : Text) (h : Counts (seen s)) where
  -- A stream more of this conversation.
  abbrev joined : Seen
  joined = record (seen s) {
    streams = s.streams ++ record { id = s.next_stream; conversation = c } ∷ [];
    opens = set c (streams_of c s.streams + 1) s.opens;
    leaving = remove c s.leaving;
  }

  joined-Placed : Placed joined
  joined-Placed = record {
    once_open = Distinct-set c _ s.opens (h.placed.once_open);
    once_leaving = Distinct-remove c s.leaving (h.placed.once_leaving);
    open_count = λ j. elim (Bool-cases (c =t= j)) [
      | inl p ↦
          rw
            (
              get-set c j (streams_of c s.streams + 1) s.opens,
              streams_of-push j s.streams (record { id = s.next_stream; conversation = c }),
              p,
            )
            (ap (λ (n : ℕ). some n)
              (one_more (ap (λ k. streams_of k s.streams) ((=t=_iff c j).0 p))))
      | inr p ↦
          rw
            (
              get-set c j (streams_of c s.streams + 1) s.opens,
              streams_of-push j s.streams (record { id = s.next_stream; conversation = c }),
              p,
            )
            (h.placed.open_count j)
    ];
    leaving_idle = λ j. elim (Bool-cases (c =t= j)) [
      | inl p ↦ rw (get-remove c j s.leaving, p) tt
      | inr p ↦
          rw
            (
              get-remove c j s.leaving,
              streams_of-push j s.streams (record { id = s.next_stream; conversation = c }),
              p,
            )
            (h.placed.leaving_idle j)
    ];
  }

  joined-here :
      here joined + entries (get c s.opens) + entries (get c s.leaving) ≡ here (seen s) + 1
  joined-here =
      let more = length-set c (streams_of c s.streams + 1) s.opens in
      let fewer = length-remove c s.leaving (h.placed.once_leaving) in omega arith

  -- The count stays where the conversation had a stream, or its grace ran.
  joined-Counts : entries (get c s.opens) + entries (get c s.leaving) ≡ 1 → Counts joined
  joined-Counts e =
      let same : here joined ≡ here (seen s) = (let j = joined-here in omega arith) in
      record {
        placed = joined-Placed;
        is_told = h.is_told ∙ sym same;
        is_total = h.is_total ∙ ap (λ n. min (n + others s.peers) max_safe) (sym same);
      }

  module _ (config : Config) (now : ℕ) where
    arrived-Counts :
        (w : Option (Unit {0}))
        → get c s.leaving ≡ w
        → Counts (
            seen (
              arrived config c (streams_of c s.streams) w now (record (start s) {
                streams = s.streams ++ record { id = s.next_stream; conversation = c } ∷ [];
                next_stream = s.next_stream + 1;
              })))
    unfolding arrived start
    arrived-Counts none e = elim (Bool-cases (streams_of c s.streams == 0)) [
      | inl p ↦ simp p (changed-Counts config now _ joined-Placed)
      | inr p ↦ simp p (
          joined-Counts (
            rw (e, h.placed.open_count c)
              (ap (λ n. n + 0) (entries-positive (streams_of c s.streams) p))))
    ]
    arrived-Counts (some _) e = elim (Bool-cases (streams_of c s.streams == 0)) [
      | inl p ↦ simp p (
          joined-Counts (
            rw (e, h.placed.open_count c)
              (ap (λ n. n + 1) (entries-zero (streams_of c s.streams) p))))
      | inr p ↦ absurd (
          let idle : streams_of c s.streams ≡ 0 =
            subst (λ o. Idle o (streams_of c s.streams)) e (h.placed.leaving_idle c) in
          ground (arith, idle, p))
    ]

    opened-Counts : Counts (seen (opened config c now s))
    unfolding opened start
    opened-Counts =
        subst
          (λ n. Counts (
            seen (
              arrived config c n (get c s.leaving) now (record s {
                streams = s.streams ++ record { id = s.next_stream; conversation = c } ∷ [];
                next_stream = s.next_stream + 1;
                started = true;
              }))))
          (sym (ap (or_else 0) (h.placed.open_count c) ∙ or_else-positive (streams_of c s.streams)))
          (arrived-Counts (get c s.leaving) refl)

  module _ (config : Config) (now : ℕ) where
    -- The grace of this conversation ends.
    ended-Placed : Placed (record (seen s) { leaving = remove c s.leaving })
    ended-Placed = record {
      once_open = h.placed.once_open;
      once_leaving = Distinct-remove c s.leaving (h.placed.once_leaving);
      open_count = h.placed.open_count;
      leaving_idle = λ j. elim (Bool-cases (c =t= j)) [
        | inl p ↦ rw (get-remove c j s.leaving, p) tt
        | inr p ↦ rw (get-remove c j s.leaving, p) (h.placed.leaving_idle j)
      ];
    }

    end_grace-Counts : (o : Option (Unit {0})) → Counts (seen (end_grace config o c now s))
    unfolding end_grace
    end_grace-Counts none = h
    end_grace-Counts (some _) = changed-Counts config now _ ended-Placed

module _ (config : Config) where
  publish-Counts : (b : Body) (s : Broadcast) → Counts (seen s) → Counts (seen (publish config b s))
  publish-Counts b s h = subst Counts (sym (seen-publish config b s)) h

  seen-publish_if :
      (b : Bool) (body : Body) (s : Broadcast)
      → seen (if b then publish config body s else s) ≡ seen s
  seen-publish_if true body s = seen-publish config body s
  seen-publish_if false body s = refl

  pub recounted-Counts :
      (now : ℕ) (s : Broadcast) → Counts (seen s) → Counts (seen (recount config now s))
  recounted-Counts now s h = recount-Counts config now s h.placed h.is_told

  replay-Counts : (id : ℕ) (s : Broadcast) → Counts (seen s) → Counts (seen (replay id s))
  unfolding replay
  replay-Counts id s h = elim (Option-cases (take_out id s.streams)) [
    | inl e ↦ rw (e, replay) h
    | inr (x, e) ↦ rw (e, replay) h
  ]

  beat-Counts : (now : ℕ) (s : Broadcast) → Counts (seen s) → Counts (seen (beat config now s))
  unfolding beat
  beat-Counts now s h =
      let s1 = recount config now s in
      subst Counts (sym (seen-publish_if (ltb 0 (local s1)) (presence (local s1)) s1))
        (recounted-Counts now s h)

  hear_count-Counts :
      (origin : Text) (count now : ℕ) (s : Broadcast)
      → Counts (seen s)
      → Counts (seen (hear_count config origin count now s))
  unfolding hear_count
  hear_count-Counts origin count now s h =
      let peers =
        if ltb 0 count
        then set origin (record { count = count; heard = now }) s.peers
        else remove origin s.peers in
      let heard : Broadcast = record s { peers = peers } in
      let new = is_none (get origin s.peers) && ltb 0 count && ltb 0 (local s) in
      let same = seen-publish_if new (presence (local s)) heard in
      recount-Counts config now _ (subst Placed (sym same) (replaced (h.placed)))
        (subst (λ x. x.told ≡ here x) (sym same) h.is_told)

  hear-Counts :
      (origin : Text) (b : Body) (now : ℕ) (s : Broadcast)
      → Counts (seen s)
      → Counts (seen (hear config origin b now s))
  unfolding hear
  hear-Counts origin (signal e) now s h = elim (Bool-cases (origin =t= config.origin)) [
    | inl p ↦ rw p h
    | inr p ↦ rw p h
  ]
  hear-Counts origin (presence count) now s h = elim (Bool-cases (origin =t= config.origin)) [
    | inl p ↦ rw p h
    | inr p ↦ elim (Bool-cases (leb count max_safe)) [
      | inl q ↦ rw (p, q) (hear_count-Counts origin count now s h)
      | inr q ↦ rw (p, q) h
    ]
  ]

  pub step-Counts :
      (e : Event) (now : ℕ) (s : Broadcast) → Counts (seen s) → Counts (seen (step config e now s))
  unfolding step send closed grace_ended on_presence start stopped
  step-Counts (Event.sends e) now s h = publish-Counts (signal e) _ h
  step-Counts (Event.opens_stream c) now s h = opened-Counts s c h config now
  step-Counts (Event.closes_stream id) now s h = closed-Counts id s h
  step-Counts (Event.replays id) now s h = replay-Counts id s h
  step-Counts (Event.ends_grace c) now s h = end_grace-Counts s c h config now (get c s.leaving)
  step-Counts (Event.listens l) now s h = h
  step-Counts (Event.stops l) now s h = h
  step-Counts (Event.hears origin b) now s h = hear-Counts origin b now s h
  step-Counts Event.beats now s h = beat-Counts now s h
  step-Counts Event.settles now s h = subst Counts (sym (seen-settled s)) h

pub created-Counts : Counts (seen created)
unfolding streams_of get Distinct others
created-Counts = record {
  placed = record {
    once_open = tt;
    once_leaving = tt;
    open_count = λ c. refl;
    leaving_idle = λ c. tt;
  };
  is_told = refl;
  is_total = refl;
}
