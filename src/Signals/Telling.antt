-- ===== src/Signals/Telling.antt =====
-- What the other servers are told of the count here, as a server's `Broadcast` runs:
-- packages/server/src/signals.ts.
use haikit.Prelude.{
  ℕ, zero, suc, ◌+◌, ltb, leb, ◌==◌, ◌≡◌, refl, sym, ap, subst, ◌∙◌, Bool, true, false, ◌&&◌,
  Bool-cases, Option-cases, inl, inr, Option, none, some, List, [], ◌∷◌, ◌++◌, append-nil, map,
  if◌then◌else◌, Text, ◌=t=◌, get, set, remove, Distinct, min,
}
use haikit.Signals.Broadcast.{
  Broadcast, Config, Signal, Body, signal, presence, Stream, Event, Output, streamed, counted,
  local, max_safe, others, still_heard, key_of, values, publish, recount, tell, changed, send,
  start, arrived, opened, left_by, close_found, closed, take_out, replay, end_grace, grace_ended,
  on_presence, stopped, hear_count, hear, beat, settled, step, run, created, or_else, is_none,
}
use haikit.Signals.Counts.{Counts, seen, seen-publish, seen-settled}
use haikit.Signals.Presence.{step-Counts, recounted-Counts, created-Counts}
use haikit.Signals.Lines.{
  last_count, went_out, heard_of, Keyed, Line, last_count-append, last_count-end, last_count-signal,
  apart, went_out-append, last_count-remove, flush_next-Line, settled-Line, put-Line,
}

-- What goes to a stream or a listener tells no server.
unheard-Line :
    (n : ℕ) (more : List Output) (s : Broadcast)
    → went_out more ≡ []
    → Line n s
    → Line n (record s { out = s.out ++ more })
unheard-Line n more s q h = (
  h.0,
  h.1,
  ap (λ o. last_count 0 (o ++ values s.unsent))
        (went_out-append s.out more ∙ ap (λ o. went_out s.out ++ o) q ∙ append-nil (went_out s.out))
      ∙ h.2,
)

to_streams :
    (e : Signal) (xs : List Stream) → went_out (map (λ (x : Stream). streamed x.id e) xs) ≡ []
to_streams e [] = refl
to_streams e (x ∷ xs) = to_streams e xs

to_stream : (id : ℕ) (es : List Signal) → went_out (map (streamed id) es) ≡ []
to_stream id [] = refl
to_stream id (e ∷ es) = to_stream id es

to_listeners : (n : ℕ) (ls : List ℕ) → went_out (map (λ l. counted l n) ls) ≡ []
to_listeners n [] = refl
to_listeners n (l ∷ ls) = to_listeners n ls

either_zero : (b : Bool) → ◌≡◌ {A = ℕ} (if b then 0 else 0) 0
either_zero true = refl
either_zero false = refl

module _ (config : Config) where
  -- The count that the others know of, where they are told at all.
  abbrev told_of : ℕ → ℕ
  told_of n = if config.can_publish then n else 0

  abbrev Told : Broadcast → Type 0
  Told s = Line (told_of s.told) s

  unpublished : (b : Body) (s : Broadcast) → config.can_publish ≡ false → publish config b s ≡ s
  unfolding publish
  unpublished b s p = simp p refl

  published-Line :
      (n : ℕ) (b : Body) (s : Broadcast)
      → config.can_publish ≡ true
      → Distinct s.unsent
      → Keyed s.unsent
      → last_count 0 (went_out s.out ++ (values (remove (key_of b) s.unsent) ++ b ∷ [])) ≡ n
      → Line n (publish config b s)
  unfolding publish
  published-Line n b s can d q h = elim (Bool-cases s.publishing) [
    | inl p ↦ simp (can, p) (put-Line n b s s.publishing d q h)
    | inr p ↦
        let unsent = set (key_of b) b (remove (key_of b) s.unsent) in
        simp (can, p)
          (flush_next-Line n unsent (record s { unsent = unsent; publishing = true }) refl
            (put-Line n b s true d q h))
  ]

  presence-Line :
      (m n : ℕ) (s : Broadcast)
      → Line (told_of m) s
      → Line (told_of n) (publish config (presence n) s)
  presence-Line m n s h = elim (Bool-cases config.can_publish) [
    | inl p ↦
        subst (λ k. Line k (publish config (presence n) s)) (sym (ap (λ b. if b then n else 0) p))
          (published-Line n (presence n) s p h.0 h.1
            (last_count-end n (went_out s.out) (values (remove (key_of (presence n)) s.unsent))))
    | inr p ↦
        let never : told_of m ≡ told_of n =
          ap (λ b. if b then m else 0) p ∙ sym (ap (λ b. if b then n else 0) p) in
        subst (Line (told_of n)) (sym (unpublished (presence n) s p))
          (subst (λ k. Line k s) never h)
  ]

  signal-Line :
      (n : ℕ) (e : Signal) (s : Broadcast) → Line n s → Line n (publish config (signal e) s)
  signal-Line n e s h = elim (Bool-cases config.can_publish) [
    | inl p ↦ published-Line n (signal e) s p h.0 h.1 (
        last_count-signal e (went_out s.out) (values (remove (key_of (signal e)) s.unsent))
        ∙ last_count-append 0 (went_out s.out) (values (remove (key_of (signal e)) s.unsent))
        ∙ last_count-remove (last_count 0 (went_out s.out)) (key_of (signal e)) s.unsent (apart e)
            h.1
        ∙ sym (last_count-append 0 (went_out s.out) (values s.unsent))
        ∙ h.2)
    | inr p ↦ subst (Line n) (sym (unpublished (signal e) s p)) h
  ]

  told-publish : (b : Body) (s : Broadcast) → (publish config b s).told ≡ s.told
  told-publish b s = ap (λ x. x.told) (seen-publish config b s)

  signal-Told : (e : Signal) (s : Broadcast) → Told s → Told (publish config (signal e) s)
  signal-Told e s h =
      subst (λ m. Line (told_of m) (publish config (signal e) s)) (sym (told-publish (signal e) s))
        (signal-Line (told_of s.told) e s h)

  -- What was last told is told again, or what is told now.
  presence-Told :
      (m n : ℕ) (s : Broadcast)
      → Line (told_of m) s
      → s.told ≡ n
      → Told (publish config (presence n) s)
  presence-Told m n s h e =
      subst (λ k. Line (told_of k) (publish config (presence n) s))
        (sym (told-publish (presence n) s ∙ e)) (presence-Line m n s h)

  recount-Told : (now : ℕ) (s : Broadcast) → Told s → Told (recount config now s)
  unfolding recount
  recount-Told now s h =
      let total = min (local s + others (still_heard config.heartbeat_ms now s.peers)) max_safe in
      elim (Bool-cases (total == s.total)) [
        | inl p ↦ simp p h
        | inr p ↦ simp p (unheard-Line (told_of s.told) _ s (to_listeners total s.listeners) h)
      ]

  tell-Told : (s : Broadcast) → Told s → Told (tell config s)
  unfolding tell
  tell-Told s h = elim (Bool-cases (local s == s.told)) [
    | inl p ↦ simp p h
    | inr p ↦ simp p (presence-Told s.told (local s) (record s { told = local s }) h refl)
  ]

  changed-Told : (now : ℕ) (s : Broadcast) → Told s → Told (changed config now s)
  unfolding changed
  changed-Told now s h = tell-Told (recount config now s) (recount-Told now s h)

  publish_if-Told :
      (b : Bool) (n : ℕ) (s : Broadcast)
      → s.told ≡ n
      → Told s
      → Told (if b then publish config (presence n) s else s)
  publish_if-Told true n s e h = presence-Told s.told n s h e
  publish_if-Told false n s e h = h

  arrived-Told :
      (c : Text) (before : ℕ) (w : Option (Unit {0})) (now : ℕ) (s : Broadcast)
      → Told s
      → Told (arrived config c before w now s)
  unfolding arrived
  arrived-Told c before w now s h =
      let s1 : Broadcast = record s {
        leaving = remove c s.leaving;
        opens = set c (before + 1) s.opens;
      } in
      elim (Bool-cases (before == 0 && is_none w)) [
        | inl p ↦ simp p (changed-Told now s1 h)
        | inr p ↦ simp p h
      ]

  left_by-Told : (c : Text) (n : ℕ) (s : Broadcast) → Told s → Told (left_by c n s)
  unfolding left_by
  left_by-Told c zero s h = h
  left_by-Told c (suc n) s h = h

  close_found-Told :
      (found : Option (Stream × List Stream)) (s : Broadcast) → Told s → Told (close_found found s)
  unfolding close_found
  close_found-Told none s h = h
  close_found-Told (some (x, xs)) s h = left_by-Told _ _ (record s { streams = xs }) h

  end_grace-Told :
      (o : Option (Unit {0})) (c : Text) (now : ℕ) (s : Broadcast)
      → Told s
      → Told (end_grace config o c now s)
  unfolding end_grace
  end_grace-Told none c now s h = h
  end_grace-Told (some _) c now s h = changed-Told now (record s { leaving = remove c s.leaving }) h

  replay-Told : (id : ℕ) (s : Broadcast) → Told s → Told (replay id s)
  unfolding replay
  replay-Told id s h = elim (Option-cases (take_out id s.streams)) [
    | inl e ↦ rw (e, replay) h
    | inr (x, e) ↦
        rw (e, replay) (unheard-Line (told_of s.told) _ s (to_stream id (values s.latest)) h)
  ]

  hear-Told :
      (origin : Text) (b : Body) (now : ℕ) (s : Broadcast)
      → s.told ≡ local s
      → Told s
      → Told (hear config origin b now s)
  unfolding hear hear_count
  hear-Told origin (signal e) now s t h = elim (Bool-cases (origin =t= config.origin)) [
    | inl p ↦ simp p h
    | inr p ↦ simp p (unheard-Line (told_of s.told) _ s (to_streams e s.streams) h)
  ]
  hear-Told origin (presence count) now s t h = elim (Bool-cases (origin =t= config.origin)) [
    | inl p ↦ simp p h
    | inr p ↦ elim (Bool-cases (leb count max_safe)) [
      | inl q ↦ simp (p, q) (recount-Told now _ (publish_if-Told _ (local s) _ t h))
      | inr q ↦ simp (p, q) h
    ]
  ]

  settled-Told : (s : Broadcast) → Told s → Told (settled s)
  settled-Told s h =
      subst (λ m. Line (told_of m) (settled s)) (sym (ap (λ x. x.told) (seen-settled s)))
        (settled-Line (told_of s.told) s h)

  step-Told :
      (e : Event) (now : ℕ) (s : Broadcast) → Counts (seen s) → Told s → Told (step config e now s)
  unfolding step send opened closed grace_ended on_presence start stopped beat
  step-Told (Event.sends e) now s c h =
      signal-Told e _ (unheard-Line (told_of s.told) _ s (to_streams e s.streams) h)
  step-Told (Event.opens_stream conversation) now s c h =
      arrived-Told conversation (or_else 0 (get conversation s.opens)) (get conversation s.leaving)
        now
        (record s {
          streams = s.streams ++ record { id = s.next_stream; conversation = conversation } ∷ [];
          next_stream = s.next_stream + 1;
          started = true;
        })
        h
  step-Told (Event.closes_stream id) now s c h = close_found-Told (take_out id s.streams) s h
  step-Told (Event.replays id) now s c h = replay-Told id s h
  step-Told (Event.ends_grace conversation) now s c h =
      end_grace-Told (get conversation s.leaving) conversation now s h
  step-Told (Event.listens l) now s c h =
      unheard-Line (told_of s.told) (counted l s.total ∷ []) s refl h
  step-Told (Event.stops l) now s c h = h
  step-Told (Event.hears origin b) now s c h = hear-Told origin b now s c.is_told h
  step-Told Event.beats now s c h =
      let s1 = recount config now s in
      publish_if-Told (ltb 0 (local s1)) (local s1) s1 (recounted-Counts config now s c).is_told
        (recount-Told now s h)
  step-Told Event.settles now s c h = settled-Told s h

  run-Told :
      (es : List (Event × ℕ)) (s : Broadcast)
      → Counts (seen s)
      → Told s
      → Counts (seen (run config es s)) × Told (run config es s)
  unfolding run
  run-Told [] s c h = (c, h)
  run-Told ((e, now) ∷ es) s c h =
      run-Told es (step config e now s) (step-Counts config e now s c) (step-Told e now s c h)

  created-Told : Told created
  unfolding Keyed Distinct
  created-Told = (tt, tt, sym (either_zero config.can_publish))

-- Whatever happens to a server, in any order: a conversation counts as open, once, with the number
-- of its streams, exactly while it has one, and in its grace only while it has none; the last count
-- among the publishes to the other servers, those that went out and those that still wait, is the
-- one here (0 where there was none, as always where the store cannot publish); and the total is this
-- count and the others', up to the largest safe integer.
pub presence_counted :
    (config : Config) (es : List (Event × ℕ))
    → let s = run config es created in
      Counts (seen s) × (heard_of s ≡ (if config.can_publish then local s else 0))
presence_counted config es =
    let done = run-Told config es created created-Counts (created-Told config) in
    (done.0, done.1.2 ∙ ap (λ n. if config.can_publish then n else 0) done.0.is_told)
