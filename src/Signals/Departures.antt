-- ===== src/Signals/Departures.antt =====
-- The counts of `Broadcast` in packages/server/src/signals.ts, as a stream closes.
use haikit.Prelude.{
  ℕ, zero, suc, ◌+◌, ◌-◌, min, ◌≡◌, refl, sym, ap, subst, ◌∙◌, false, Bool-cases, Option-cases, inl,
  inr, Option, none, some, List, [], ◌∷◌, if◌then◌else◌, Text, ◌=t=◌, =t=_iff, get, set, remove,
  get-set, get-remove, Distinct-set, Distinct-remove, length-set, length-remove, length, arith,
  entries,
}
use haikit.Signals.Broadcast.{
  Broadcast, Stream, max_safe, others, left_by, close_found, closed, take_out, or_else,
}
use haikit.Signals.Counts.{streams_of, positive, Idle, seen, here, Counts}

streams_of-take_out :
    (c : Text) (id : ℕ) (xs : List Stream) (x : Stream) (ys : List Stream)
    → take_out id xs ≡ some (x, ys)
    → streams_of c xs ≡ (if x.conversation =t= c then suc (streams_of c ys) else streams_of c ys)
unfolding streams_of take_out
streams_of-take_out c id [] x ys e = ground (arith, e)
streams_of-take_out c id (z ∷ zs) x ys e = elim (Option-cases (take_out id zs)) [
  | inl q ↦ ground (arith, e, q)
  | inr ((y, rest), q) ↦ ground (arith, e, q, streams_of-take_out c id zs y rest q)
]

module _ (s : Broadcast) (h : Counts (seen s)) (c : Text) (ys : List Stream)
    (fewer : (j : Text)
      → streams_of j s.streams ≡ (if c =t= j then suc (streams_of j ys) else streams_of j ys)) where
  had_one : streams_of c s.streams ≡ suc (streams_of c ys)
  had_one = ground (arith, fewer c, =t=_iff c c)

  elsewhere : (j : Text) → (c =t= j) ≡ false → streams_of j s.streams ≡ streams_of j ys
  elsewhere j p = ground (arith, fewer j, p)

  quiet : get c s.leaving ≡ none
  quiet = elim (Option-cases (get c s.leaving)) [
    | inl e ↦ e
    | inr (w, e) ↦ absurd (
        let idle : streams_of c s.streams ≡ 0 =
          subst (λ o. Idle o (streams_of c s.streams)) e (h.placed.leaving_idle c) in
        omega (arith, had_one))
  ]

  opens_one : entries (get c s.opens) ≡ 1
  opens_one = rw (h.placed.open_count c, had_one) refl

  one_less : or_else 1 (get c s.opens) - 1 ≡ streams_of c ys
  one_less = rw (h.placed.open_count c, had_one) (omega arith)

  left-Counts :
      (n : ℕ) → n ≡ streams_of c ys → Counts (seen (left_by c n (record s { streams = ys })))
  unfolding left_by
  left-Counts zero e =
      let opens = length-remove c s.opens (h.placed.once_open) in
      let leaving = length-set c tt s.leaving in
      let quiet_leaving : entries (get c s.leaving) ≡ 0 = rw quiet refl in
      let one = opens_one in
      let after : length (remove c s.opens) + length (set c tt s.leaving) ≡ here (seen s) =
        omega arith in
      record {
        placed = record {
          once_open = Distinct-remove c s.opens (h.placed.once_open);
          once_leaving = Distinct-set c tt s.leaving (h.placed.once_leaving);
          open_count = λ j. elim (Bool-cases (c =t= j)) [
            | inl p ↦
                rw (get-remove c j s.opens, p)
                  (ap positive (e ∙ ap (λ k. streams_of k ys) ((=t=_iff c j).0 p)))
            | inr p ↦
                rw (get-remove c j s.opens, p) (h.placed.open_count j ∙ ap positive (elsewhere j p))
          ];
          leaving_idle = λ j. elim (Bool-cases (c =t= j)) [
            | inl p ↦
                rw (get-set c j tt s.leaving, p)
                  (sym (e ∙ ap (λ k. streams_of k ys) ((=t=_iff c j).0 p)))
            | inr p ↦
                rw (get-set c j tt s.leaving, p)
                  (subst (Idle (get j s.leaving)) (elsewhere j p) (h.placed.leaving_idle j))
          ];
        };
        is_told = h.is_told ∙ sym after;
        is_total = h.is_total ∙ ap (λ n. min (n + others s.peers) max_safe) (sym after);
      }
  left-Counts (suc n) e =
      let opens = length-set c (suc n) s.opens in
      let one = opens_one in
      let after : length (set c (suc n) s.opens) + length s.leaving ≡ here (seen s) = omega arith in
      record {
        placed = record {
          once_open = Distinct-set c (suc n) s.opens (h.placed.once_open);
          once_leaving = h.placed.once_leaving;
          open_count = λ j. elim (Bool-cases (c =t= j)) [
            | inl p ↦
                rw (get-set c j (suc n) s.opens, p)
                  (ap positive (e ∙ ap (λ k. streams_of k ys) ((=t=_iff c j).0 p)))
            | inr p ↦
                rw (get-set c j (suc n) s.opens, p)
                  (h.placed.open_count j ∙ ap positive (elsewhere j p))
          ];
          leaving_idle = λ j. elim (Bool-cases (c =t= j)) [
            | inl p ↦
                subst (λ o. Idle o (streams_of j ys))
                  (sym quiet ∙ ap (λ k. get k s.leaving) ((=t=_iff c j).0 p)) tt
            | inr p ↦ subst (Idle (get j s.leaving)) (elsewhere j p) (h.placed.leaving_idle j)
          ];
        };
        is_told = h.is_told ∙ sym after;
        is_total = h.is_total ∙ ap (λ n. min (n + others s.peers) max_safe) (sym after);
      }

found-Counts :
    (id : ℕ) (s : Broadcast) (found : Option (Stream × List Stream))
    → Counts (seen s)
    → take_out id s.streams ≡ found
    → Counts (seen (close_found found s))
unfolding close_found
found-Counts id s none h e = h
found-Counts id s (some (x, ys)) h e =
    let fewer : (j : Text)
        → streams_of j s.streams
          ≡ (if x.conversation =t= j then suc (streams_of j ys) else streams_of j ys) =
      λ j. streams_of-take_out j id s.streams x ys e in
    subst (λ n. Counts (seen (left_by x.conversation n (record s { streams = ys }))))
      (sym (one_less s h x.conversation ys fewer))
      (left-Counts s h x.conversation ys fewer (streams_of x.conversation ys) refl)

-- A stream that closes, or closed before, keeps the counts.
pub closed-Counts : (id : ℕ) (s : Broadcast) → Counts (seen s) → Counts (seen (closed id s))
unfolding closed
closed-Counts id s h = found-Counts id s (take_out id s.streams) h refl
