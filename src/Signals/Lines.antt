-- ===== src/Signals/Lines.antt =====
-- The last count among the publishes that went out and that wait: `flush` of
-- packages/server/src/signals.ts.
use haikit.Prelude.{
  ℕ, ◌≡◌, refl, sym, ap, subst, ◌∙◌, Bool, true, false, arith, Bool-cases, inl, inr, none, List, [],
  ◌∷◌, ◌++◌, append_assoc, Text, ◌=t=◌, =t=_iff, Map, get, set, remove, get-remove, remove-first,
  Distinct, Distinct-set, Distinct-remove,
}
use haikit.Signals.Broadcast.{
  Broadcast, Signal, Body, signal, presence, Output, streamed, counted, published, key_of, values,
  flush_next, settled,
}

-- The last count among publishes, after one that was told before.
abbrev pub last_count : ℕ → List Body → ℕ
last_count told [] = told
last_count told (signal e ∷ bs) = last_count told bs
last_count told (presence n ∷ bs) = last_count n bs

-- The publishes that went out.
abbrev pub went_out : List Output → List Body
went_out [] = []
went_out (streamed id e ∷ os) = went_out os
went_out (counted l n ∷ os) = went_out os
went_out (published b ∷ os) = b ∷ went_out os

-- The last count that the other servers are told, once what waits has gone out; none counts as 0.
abbrev pub heard_of : Broadcast → ℕ
heard_of s = last_count 0 (went_out s.out ++ values s.unsent)

pub last_count-append :
    (n : ℕ) (xs ys : List Body) → last_count n (xs ++ ys) ≡ last_count (last_count n xs) ys
last_count-append n [] ys = refl
last_count-append n (signal e ∷ xs) ys = last_count-append n xs ys
last_count-append n (presence m ∷ xs) ys = last_count-append m xs ys

pub last_count-end : (n : ℕ) (xs ys : List Body) → last_count 0 (xs ++ (ys ++ presence n ∷ [])) ≡ n
last_count-end n xs ys =
    last_count-append 0 xs (ys ++ presence n ∷ [])
    ∙ last_count-append (last_count 0 xs) ys (presence n ∷ [])

pub last_count-signal :
    (e : Signal) (xs ys : List Body)
    → last_count 0 (xs ++ (ys ++ signal e ∷ [])) ≡ last_count 0 (xs ++ ys)
last_count-signal e xs ys =
    last_count-append 0 xs (ys ++ signal e ∷ [])
    ∙ last_count-append (last_count 0 xs) ys (signal e ∷ [])
    ∙ sym (last_count-append 0 xs ys)

pub apart : (e : Signal) (c : ℕ) → (key_of (presence c) =t= key_of (signal e)) ≡ false
unfolding key_of ◌=t=◌
apart e c = refl

pub went_out-append : (xs ys : List Output) → went_out (xs ++ ys) ≡ went_out xs ++ went_out ys
went_out-append [] ys = refl
went_out-append (streamed id e ∷ xs) ys = went_out-append xs ys
went_out-append (counted l n ∷ xs) ys = went_out-append xs ys
went_out-append (published b ∷ xs) ys = ap (◌∷◌ b) (went_out-append xs ys)

values-append_one :
    (k : Text) (b : Body) (m : Map Body) → values (m ++ (k, b) ∷ []) ≡ values m ++ b ∷ []
values-append_one k b [] = refl
values-append_one k b ((j, c) ∷ m) = ap (◌∷◌ c) (values-append_one k b m)

set_absent : (k : Text) (b : Body) (m : Map Body) → get k m ≡ none → set k b m ≡ m ++ (k, b) ∷ []
unfolding set get
set_absent k b [] = λ e. refl
set_absent k b ((j, c) ∷ m) = elim (Bool-cases (j =t= k)) [
  | inl p ↦ rw p (λ e. cc)
  | inr p ↦ rw p (λ e. ap (◌∷◌ (j, c)) (set_absent k b m e))
]

removed : (k : Text) (m : Map Body) → get k (remove k m) ≡ none
removed k m = ground (arith, get-remove k k m, =t=_iff k k)

-- What waits stands under its own key.
unfoldable pub Keyed : Map Body → Type 0
Keyed [] = Unit
Keyed ((k, b) ∷ m) = (k ≡ key_of b) × Keyed m

Keyed-remove : (k : Text) (m : Map Body) → Keyed m → Keyed (remove k m)
unfolding Keyed remove
Keyed-remove k [] h = tt
Keyed-remove k ((j, b) ∷ m) h = elim (Bool-cases (j =t= k)) [
  | inl p ↦ rw p (Keyed-remove k m h.1)
  | inr p ↦ rw p (h.0, Keyed-remove k m h.1)
]

Keyed-append_one : (b : Body) (m : Map Body) → Keyed m → Keyed (m ++ (key_of b, b) ∷ [])
unfolding Keyed
Keyed-append_one b [] h = (refl, tt)
Keyed-append_one b ((j, c) ∷ m) h = (h.0, Keyed-append_one b m h.1)

-- A signal that gives way to its next one is no count.
pub last_count-remove :
    (n : ℕ) (k : Text) (m : Map Body)
    → ((c : ℕ) → (key_of (presence c) =t= k) ≡ false)
    → Keyed m
    → last_count n (values (remove k m)) ≡ last_count n (values m)
unfolding Keyed remove
last_count-remove n k [] p h = refl
last_count-remove n k ((j, signal e) ∷ m) p h = elim (Bool-cases (j =t= k)) [
  | inl q ↦ rw q (last_count-remove n k m p h.1)
  | inr q ↦ rw q (last_count-remove n k m p h.1)
]
last_count-remove n k ((j, presence c) ∷ m) p h = elim (Bool-cases (j =t= k)) [
  | inl q ↦ absurd (
      let clash : (key_of (presence c) =t= k) ≡ true = subst (λ x. (x =t= k) ≡ true) h.0 q in
      ground (arith, clash, p c))
  | inr q ↦ rw q (last_count-remove c k m p h.1)
]

-- What waits stands once under its key, and the last count that the others are told is this one.
abbrev pub Line : ℕ → Broadcast → Type 0
Line n s = Distinct s.unsent × Keyed s.unsent × (heard_of s ≡ n)

pub flush_next-Line :
    (n : ℕ) (m : Map Body) (s : Broadcast) → s.unsent ≡ m → Line n s → Line n (flush_next m s)
unfolding flush_next Distinct
flush_next-Line n [] s e h = h
flush_next-Line n ((k, b) ∷ m) s e (d, q, h) =
    let first : Distinct ((k, b) ∷ m) = subst Distinct e d in
    let rest : remove k s.unsent ≡ m = ap (remove k) e ∙ remove-first k b m first.0 in
    let moved : went_out (s.out ++ published b ∷ []) ++ values (remove k s.unsent)
        ≡ went_out s.out ++ values s.unsent =
      rw (rest, e, went_out-append s.out (published b ∷ []))
        (append_assoc (went_out s.out) (b ∷ []) (values m)) in
    (Distinct-remove k s.unsent d, Keyed-remove k s.unsent q, ap (last_count 0) moved ∙ h)

pub settled-Line : (n : ℕ) (s : Broadcast) → Line n s → Line n (settled s)
unfolding settled
settled-Line n s h = elim (Bool-cases s.publishing) [
  | inl p ↦ simp p (flush_next-Line n s.unsent s refl h)
  | inr p ↦ simp p h
]

-- A publish stands last among those that wait.
put_last :
    (b : Body) (m : Map Body)
    → set (key_of b) b (remove (key_of b) m) ≡ remove (key_of b) m ++ (key_of b, b) ∷ []
put_last b m = set_absent (key_of b) b (remove (key_of b) m) (removed (key_of b) m)

pub put-Line :
    (n : ℕ) (b : Body) (s : Broadcast) (busy : Bool)
    → Distinct s.unsent
    → Keyed s.unsent
    → last_count 0 (went_out s.out ++ (values (remove (key_of b) s.unsent) ++ b ∷ [])) ≡ n
    → Line n
        (record s { unsent = set (key_of b) b (remove (key_of b) s.unsent); publishing = busy })
put-Line n b s busy d q h =
    let k = key_of b in
    let last = put_last b s.unsent in
    (
      Distinct-set k b _ (Distinct-remove k s.unsent d),
      subst Keyed (sym last) (Keyed-append_one b _ (Keyed-remove k s.unsent q)),
      ap (λ m. last_count 0 (went_out s.out ++ m))
            (ap values last ∙ values-append_one k b (remove k s.unsent))
          ∙ h,
    )
