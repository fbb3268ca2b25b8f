-- ===== src/Signals/Counts.antt =====
-- What the counts of `Broadcast` in packages/server/src/signals.ts stand for.
use haikit.Prelude.{
  ℕ, zero, suc, ◌+◌, min, ◌==◌, ◌≡◌, refl, sym, ap, subst, Bool-cases, inl, inr, Option, none, some,
  List, [], ◌∷◌, if◌then◌else◌, Text, ◌=t=◌, Map, get, Distinct, length, ==_iff,
}
use haikit.Signals.Broadcast.{
  Broadcast, Config, Body, presence, Stream, Peer, local, max_safe, others, flush_next, publish,
  recount, tell, changed, still_heard, settled,
}

-- The streams that are open for a conversation.
unfoldable pub streams_of : Text → List Stream → ℕ
streams_of c [] = 0
streams_of c (x ∷ xs) =
    let rest = streams_of c xs in if x.conversation =t= c then suc rest else rest

abbrev pub positive : ℕ → Option ℕ
positive zero = none
positive (suc n) = some (suc n)

abbrev pub Idle : Option (Unit {0}) → ℕ → Type 0
Idle none n = Unit
Idle (some _) n = n ≡ 0

-- The fields that count.
pub record Seen : Type 0 where
  pub streams : List Stream
  pub opens : Map ℕ
  pub leaving : Map (Unit {0})
  pub peers : Map Peer
  pub total : ℕ
  pub told : ℕ

abbrev pub seen : Broadcast → Seen
seen s = record {
  streams = s.streams;
  opens = s.opens;
  leaving = s.leaving;
  peers = s.peers;
  total = s.total;
  told = s.told;
}

-- Each conversation stands once among the open ones, with the number of its streams, where it has
-- any, and among those in their grace only where it has none.
pub record Placed (s : Seen) : Type 0 where
  pub once_open : Distinct s.opens
  pub once_leaving : Distinct s.leaving
  pub open_count : (c : Text) → get c s.opens ≡ positive (streams_of c s.streams)
  pub leaving_idle : (c : Text) → Idle (get c s.leaving) (streams_of c s.streams)

abbrev pub here : Seen → ℕ
here s = length s.opens + length s.leaving

-- The total is what is counted here and what the others said, and `told` is what is counted here.
pub record Counts (s : Seen) : Type 0 where
  pub placed : Placed s
  pub is_told : s.told ≡ here s
  pub is_total : s.total ≡ min (here s + others s.peers) max_safe

-- Where the streams are does not depend on the rest.
pub replaced :
    {s : Seen} {peers : Map Peer} {total told : ℕ}
    → Placed s
    → Placed (record s { peers = peers; total = total; told = told })
replaced p = record {
  once_open = p.once_open;
  once_leaving = p.once_leaving;
  open_count = p.open_count;
  leaving_idle = p.leaving_idle;
}

seen-flush_next : (m : Map Body) (s : Broadcast) → seen (flush_next m s) ≡ seen s
unfolding flush_next
seen-flush_next [] s = refl
seen-flush_next (x ∷ xs) s = refl

pub seen-settled : (s : Broadcast) → seen (settled s) ≡ seen s
unfolding settled
seen-settled s = elim (Bool-cases s.publishing) [
  | inl p ↦ simp p (seen-flush_next s.unsent s)
  | inr p ↦ simp p refl
]

module _ (config : Config) where
  pub seen-publish : (b : Body) (s : Broadcast) → seen (publish config b s) ≡ seen s
  unfolding publish
  seen-publish b s = elim (Bool-cases config.can_publish) [
    | inr p ↦ rw p refl
    | inl p ↦ elim (Bool-cases s.publishing) [
      | inl q ↦ rw (p, q) refl
      | inr q ↦ rw (p, q) (seen-flush_next _ _)
    ]
  ]

  pub seen-recount :
      (now : ℕ) (s : Broadcast)
      → seen (recount config now s) ≡ record (seen s) {
        peers = still_heard config.heartbeat_ms now s.peers;
        total = min (local s + others (still_heard config.heartbeat_ms now s.peers)) max_safe;
      }
  unfolding recount
  seen-recount now s =
      let peers = still_heard config.heartbeat_ms now s.peers in
      let total = min (local s + others peers) max_safe in
      elim (Bool-cases (total == s.total)) [
        | inl p ↦ rw p (
            ap (λ (n : ℕ). record (seen s) { peers = peers; total = n })
              (sym ((==_iff total s.total).0 p)))
        | inr p ↦ rw p refl
      ]

  pub tell-Counts :
      (s : Broadcast)
      → Placed (seen s)
      → s.total ≡ min (local s + others s.peers) max_safe
      → Counts (seen (tell config s))
  unfolding tell
  tell-Counts s placed summed = elim (Bool-cases (local s == s.told)) [
    | inl p ↦ rw p (record {
      placed = placed;
      is_told = sym ((==_iff (local s) s.told).0 p);
      is_total = summed;
    })
    | inr p ↦ rw p (
        subst Counts (sym (seen-publish (presence (local s)) (record s { told = local s })))
          (record { placed = replaced placed; is_told = refl; is_total = summed }))
  ]

  pub recount-Counts :
      (now : ℕ) (s : Broadcast)
      → Placed (seen s)
      → s.told ≡ local s
      → Counts (seen (recount config now s))
  recount-Counts now s placed told =
      subst Counts (sym (seen-recount now s))
        (record { placed = replaced placed; is_told = told; is_total = refl })

  pub changed-Counts :
      (now : ℕ) (s : Broadcast) → Placed (seen s) → Counts (seen (changed config now s))
  unfolding changed
  changed-Counts now s placed =
      let done = seen-recount now s in
      tell-Counts (recount config now s) (subst Placed (sym done) (replaced placed))
        (subst (λ x. x.total ≡ min (here x + others x.peers) max_safe) (sym done) refl)
