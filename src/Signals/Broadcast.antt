-- ===== src/Signals/Broadcast.antt =====
-- `Broadcast` of packages/server/src/signals.ts: what one server sends, and who is watching.
use haikit.Prelude.{
  ℕ, zero, ◌+◌, ◌-◌, ◌*◌, min, ltb, leb, ◌==◌, true, false, not, ◌&&◌, Option, none, some, List, [],
  ◌∷◌, ◌++◌, map, keep, if◌then◌else◌, Text, lit, ◌=t=◌, Map, get, set, remove,
}
pub use haikit.Signals.Types.{
  Signal, Body, Peer, Stream, Output, Broadcast, Config, created, max_safe, local, is_none, or_else,
  signal, presence, streamed, counted, published,
}

unfoldable pub key_of : Body → Text
key_of (signal e) = lit "signal:" ++ e.name
key_of (presence n) = lit "presence"

-- One round of `flush`: the oldest that waits goes to the store, if any does.
unfoldable pub flush_next : Map Body → Broadcast → Broadcast
flush_next [] s = record s { publishing = false }
flush_next ((k, b) ∷ rest) s = record s {
  unsent = remove k s.unsent;
  out = s.out ++ published b ∷ [];
}

-- The store's `publish` has settled.
unfoldable pub settled : Broadcast → Broadcast
unfolding flush_next
settled s = if s.publishing then flush_next s.unsent s else s

-- The others' counts that are still heard, and their sum.
unfoldable pub still_heard : ℕ → ℕ → Map Peer → Map Peer
still_heard beat now peers = keep (λ p. not (ltb (p.1.heard + 3 * beat) now)) peers

unfoldable pub others : Map Peer → ℕ
others [] = 0
others ((k, p) ∷ ps) = p.count + others ps

abbrev pub values : {V : Type 0} → Map V → List V
values [] = []
values ((k, v) ∷ m) = v ∷ values m

unfoldable pub start : Broadcast → Broadcast
start s = record s { started = true }

-- The stream with this number, and the others.
unfoldable pub take_out : ℕ → List Stream → Option (Stream × List Stream)
take_out id [] = none
take_out id (x ∷ xs) =
    let rest = take_out id xs in
    if x.id == id then some (x, xs) else elim rest [ none ↦ none | some (y, ys) ↦ some (y, x ∷ ys) ]

-- The stream's conversation has one fewer, or starts its grace.
unfoldable pub left_by : Text → ℕ → Broadcast → Broadcast
left_by c zero s = record s { opens = remove c s.opens; leaving = set c tt s.leaving }
left_by c left s = record s { opens = set c left s.opens }

unfoldable pub close_found : Option (Stream × List Stream) → Broadcast → Broadcast
unfolding left_by
close_found none s = s
close_found (some (x, xs)) s =
    left_by x.conversation (or_else 1 (get x.conversation s.opens) - 1) (record s { streams = xs })

unfoldable pub closed : ℕ → Broadcast → Broadcast
unfolding take_out close_found
closed id s = close_found (take_out id s.streams) s

-- A stream that opened hears the latest of each signal once the others are heard.
unfoldable pub replay : ℕ → Broadcast → Broadcast
unfolding take_out
replay id s = elim (take_out id s.streams) [
  | none ↦ s
  | some _ ↦ record s { out = s.out ++ map (streamed id) (values s.latest) }
]

-- A listener is there once, however often it was added.
unfoldable pub add_listener : ℕ → List ℕ → List ℕ
add_listener l [] = l ∷ []
add_listener l (k ∷ ks) = let rest = add_listener l ks in if k == l then k ∷ ks else k ∷ rest

-- What `onPresence` returns.
unfoldable pub stopped : ℕ → Broadcast → Broadcast
stopped l s = record s { listeners = keep (λ k. not (k == l)) s.listeners }

-- What happens to a server, with the time that its clock shows then.
pub data Event : Type 0 where
  sends : Signal → Event
  opens_stream : Text → Event
  closes_stream : ℕ → Event
  replays : ℕ → Event
  ends_grace : Text → Event
  listens : ℕ → Event
  stops : ℕ → Event
  hears : Text → Body → Event
  beats : Event
  settles : Event

module _ (config : Config) where
  unfoldable pub publish : Body → Broadcast → Broadcast
  unfolding flush_next key_of
  publish b s =
      let unsent = set (key_of b) b (remove (key_of b) s.unsent) in
      if not config.can_publish
      then s
      else if s.publishing
      then record s { unsent = unsent }
      else flush_next unsent (record s { unsent = unsent; publishing = true })

  unfoldable pub recount : ℕ → Broadcast → Broadcast
  unfolding still_heard others
  recount now s =
      let peers = still_heard config.heartbeat_ms now s.peers in
      let total = min (local s + others peers) max_safe in
      if total == s.total then record s { peers = peers } else record s {
        peers = peers;
        total = total;
        out = s.out ++ map (λ l. counted l total) s.listeners;
      }

  unfoldable pub tell : Broadcast → Broadcast
  unfolding publish
  tell s =
      if local s == s.told then s else publish (presence (local s)) (record s { told = local s })

  unfoldable pub changed : ℕ → Broadcast → Broadcast
  unfolding recount tell
  changed now s = tell (recount now s)

  unfoldable pub beat : ℕ → Broadcast → Broadcast
  unfolding recount publish
  beat now s =
      let s1 = recount now s in if ltb 0 (local s1) then publish (presence (local s1)) s1 else s1

  unfoldable pub send : Signal → Broadcast → Broadcast
  unfolding publish
  send e s = publish (signal e) (record s {
    latest = set e.name e s.latest;
    out = s.out ++ map (λ (x : Stream). streamed x.id e) s.streams;
  })

  -- A stream that is there: a conversation back within its grace never stopped counting.
  unfoldable pub arrived : Text → ℕ → Option (Unit {0}) → ℕ → Broadcast → Broadcast
  unfolding changed
  arrived c before was_leaving now s =
      let s1 = record s { leaving = remove c s.leaving; opens = set c (before + 1) s.opens } in
      if before == 0 && is_none was_leaving then changed now s1 else s1

  unfoldable pub opened : Text → ℕ → Broadcast → Broadcast
  unfolding start arrived
  opened c now s = arrived c (or_else 0 (get c s.opens)) (get c s.leaving) now (record (start s) {
    streams = s.streams ++ record { id = s.next_stream; conversation = c } ∷ [];
    next_stream = s.next_stream + 1;
  })

  -- The timer of a conversation's grace; one that was cleared does not fire.
  unfoldable pub end_grace : Option (Unit {0}) → Text → ℕ → Broadcast → Broadcast
  unfolding changed
  end_grace none c now s = s
  end_grace (some _) c now s = changed now (record s { leaving = remove c s.leaving })

  unfoldable pub grace_ended : Text → ℕ → Broadcast → Broadcast
  unfolding end_grace
  grace_ended c now s = end_grace (get c s.leaving) c now s

  unfoldable pub on_presence : ℕ → Broadcast → Broadcast
  unfolding start add_listener
  on_presence l s = record (start s) {
    listeners = add_listener l s.listeners;
    out = s.out ++ counted l s.total ∷ [];
  }

  -- Another server's count.
  unfoldable pub hear_count : Text → ℕ → ℕ → Broadcast → Broadcast
  unfolding recount publish
  hear_count origin count now s =
      let heard = record s {
        peers =
            if ltb 0 count
            then set origin (record { count = count; heard = now }) s.peers
            else remove origin s.peers;
      } in
      recount now (
        if is_none (get origin s.peers) && ltb 0 count && ltb 0 (local s)
        then publish (presence (local s)) heard
        else heard)

  -- A message of the channel that parses; this server's own are not heard.
  unfoldable pub hear : Text → Body → ℕ → Broadcast → Broadcast
  unfolding hear_count
  hear origin (signal e) now s = if origin =t= config.origin then s else record s {
    latest = set e.name e s.latest;
    out = s.out ++ map (λ (x : Stream). streamed x.id e) s.streams;
  }
  hear origin (presence count) now s =
      if origin =t= config.origin
      then s
      else if leb count max_safe
      then hear_count origin count now s
      else s

  unfoldable pub step : Event → ℕ → Broadcast → Broadcast
  unfolding send opened closed replay grace_ended on_presence stopped hear beat settled
  step (sends e) now s = send e s
  step (opens_stream c) now s = opened c now s
  step (closes_stream id) now s = closed id s
  step (replays id) now s = replay id s
  step (ends_grace c) now s = grace_ended c now s
  step (listens l) now s = on_presence l s
  step (stops l) now s = stopped l s
  step (hears origin b) now s = hear origin b now s
  step beats now s = beat now s
  step settles now s = settled s

  unfoldable pub run : List (Event × ℕ) → Broadcast → Broadcast
  unfolding step
  run [] s = s
  run ((e, now) ∷ es) s = run es (step e now s)
