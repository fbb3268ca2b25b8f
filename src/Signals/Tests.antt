-- ===== src/Signals/Tests.antt =====
-- The counts, and the publishes that wait, of a server whose first stream closes and comes back, beside another server.
use haikit.Prelude.{ℕ, suc, length, ◌≡◌, ◌++◌, map, true, false, [], ◌∷◌, List, lit}
use haikit.Signals.Broadcast.{Config, Event, presence, local, run, created, values, published}
use haikit.Signals.Counts.{seen, Counts}
use haikit.Signals.Lines.{heard_of}
use haikit.Signals.Telling.{presence_counted}
use haikit.Signals.Flush.{settle_all, publishes_drain}

abbrev config : Config
config = record { can_publish = true; heartbeat_ms = 10; origin = lit "here" }

abbrev day : List (Event × ℕ)
day =
    (Event.listens 1, 0)
    ∷ (Event.opens_stream (lit "c"), 1)
    ∷ (Event.hears (lit "there") (presence 2), 2)
    ∷ (Event.closes_stream 0, 3)
    ∷ (Event.opens_stream (lit "c"), 4)
    ∷ (Event.closes_stream 1, 5)
    ∷ (Event.ends_grace (lit "c"), 6)
    ∷ []

presence_counted_example :
    Counts (seen (run config day created))
    × (heard_of (run config day created) ≡ local (run config day created))
presence_counted_example = presence_counted config day

publishes_drain_example :
    settle_all (suc (length (run config day created).unsent)) (run config day created)
    ≡ record (run config day created) {
      unsent = [];
      publishing = false;
      out = (run config day created).out ++ map published (values (run config day created).unsent);
    }
publishes_drain_example = publishes_drain config day
