-- ===== src/Runtime/Windows.antt =====
-- Freshness in packages/server/src/runtime.ts: `windowOf`, `checkWindow`, `strictest`, `duration` and
-- `refuseIfExpired`.
use haikit.Prelude.{
  ℕ, ◌+◌, ◌-◌, ◌/◌, min, Bool, true, false, Option, none, some, List, [], ◌∷◌, ◌++◌, map, ltb, leb,
  ◌==◌, if◌then◌else◌, Text, lit, decimal, Map, get, Result, ok, fail, range_error, Exec, ◌>>=◌,
  ◌>>◌, pure,
}
use haikit.Core.Types.{
  Conversation, PayloadRecord, Window, never, ms, unknown, Number, whole, not_finite,
}
use haikit.Runtime.Types.{Hai, Surface, Turn, expired}
use haikit.Runtime.Actions.{outside, observe, gets, emit}
use haikit.Runtime.Handles.{includes, revised}

-- Only a missing field defaults.
unfoldable pub window_of : {W : Type 0} → Surface W → Window
window_of s = elim s.stale_after_ms [ none ↦ never | some w ↦ w ]

-- `valid` in `strictest`, and the test of `checkWindow`.
abbrev pub is_valid : Window → Bool
is_valid never = true
is_valid (ms n) = ltb 0 n
is_valid unknown = false

unfoldable pub check_window :
    {W : Type 0} → (string_of : Window → Text) → Surface W → Result (Unit {0})
unfolding window_of
check_window string_of s =
    if is_valid (window_of s)
    then ok tt
    else fail range_error (
        lit "surface "
        ++ s.name
        ++ lit
            ": staleAfterMs must be a positive, finite number of milliseconds, or \"never\" (got "
        ++ string_of (window_of s)
        ++ lit ")")

-- `Math.min` of the finite windows among two valid ones, and "never" if there are none.
abbrev stricter : Window → Window → Window
stricter (ms a) (ms b) = ms (min a b)
stricter (ms a) _ = ms a
stricter _ w = w

-- The stricter of two windows; `unknown` where neither is valid.
unfoldable pub strictest : Window → Window → Window
strictest recorded current =
    if is_valid recorded
    then (if is_valid current then stricter recorded current else recorded)
    else (if is_valid current then current else unknown)

abbrev day : ℕ
day = 86400000

abbrev hour : ℕ
hour = 3600000

abbrev minute : ℕ
minute = 60000

-- `n unit`, with an `s` unless there is one.
counted : ℕ → Text → Text
counted n unit = decimal n ++ lit " " ++ unit ++ (if n == 1 then [] else lit "s")

unfoldable pub duration : ℕ → Text
unfolding counted
duration t =
    if leb day t
    then counted (t / day) (lit "day")
    else if leb hour t
    then counted (t / hour) (lit "hour")
    else if leb minute t
    then counted (t / minute) (lit "minute")
    else if leb 1000 t
    then counted (t / 1000) (lit "second")
    else lit "under a second"

-- `expiredAt`: `none` stands for NaN, where the time or the window is not known.
unfoldable pub expires_at : Number → Window → Option ℕ
expires_at (whole t) (ms n) = some (t + n)
expires_at _ _ = none

-- `first` of `refuseIfExpired`. Its age is a number just where its time was; a clock that ran
-- backwards would make it negative in the source, and 0 here. Only the message shows it.
pub record Expiry : Type 0 where
  pub expired_at : Option ℕ
  pub age : Option ℕ
  pub window : Option ℕ

-- `expiredAt > now`; no comparison with NaN holds.
abbrev pub is_fresh : Option ℕ → ℕ → Bool
is_fresh none now = false
is_fresh (some t) now = ltb now t

-- `!first || expiredAt < first.expiredAt`.
abbrev pub comes_first : Option ℕ → Option Expiry → Bool
comes_first t none = true
comes_first none (some f) = false
comes_first (some t) (some f) = elim f.expired_at [ none ↦ false | some u ↦ ltb t u ]

abbrev pub age_of : Number → ℕ → Option ℕ
age_of (whole t) now = some (now - t)
age_of (not_finite s) now = none

abbrev pub window_ms : Window → Option ℕ
window_ms (ms n) = some n
window_ms _ = none

unfoldable pub expiry_message : Expiry → Text
unfolding duration
expiry_message f =
    lit "This conversation is out of date — "
    ++ (elim f.age [
      | none ↦ lit "results shown here"
      | some a ↦ lit "results shown " ++ duration a ++ lit " ago"
    ])
    ++ lit " "
    ++ (elim f.window [
      | none ↦ lit "can no longer be checked"
      | some w ↦ lit "were only valid for " ++ duration w
    ])
    ++ lit ". Start a new conversation for current results."

-- A payload that is not fresh under a window that can run out.
abbrev pub close_by : Option ℕ → Expiry → ℕ → Option Expiry → Option Expiry
close_by at expiry now first =
    if is_fresh at now then first else if comes_first at first then some expiry else first

-- The body of the loop: a revised surface, and one that never goes stale, close nothing.
unfoldable pub consider_window : Option Text → Window → Number → ℕ → Option Expiry → Option Expiry
unfolding expires_at
consider_window (some next) window created_at now first = first
consider_window none never created_at now first = first
consider_window none window created_at now first =
    close_by (expires_at created_at window)
      (record {
        expired_at = expires_at created_at window;
        age = age_of created_at now;
        window = window_ms window;
      })
      now first

abbrev is_empty : List Text → Bool
is_empty [] = true
is_empty (h ∷ hs) = false

-- `first` where a row is missing.
abbrev pub nothing_known : Expiry
nothing_known = record { expired_at = none; age = none; window = none }

-- A handle whose row did not come back.
unfoldable pub is_missing : List Text → List PayloadRecord → Bool
unfolding includes
is_missing [] records = false
is_missing (h ∷ hs) records =
    if includes (map (λ (r : PayloadRecord). r.handle) records) h
    then is_missing hs records
    else true

module _ {W : Type 0} (hai : Hai W) where
  -- The window that a stored payload is held to now.
  unfoldable pub held_window : PayloadRecord → Window
  unfolding strictest window_of
  held_window r =
      strictest r.stale_after_ms
        (elim (get r.component hai.surfaces) [ none ↦ unknown | some s ↦ window_of s ])

  -- One round of the loop over the records.
  unfoldable pub consider : Map Text → ℕ → Option Expiry → PayloadRecord → Option Expiry
  unfolding held_window revised consider_window
  consider superseded now first r =
      consider_window (revised superseded r.handle) (held_window r) r.created_at now first

  unfoldable pub consider_all : Map Text → ℕ → Option Expiry → List PayloadRecord → Option Expiry
  unfolding consider
  consider_all superseded now first [] = first
  consider_all superseded now first (r ∷ rs) =
      consider_all superseded now (consider superseded now first r) rs

  unfoldable pub first_expired : Conversation → List PayloadRecord → ℕ → Option Expiry
  unfolding is_missing consider_all
  first_expired c records now =
      consider_all c.superseded now
        (if is_missing c.handles records then some nothing_known else none) records

  -- `report` is false where the caller passes `() => {}` for `emit`.
  unfoldable pub verdict_on : Bool → Option Expiry → Exec (Turn W) Bool
  verdict_on report none = pure false
  verdict_on true (some f) = do emit (expired (expiry_message f)); pure true
  verdict_on false (some f) = pure true

  unfoldable pub refuse_if_expired : Bool → Exec (Turn W) Bool
  unfolding verdict_on first_expired emit expiry_message
  refuse_if_expired report = do
    c ← gets (λ t. t.conversation)
    if is_empty c.handles then pure false else do
      records ← outside (hai.store.get_payloads c.handles c.id)
      now ← observe hai.now
      verdict_on report (first_expired c records now)
