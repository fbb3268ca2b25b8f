-- ===== src/Runtime/Freshness.antt =====
-- When `refuseIfExpired` of packages/server/src/runtime.ts lets a request through.
use haikit.Prelude.{
  ℕ, zero, suc, ◌+◌, ◌≡◌, ◌<◌, ◌↔◌, refl, inl, inr, true, false, ◌||◌, Option, none, some, List, [],
  ◌∷◌, map, arith, Bool-cases, Option-cases, Text, Map, All,
}
use haikit.Core.Types.{
  Conversation, PayloadRecord, Window, never, ms, unknown, Number, whole, not_finite,
}
use haikit.Runtime.Types.{Hai}
use haikit.Runtime.Handles.{includes, revised}
use haikit.Runtime.Windows.{
  is_valid, strictest, expires_at, Expiry, is_fresh, comes_first, close_by, nothing_known,
  consider_window, held_window, consider, consider_all, is_missing, first_expired,
}

-- Data of this age may be shown under this window.
abbrev pub Allows : Window → ℕ → Type 0
Allows never age = Unit
Allows (ms n) age = age < n
Allows unknown age = ⊥

-- The same of a recorded or declared window, which sets no limit where it is none.
abbrev pub Limits : Window → ℕ → Type 0
Limits (ms (suc n)) age = age < suc n
Limits _ age = Unit

-- Where a payload's recorded window or its surface's declared one is valid, the window that it is
-- held to allows exactly the ages that every valid one of the two allows; where neither is, it
-- allows none.
pub strictest-Allows :
    (recorded current : Window) (age : ℕ)
    → Allows (strictest recorded current) age ↔ (
        ((is_valid recorded || is_valid current) ≡ true) × Limits recorded age × Limits current age)
unfolding strictest
strictest-Allows never never age = ground arith
strictest-Allows never (ms zero) age = ground arith
strictest-Allows never (ms (suc b)) age = ground arith
strictest-Allows never unknown age = ground arith
strictest-Allows (ms zero) never age = ground arith
strictest-Allows (ms zero) (ms zero) age = ground arith
strictest-Allows (ms zero) (ms (suc b)) age = ground arith
strictest-Allows (ms zero) unknown age = ground arith
strictest-Allows (ms (suc a)) never age = ground arith
strictest-Allows (ms (suc a)) (ms zero) age = ground arith
strictest-Allows (ms (suc a)) (ms (suc b)) age = ground arith
strictest-Allows (ms (suc a)) unknown age = ground arith
strictest-Allows unknown never age = ground arith
strictest-Allows unknown (ms zero) age = ground arith
strictest-Allows unknown (ms (suc b)) age = ground arith
strictest-Allows unknown unknown age = ground arith

-- A payload that closes nothing: revised since, never going stale, or known to be young enough.
abbrev pub IsLiveAt : Option Text → Window → Number → ℕ → Type 0
IsLiveAt (some next) window created_at now = Unit
IsLiveAt none never created_at now = Unit
IsLiveAt none (ms n) (whole t) now = now < t + n
IsLiveAt none _ _ now = ⊥

close_by-some :
    (at : Option ℕ) (e : Expiry) (now : ℕ) (f : Expiry)
    → (g : Expiry) × (close_by at e now (some f) ≡ some g)
close_by-some at e now f = elim (Bool-cases (is_fresh at now)) [
  | inl p ↦ (f, rw p refl)
  | inr p ↦ elim (Bool-cases (comes_first at (some f))) [
    | inl q ↦ (e, rw (p, q) refl)
    | inr q ↦ (f, rw (p, q) refl)
  ]
]

consider_window-some :
    (next : Option Text) (w : Window) (t : Number) (now : ℕ) (f : Expiry)
    → (g : Expiry) × (consider_window next w t now (some f) ≡ some g)
unfolding consider_window
consider_window-some (some next) w t now f = (f, refl)
consider_window-some none never t now f = (f, refl)
consider_window-some none (ms n) t now f = close_by-some (expires_at t (ms n)) _ now f
consider_window-some none unknown t now f = close_by-some (expires_at t unknown) _ now f

consider_window-none :
    (next : Option Text) (w : Window) (t : Number) (now : ℕ)
    → (consider_window next w t now none ≡ none) ↔ IsLiveAt next w t now
unfolding consider_window
consider_window-none (some next) w t now = ground arith
consider_window-none none never t now = ground arith
consider_window-none none (ms n) (whole t) now = ground arith
consider_window-none none (ms n) (not_finite s) now = ground arith
consider_window-none none unknown (whole t) now = ground arith
consider_window-none none unknown (not_finite s) now = ground arith

module _ {W : Type 0} (hai : Hai W) where
  abbrev pub IsLive : Map Text → ℕ → PayloadRecord → Type 0
  IsLive superseded now r =
      IsLiveAt (revised superseded r.handle) (held_window hai r) r.created_at now

  consider_all-some :
      (m : Map Text) (now : ℕ) (f : Expiry) (rs : List PayloadRecord)
      → (g : Expiry) × (consider_all hai m now (some f) rs ≡ some g)
  unfolding consider_all
  consider_all-some m now f [] = (f, refl)
  consider_all-some m now f (r ∷ rs) =
      let (g, e) =
        consider_window-some (revised m r.handle) (held_window hai r) r.created_at now f in
      let (k, d) = consider_all-some m now g rs in (k, rw (e, consider) d)

  consider-none :
      (m : Map Text) (now : ℕ) (r : PayloadRecord)
      → (consider hai m now none r ≡ none) ↔ IsLive m now r
  unfolding consider
  consider-none m now r =
      consider_window-none (revised m r.handle) (held_window hai r) r.created_at now

  consider_all-none :
      (m : Map Text) (now : ℕ) (rs : List PayloadRecord)
      → (consider_all hai m now none rs ≡ none) ↔ All (IsLive m now) rs
  unfolding consider_all
  consider_all-none m now [] = (λ _. tt, λ _. refl)
  consider_all-none m now (r ∷ rs) = elim (Option-cases (consider hai m now none r)) [
    | inl e ↦ (
      λ p. ((consider-none m now r).0 e, (consider_all-none m now rs).0 (rw e at p)),
      λ l. rw e ((consider_all-none m now rs).1 l.1),
    )
    | inr (f, e) ↦ (
      λ p. let (g, d) = consider_all-some m now f rs in cc (d, rw e at p),
      λ l. cc (e, (consider-none m now r).1 l.0),
    )
  ]

  is_missing-false :
      (handles : List Text) (rs : List PayloadRecord)
      → (is_missing handles rs ≡ false)
        ↔ All (λ h. includes (map (λ (r : PayloadRecord). r.handle) rs) h ≡ true) handles
  unfolding is_missing
  is_missing-false [] rs = (λ _. tt, λ _. refl)
  is_missing-false (h ∷ hs) rs =
      elim (Bool-cases (includes (map (λ (r : PayloadRecord). r.handle) rs) h)) [
        | inl e ↦
            rw e (λ p. (refl, (is_missing-false hs rs).0 p), λ l. (is_missing-false hs rs).1 l.1)
        | inr e ↦ rw e (λ p. cc, λ l. cc (l.0))
      ]

  -- No surface closes the conversation exactly where every handle in its history came back from the
  -- store, and every payload that did was revised since, never goes stale, or is known to be within
  -- its window.
  pub first_expired-none :
      (c : Conversation) (records : List PayloadRecord) (now : ℕ)
      → (first_expired hai c records now ≡ none) ↔ (
          All (λ h. includes (map (λ (r : PayloadRecord). r.handle) records) h ≡ true) c.handles
          × All (IsLive c.superseded now) records)
  unfolding first_expired
  first_expired-none c records now = elim (Bool-cases (is_missing c.handles records)) [
    | inr e ↦ rw e (
      λ p. (
        (is_missing-false c.handles records).0 e,
        (consider_all-none c.superseded now records).0 p,
      ),
      λ l. (consider_all-none c.superseded now records).1 l.1,
    )
    | inl e ↦ rw e (
      λ p. let (g, d) = consider_all-some c.superseded now nothing_known records in cc (d, p),
      λ l. cc (e, (is_missing-false c.handles records).1 l.0),
    )
  ]
