-- ===== src/Runtime/Waits.antt =====
-- The wait of an update for a turn in progress: the loop of `revise` in packages/server/src/runtime.ts.
use haikit.Prelude.{
  ℕ, zero, suc, ◌+◌, ◌-◌, ◌*◌, ◌≤◌, ◌<◌, min, ◌≡◌, refl, ap, ◌⊎◌, inl, inr, true, false, leb,
  Bool-cases, Option, none, some, Text, Result, Error, Exec, ◌>>=◌, pure, throw, attempt, on_result,
  is_conversation_busy, arith,
}
use haikit.Core.Types.{Conversation}
use haikit.Runtime.Types.{Hai}
use haikit.Runtime.Update.{retry_ms, retry_max_ms, try_later, load_when_free}

-- What the wait relies on: the clock never runs backwards, and a timer does not fire early.
pub record Clocked {W : Type 0} (hai : Hai W) (sleep : ℕ → W → W) : Type 0 where
  pub clock : W → ℕ
  pub read : (w : W) → (hai.now w).0 ≡ clock w
  pub reading : (w : W) → clock w ≤ clock (hai.now w).1
  pub loading : (id : Text) (w : W) → clock w ≤ clock (hai.store.load_conversation (some id) w).1
  pub sleeping : (n : ℕ) (w : W) → clock w + n ≤ clock (sleep n w)

passed :
    {deadline now at after : ℕ} → now ≡ at → at ≤ after → leb deadline now ≡ true → deadline ≤ after
passed e l p = ground arith

not_passed : {deadline now : ℕ} → leb deadline now ≡ false → now < deadline
not_passed p = ground arith

at_most : {now at after : ℕ} → now ≡ at → at ≤ after → now ≤ after
at_most e l = omega arith

grown :
    (deadline wait start now at slept later : ℕ)
    → 1 ≤ wait
    → leb deadline now ≡ false
    → now ≡ start
    → start ≤ at
    → at + min wait (deadline - now) ≤ slept
    → later ≡ slept
    → start < later
grown deadline wait start now at slept later w p e l s q = ground arith

rounds_left :
    {deadline n start loaded m : ℕ}
    → start ≤ loaded
    → loaded < m
    → m < deadline
    → deadline < start + suc n
    → 1 ≤ n
rounds_left l g b e = omega arith

still_enough :
    (n : ℕ) {deadline start loaded m later : ℕ}
    → start ≤ loaded
    → loaded < m
    → m ≤ later
    → deadline < start + suc n
    → deadline < later + n
still_enough n l g k e = omega arith

doubled : {wait : ℕ} → 1 ≤ wait → 1 ≤ min (wait * 2) retry_max_ms
doubled w = omega arith

module _ {W : Type 0} (hai : Hai W) (sleep : ℕ → W → W) (time : Clocked hai sleep) (deadline : ℕ)
    (id : Text) where
  abbrev Tries : Error → Type 0
  Tries e = (world : W) × ((hai.store.load_conversation (some id) world).0 ≡ Result.err e)

  -- The wait ended: with what the store loaded last, or with the error of a try, which is not that
  -- the conversation is busy unless the deadline has passed.
  unfoldable pub Waited : Result (Option Conversation) → W → Type 0
  Waited (Result.ok none) w = ⊥
  Waited (Result.ok (some c)) w =
      (world : W) × (hai.store.load_conversation (some id) world ≡ (Result.ok c, w))
  Waited (Result.err e) w = Tries e × ((is_conversation_busy e ≡ false) ⊎ (deadline ≤ time.clock w))

  try_later-Waited :
      (wait : ℕ) (again : Exec W (Option Conversation)) (e : Error) (w : W)
      → 1 ≤ wait
      → Tries e
      → ((m : ℕ) (w2 : W)
          → time.clock w < m
          → m < deadline
          → m ≤ time.clock w2
          → Waited (again w2).0 (again w2).1)
      → Waited
          (try_later hai sleep deadline wait again e w).0
          (try_later hai sleep deadline wait again e w).1
  unfolding try_later throw Waited
  try_later-Waited wait again e w some_wait tried next =
      let now = (hai.now w).0 in
      let w1 = (hai.now w).1 in
      let nap = min wait (deadline - now) in
      let slept = sleep nap w1 in
      let later = (hai.now slept).0 in
      let w2 = (hai.now slept).1 in
      let Passed : W → Type 0 = λ w'. deadline ≤ time.clock w' in
      elim (Bool-cases (is_conversation_busy e)) [
        | inr b ↦ rw b (tried, inl b)
        | inl b ↦ elim (Bool-cases (leb deadline now)) [
          | inl p ↦ rw (b, p) (tried, inr (passed (time.read w) (time.reading w) p))
          | inr p ↦ elim (Bool-cases (leb deadline later)) [
            | inl q ↦ rw (b, p, q) (tried, inr (passed (time.read slept) (time.reading slept) q))
            | inr q ↦
                rw (b, p, q)
                  (next later w2
                    (grown deadline wait (time.clock w) now (time.clock w1) (time.clock slept) later
                      some_wait p (time.read w) (time.reading w) (time.sleeping nap w1)
                      (time.read slept))
                    (not_passed q) (at_most (time.read slept) (time.reading slept)))
          ]
        ]
      ]

  -- Once a try ended.
  tried-Waited :
      (wait : ℕ) (again : Exec W (Option Conversation)) (loaded : Result Conversation) (world w : W)
      → 1 ≤ wait
      → hai.store.load_conversation (some id) world ≡ (loaded, w)
      → ((m : ℕ) (w2 : W)
          → time.clock w < m
          → m < deadline
          → m ≤ time.clock w2
          → Waited (again w2).0 (again w2).1)
      → let m = on_result loaded (try_later hai sleep deadline wait again) λ c. pure (some c) in
        Waited (m w).0 (m w).1
  unfolding on_result pure Waited
  tried-Waited wait again (Result.ok c) world w some_wait e next = (world, e)
  tried-Waited wait again (Result.err x) world w some_wait e next =
      try_later-Waited wait again x w some_wait (world, ap (λ r. r.0) e) next

  load_when_free-Waited :
      (n wait : ℕ) (w : W)
      → 1 ≤ n
      → 1 ≤ wait
      → deadline < time.clock w + n
      → Waited
          (load_when_free hai sleep n deadline wait id w).0
          (load_when_free hai sleep n deadline wait id w).1
  unfolding load_when_free attempt ◌>>=◌
  load_when_free-Waited zero wait w some_rounds some_wait enough = absurd (omega arith)
  load_when_free-Waited (suc n) wait w some_rounds some_wait enough =
      let again = load_when_free hai sleep n deadline (min (wait * 2) retry_max_ms) id in
      tried-Waited wait again _ w _ some_wait refl λ m w2 grew before kept.
        load_when_free-Waited n (min (wait * 2) retry_max_ms) w2
          (rounds_left (time.loading id w) grew before enough) (doubled some_wait)
          (still_enough n (time.loading id w) grew kept enough)

-- Where the clock never runs backwards and no timer fires early, the wait of an update ends within
-- the rounds that it has: with the conversation that the store loaded last, or with the error of a
-- try, which is not that the conversation is busy unless the timeout has passed.
pub load_when_free-ends :
    {W : Type 0} (hai : Hai W) (sleep : ℕ → W → W) (time : Clocked hai sleep) (id : Text)
    (timeout_ms : ℕ) (w : W)
    → Waited hai sleep time
        (time.clock w + timeout_ms)
        id
        (load_when_free hai sleep (timeout_ms + 1) (time.clock w + timeout_ms) retry_ms id w).0
        (load_when_free hai sleep (timeout_ms + 1) (time.clock w + timeout_ms) retry_ms id w).1
load_when_free-ends hai sleep time id timeout_ms w =
    load_when_free-Waited hai sleep time (time.clock w + timeout_ms) id (timeout_ms + 1) retry_ms w
      (omega arith) (omega arith) (omega arith)
