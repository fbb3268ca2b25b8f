-- ===== src/Store/Memory.antt =====
-- `memoryStore` of packages/server/src/store.ts. Its maps and counters are a record; an operation
-- takes the times that its calls of `Date.now()` give, in their order.
use haikit.Prelude.{
  ℕ, zero, suc, ◌+◌, ◌/◌, Bool, true, false, not, Option, none, some, List, [], ◌∷◌, ◌++◌, map, ltb,
  ◌==◌, if◌then◌else◌, Text, ◌=t=◌, lit, length, take, drop, get_elem?, last?, keep, Map, get, set,
  decimal, pad_start_2, Result, ok, err, fail, error, range_error, conversation_busy, stale_lease,
  Error, Exec,
}
use haikit.Core.Types.{
  Conversation, idle, NoticeBody, NoticeRecord, PayloadBody, PayloadRecord, Number, whole,
  not_finite,
}
use haikit.Store.Copy.{copy_conversation, copy_notice, copy_payload}

pub record Memory : Type 0 where
  pub conversations : Map Conversation
  pub payloads : Map PayloadRecord
  pub notices : Map (List NoticeRecord)
  pub conv_seq : ℕ
  pub handle_seq : ℕ
  -- how many ids `crypto.randomUUID()` has given
  pub drawn : ℕ

abbrev pub default_lease_ms : ℕ
default_lease_ms = 120000

abbrev pub empty : Memory
empty = record {
  conversations = [];
  payloads = [];
  notices = [];
  conv_seq = 0;
  handle_seq = 0;
  drawn = 0;
}

abbrev pub bad_lease_ms {ℓ} : {A : Type ℓ} → Text → Result A
bad_lease_ms got =
    fail range_error
      (lit "leaseMs must be a positive, finite number of milliseconds (got " ++ got ++ lit ")")

-- The check of `options.leaseMs`, and the store at its start.
unfoldable pub memory_store : Option Number → Result (ℕ × Memory)
memory_store none = ok (default_lease_ms, empty)
memory_store (some (not_finite s)) = bad_lease_ms s
memory_store (some (whole n)) = if n == 0 then bad_lease_ms (decimal n) else ok (n, empty)

abbrev pub same_token : Option Text → Option Text → Bool
same_token none none = true
same_token none (some t) = false
same_token (some s) none = false
same_token (some s) (some t) = s =t= t

-- The two errors of `fence`.
abbrev pub never_issued : Text → Error
never_issued id = record {
  name = stale_lease;
  message = lit "conversation " ++ id ++ lit " does not exist — no lease was ever issued for it";
}

abbrev pub taken_over : Text → Error
taken_over id = record {
  name = stale_lease;
  message =
      lit "conversation " ++ id ++ lit " was taken over by a newer turn — this write was discarded";
}

-- A write by a holder that was superseded, or that never was one, throws `StaleLease`.
unfoldable pub fence : Text → Option Text → Memory → Result (Unit {0})
fence conversation_id lease_token m = elim (get conversation_id m.conversations) [
  | none ↦ err (never_issued conversation_id)
  | some stored ↦
      if same_token stored.lease_token lease_token then ok tt else err (taken_over conversation_id)
]

abbrev pub busy : Text → Error
busy id = record {
  name = conversation_busy;
  message = lit "conversation " ++ id ++ lit " is busy — another turn is in flight";
}

-- `leaseUntil !== null && leaseUntil > Date.now()`.
abbrev pub is_leased : Option ℕ → ℕ → Bool
is_leased none now = false
is_leased (some until) now = ltb now until

-- `handle` in `putPayload`.
unfoldable pub handle_of : ℕ → Text
handle_of n = lit "ui_" ++ pad_start_2 (decimal n)

-- `uuid n` is what the n-th call of `crypto.randomUUID()` gives.
module _ (uuid : ℕ → Text) (lease_ms : ℕ) where
  unfoldable pub new_conversation : ℕ → Memory → Conversation
  new_conversation now m = record {
    id =
        lit "conv_"
        ++ decimal (m.conv_seq + 1)
        ++ 95 ∷ take 16 (keep (λ u. not (u == 45)) (uuid m.drawn));
    status = idle;
    messages = [];
    handles = [];
    frozen = [];
    superseded = [];
    pending = none;
    lease_until = some (now + lease_ms);
    lease_token = some (uuid (m.drawn + 1));
    noticed_through = 0;
    wakes = [];
    woke_through = 0;
    wake_turns = 0;
    announcing = none;
  }

  -- A load that starts a conversation.
  unfoldable pub create_conversation : ℕ → Exec Memory Conversation
  unfolding new_conversation
  create_conversation now m =
      let c = new_conversation now m in
      (
        ok (copy_conversation c),
        record m {
          conversations = set c.id c m.conversations;
          conv_seq = m.conv_seq + 1;
          drawn = m.drawn + 2;
        },
      )

  -- The lease of a stored conversation, taken or refused.
  unfoldable pub take_lease : Text → Conversation → ℕ → ℕ → Exec Memory Conversation
  take_lease id stored now later m =
      let held : Conversation = record stored {
        lease_until = some (later + lease_ms);
        lease_token = some (uuid m.drawn);
      } in
      if is_leased stored.lease_until now then (err (busy stored.id), m) else (
        ok (copy_conversation held),
        record m { conversations = set id held m.conversations; drawn = m.drawn + 1 },
      )

  unfoldable pub load_conversation : Option Text → ℕ → ℕ → Exec Memory Conversation
  unfolding create_conversation take_lease
  load_conversation none now later m = create_conversation now m
  load_conversation (some id) now later m =
      if id =t= [] then create_conversation now m else elim (get id m.conversations) [
        | none ↦ create_conversation now m
        | some stored ↦ take_lease id stored now later m
      ]

unfoldable pub save_conversation : Conversation → Exec Memory (Unit {0})
unfolding fence
save_conversation c m = elim (fence c.id c.lease_token m) [
  | ok _ ↦ (ok tt, record m { conversations = set c.id (copy_conversation c) m.conversations })
  | err e ↦ (err e, m)
]

unfoldable pub put_payload : PayloadBody → Option Text → ℕ → Exec Memory Text
unfolding fence handle_of
put_payload r lease_token now m =
    let handle = handle_of (m.handle_seq + 1) in
    elim (fence r.conversation_id lease_token m) [
      | ok _ ↦ (
        ok handle,
        record m {
          handle_seq = m.handle_seq + 1;
          payloads =
              set handle
                (copy_payload (record { body = r; handle = handle; created_at = whole now }))
                m.payloads;
        },
      )
      | err e ↦ (err e, m)
    ]

unfoldable pub get_payload : Text → Text → Memory → Option PayloadRecord
get_payload handle conversation_id m = elim (get handle m.payloads) [
  | none ↦ none
  | some r ↦ if r.conversation_id =t= conversation_id then some (copy_payload r) else none
]

unfoldable pub get_payloads : List Text → Text → Memory → List PayloadRecord
unfolding get_payload
get_payloads [] conversation_id m = []
get_payloads (handle ∷ handles) conversation_id m =
    let rest = get_payloads handles conversation_id m in
    elim (get_payload handle conversation_id m) [ none ↦ rest | some r ↦ r ∷ rest ]

abbrev pub list_or_empty : Option (List NoticeRecord) → List NoticeRecord
list_or_empty none = []
list_or_empty (some l) = l

abbrev pub notice_list : Text → Memory → List NoticeRecord
notice_list id m = list_or_empty (get id m.notices)

abbrev pub last_seq : List NoticeRecord → ℕ
last_seq l = elim (last? l) [ none ↦ 0 | some n ↦ n.seq ]

unfoldable pub put_notice : NoticeBody → ℕ → Exec Memory NoticeRecord
put_notice r now m =
    let list = notice_list r.conversation_id m in
    let stored = copy_notice (record { body = r; seq = last_seq list + 1; created_at = now }) in
    elim (get r.conversation_id m.conversations) [
      | none ↦ (fail error (lit "conversation " ++ r.conversation_id ++ lit " does not exist"), m)
      | some _ ↦ (
        ok (copy_notice stored),
        record m { notices = set r.conversation_id (list ++ stored ∷ []) m.notices },
      )
    ]

-- The loop of `getNotices`, over `lo` and `hi`: the first place whose notice comes after `after`.
unfoldable pub first_after : ℕ → ℕ → List NoticeRecord → ℕ → ℕ → ℕ
first_after zero after list lo hi = lo
first_after (suc fuel) after list lo hi =
    let mid = (lo + hi) / 2 in
    let below = first_after fuel after list lo mid in
    let above = first_after fuel after list (mid + 1) hi in
    if ltb lo hi
    then elim (get_elem? list mid) [ some n ↦ if ltb after n.seq then below else above | none ↦ lo ]
    else lo

-- `limit` is `none` for Infinity. The interval at least halves, so `length + 1` rounds are enough.
unfoldable pub get_notices : Text → ℕ → Option ℕ → Memory → Option (List NoticeRecord)
unfolding first_after
get_notices id after limit m =
    let list = notice_list id m in
    let rest = drop (first_after (suc (length list)) after list 0 (length list)) list in
    elim (get id m.conversations) [
      | none ↦ none
      | some _ ↦ some (map copy_notice (elim limit [ none ↦ rest | some n ↦ take n rest ]))
    ]
