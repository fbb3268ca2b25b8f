-- ===== src/Store/Tests.antt =====
-- Runs of the in-memory store, and the theorems at them.
use haikit.Prelude.{
  ℕ, zero, suc, ◌≡◌, refl, ap, ◌↔◌, false, true, none, some, List, [], ◌∷◌, ◌++◌, map, arith, ltb,
  length, keep, if◌then◌else◌, Text, ◌=t=◌, lit, get, set, decimal, pad_start_2, ok, err,
}
use haikit.Core.Json.{null}
use haikit.Core.Types.{Conversation, NoticeRecord, NoticeBody, PayloadBody, display, never, whole}
use haikit.Store.Storable.{IsStorable, IsStorableFrom, storable, storable_id, storable_total}
use haikit.Store.Copy.{copy_conversation, copy_notice, copy_payload}
use haikit.Store.Memory.{
  Memory, empty, is_leased, busy, fence, handle_of, new_conversation, create_conversation,
  load_conversation, save_conversation, put_payload, put_notice, get_payload, get_notices,
  notice_list,
}
use haikit.Store.Trace.{Call, load, notice, perform, perform_all, IsUuid}
use haikit.Store.Writes.{leased}
use haikit.Store.Fencing.{Refuses, fencing}
use haikit.Store.Exclusion.{exclusion}
use haikit.Store.Notices.{IsNumbered, limited, get_notices-eq-keep, notices_append_only}
use haikit.Store.Payloads.{payload_written}

-- The n-th id is n letters.
unary : ℕ → Text
unary zero = []
unary (suc n) = 97 ∷ unary n

length-unary : (n : ℕ) → length (unary n) ≡ n
unfolding unary
length-unary zero = refl
length-unary (suc n) = ap suc (length-unary n)

unary-IsStorable : (before n : ℕ) → IsStorableFrom before (unary n)
unfolding unary
unary-IsStorable before zero = tt
unary-IsStorable before (suc n) = (refl, unary-IsStorable 97 n)

unary-IsUuid : IsUuid storable unary
unary-IsUuid = record {
  injective = λ i j e. omega (arith, ap length e, length-unary i, length-unary j);
  kept = λ i. storable_id (unary i) (unary-IsStorable 0 i);
}

abbrev begun : List Call
begun = load none 0 0 ∷ []

abbrev first : Conversation
first = new_conversation unary 10 0 empty

abbrev begun_memory : Memory
begun_memory = perform_all unary 10 begun empty

begun_first : get first.id begun_memory.conversations ≡ some first
unfolding perform_all perform load_conversation create_conversation new_conversation get set decimal
    unary ◌=t=◌
begun_first = refl

abbrev props_of_first : PayloadBody
props_of_first = record {
  conversation_id = first.id;
  component = lit "picker";
  version = 1;
  props = null;
  mode = display;
  stale_after_ms = never;
}

abbrev note : NoticeBody
note = record {
  conversation_id = first.id;
  name = lit "note";
  version = 1;
  wake = true;
  payload = null;
  model = some (lit "Hello.");
  handle = none;
  replaces = none;
}

first-ne-nil : ◌≡◌ {A = Text} first.id [] → ⊥
unfolding new_conversation
first-ne-nil e = cc

first_lapsed : is_leased first.lease_until 10 ≡ false
unfolding new_conversation
first_lapsed = refl

storable_total_example :
    IsStorable (storable (65 ∷ 0 ∷ 0xD800 ∷ []))
    × (length (storable (65 ∷ 0 ∷ 0xD800 ∷ [])) ≡ 3)
    × (IsStorable (65 ∷ 0 ∷ 0xD800 ∷ []) ↔ (storable (65 ∷ 0 ∷ 0xD800 ∷ []) ≡ 65 ∷ 0 ∷ 0xD800 ∷ []))
    × (storable (storable (65 ∷ 0 ∷ 0xD800 ∷ [])) ≡ storable (65 ∷ 0 ∷ 0xD800 ∷ []))
storable_total_example = storable_total (65 ∷ 0 ∷ 0xD800 ∷ [])

-- The first holder's lease ends at 10; the conversation is taken over then.
abbrev after_takeover : List Call → Memory
after_takeover calls =
    perform_all unary 10 calls (load_conversation unary 10 (some first.id) 10 10 begun_memory).1

fencing_example :
    Refuses (save_conversation first) (after_takeover (notice note 11 ∷ []))
    × Refuses
        (put_payload props_of_first first.lease_token 12)
        (after_takeover (notice note 11 ∷ []))
fencing_example =
    fencing unary unary-IsUuid 10 begun (notice note 11 ∷ []) first.id first 10 10 first-ne-nil
      begun_first first_lapsed first props_of_first 12 refl refl refl

abbrev second : Conversation
second = leased unary 10 first 10 begun_memory.drawn

exclusion_example :
    (get first.id (after_takeover (load (some first.id) 15 15 ∷ [])).conversations ≡ some second)
    × (load_conversation unary 10
          (some first.id)
          19
          19
          (after_takeover (load (some first.id) 15 15 ∷ []))
        ≡ (err (busy second.id), after_takeover (load (some first.id) 15 15 ∷ [])))
    × (save_conversation second (after_takeover (load (some first.id) 15 15 ∷ [])) ≡ (
      ok tt,
      record (after_takeover (load (some first.id) 15 15 ∷ [])) {
        conversations =
            set first.id
              (copy_conversation second)
              (after_takeover (load (some first.id) 15 15 ∷ [])).conversations;
      },
    ))
exclusion_example =
    exclusion unary 10 begun (load (some first.id) 15 15 ∷ []) first.id first 10 10 first-ne-nil
      begun_first first_lapsed (λ _. omega arith, tt) 19 19 (omega arith) second refl refl

abbrev noted : List Call
noted = load none 0 0 ∷ notice note 1 ∷ notice note 2 ∷ notice note 3 ∷ []

noted-first : get first.id (perform_all unary 10 noted empty).conversations ≡ some first
unfolding perform_all perform load_conversation create_conversation new_conversation put_notice get
    set decimal unary ◌=t=◌
noted-first = refl

get_notices-eq-keep_example :
    get_notices first.id 1 (some 1) (perform_all unary 10 noted empty)
    ≡ some (
        map copy_notice (
          limited
            (some 1)
            (keep (λ n. ltb 1 n.seq) (notice_list first.id (perform_all unary 10 noted empty)))))
get_notices-eq-keep_example = get_notices-eq-keep unary 10 noted first.id 1 (some 1) noted-first

notices_append_only_example :
    let old = notice_list first.id (perform_all unary 10 begun empty) in
    (new : List NoticeRecord) × (notice_list first.id (
        perform_all unary 10
          (notice note 1 ∷ notice note 2 ∷ [])
          (perform_all unary 10 begun empty))
      ≡ old ++ new)
    × IsNumbered (length old) new
notices_append_only_example =
    notices_append_only unary 10 begun (notice note 1 ∷ notice note 2 ∷ []) first.id

first_payload : (put_payload props_of_first first.lease_token 5 begun_memory).0 ≡ ok (lit "ui_01")
unfolding perform_all perform load_conversation create_conversation new_conversation put_payload
    fence handle_of pad_start_2 get set decimal unary ◌=t=◌
first_payload = refl

payload_written_example :
    (get (lit "ui_01") begun_memory.payloads ≡ none)
    × (get_payload (lit "ui_01") first.id (
          perform_all unary 10
            (notice note 6 ∷ [])
            (put_payload props_of_first first.lease_token 5 begun_memory).1)
        ≡ (if storable first.id =t= first.id
            then some (
                copy_payload (
                  copy_payload
                    (record { body = props_of_first; handle = lit "ui_01"; created_at = whole 5 })))
            else none))
payload_written_example =
    payload_written unary 10 begun (notice note 6 ∷ []) props_of_first first.lease_token 5
      (lit "ui_01") first.id first_payload
