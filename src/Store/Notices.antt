-- ===== src/Store/Notices.antt =====
-- `putNotice` and `getNotices` of packages/server/src/store.ts: numbers, and the search by halving.
use haikit.Prelude.{
  ℕ, zero, suc, ◌+◌, ◌-◌, ◌/◌, ◌≡◌, ◌≤◌, ◌<◌, min, refl, sym, subst, ap, ◌∙◌, inl, inr, true,
  Option, none, some, List, [], ◌∷◌, ◌++◌, map, append-nil, append_assoc, arith, ltb, if◌then◌else◌,
  Bool-cases, Option-cases, Text, ◌=t=◌, =t=_iff, get, set, get-set, length, drop, take, keep,
  get_elem?,
}
use haikit.Core.Types.{Conversation, NoticeRecord, NoticeBody}
use haikit.Store.Copy.{copy_notice}
use haikit.Store.Memory.{
  Memory, empty, last_seq, list_or_empty, notice_list, load_conversation, create_conversation,
  take_lease, save_conversation, put_payload, put_notice, first_after, get_notices,
}
use haikit.Store.Trace.{Call, load, save, payload, notice, perform, perform_all, perform_all_keeps}

-- The numbers of a list of notices go up by one from `k + 1`.
abbrev pub IsNumbered : ℕ → List NoticeRecord → Type 0
IsNumbered k [] = Unit
IsNumbered k (n ∷ l) = (n.seq ≡ k + 1) × IsNumbered (k + 1) l

last_seq-IsNumbered :
    (k : ℕ) (n : NoticeRecord) (l : List NoticeRecord)
    → IsNumbered k (n ∷ l)
    → last_seq (n ∷ l) ≡ k + length (n ∷ l)
last_seq-IsNumbered k n [] h = omega arith
last_seq-IsNumbered k n (o ∷ l) h = omega (arith, last_seq-IsNumbered (k + 1) o l h.1)

IsNumbered-append :
    (k : ℕ) (l : List NoticeRecord) (n : NoticeRecord)
    → IsNumbered k l
    → n.seq ≡ k + length l + 1
    → IsNumbered k (l ++ n ∷ [])
IsNumbered-append k [] n h e = (omega arith, tt)
IsNumbered-append k (o ∷ l) n h e = (h.0, IsNumbered-append (k + 1) l n h.1 (omega arith))

last_seq_next : (l : List NoticeRecord) → IsNumbered 0 l → last_seq l ≡ length l
last_seq_next [] h = refl
last_seq_next (n ∷ l) h = omega (arith, last_seq-IsNumbered 0 n l h)

get_elem?-IsNumbered :
    (k i : ℕ) (l : List NoticeRecord)
    → IsNumbered k l
    → i < length l
    → (n : NoticeRecord) × (get_elem? l i ≡ some n) × (n.seq ≡ k + i + 1)
get_elem?-IsNumbered k i [] h lt = elim lt [ ]
get_elem?-IsNumbered k zero (n ∷ l) h lt = (n, refl, omega arith)
get_elem?-IsNumbered k (suc i) (n ∷ l) h lt =
    let (m, e, s) = get_elem?-IsNumbered (k + 1) i l h.1 (omega arith) in (m, e, omega arith)

-- The halving ends at the first notice after `after`.
first_after-eq-min :
    (fuel after : ℕ) (l : List NoticeRecord) (lo hi : ℕ)
    → IsNumbered 0 l
    → hi - lo < fuel
    → lo ≤ min after (length l)
    → min after (length l) ≤ hi
    → hi ≤ length l
    → first_after fuel after l lo hi ≡ min after (length l)
unfolding first_after
first_after-eq-min zero after l lo hi h f a b c = elim f [ ]
first_after-eq-min (suc fuel) after l lo hi h f a b c = elim (Bool-cases (ltb lo hi)) [
  | inr done ↦ rw done (ground arith)
  | inl more ↦
      let mid = (lo + hi) / 2 in
      let at : mid < length l = ground arith in
      let (n, e, s) = get_elem?-IsNumbered 0 mid l h at in
      rw more (
        rw (e, first_after)
          (elim (Bool-cases (ltb after n.seq)) [
            | inl t ↦ rw t (
                first_after-eq-min fuel after l lo mid h (ground arith) a (ground arith)
                  (ground arith))
            | inr t ↦
                rw t
                  (first_after-eq-min fuel after l (mid + 1) hi h (ground arith) (ground arith) b c)
          ]))
]

keep_all :
    (k after : ℕ) (l : List NoticeRecord)
    → IsNumbered k l
    → after ≤ k
    → keep (λ n. ltb after n.seq) l ≡ l
keep_all k after [] h a = refl
keep_all k after (n ∷ l) h a =
    let passes : ltb after n.seq ≡ true = ground (arith, h.0) in
    rw passes (ap (◌∷◌ n) (keep_all (k + 1) after l h.1 (omega arith)))

drop-eq-keep :
    (k after : ℕ) (l : List NoticeRecord)
    → IsNumbered k l
    → drop (min (after - k) (length l)) l ≡ keep (λ n. ltb after n.seq) l
drop-eq-keep k after [] h = let e : min (after - k) 0 ≡ 0 = omega arith in rw e refl
drop-eq-keep k after (n ∷ l) h = elim (Bool-cases (ltb after n.seq)) [
  | inl t ↦
      let e : min (after - k) (suc (length l)) ≡ 0 = ground (arith, h.0) in
      rw (e, t) (ap (◌∷◌ n) (sym (keep_all (k + 1) after l h.1 (ground (arith, h.0)))))
  | inr t ↦
      let e : min (after - k) (suc (length l)) ≡ suc (min (after - (k + 1)) (length l)) =
        ground (arith, h.0) in
      rw (e, t) (drop-eq-keep (k + 1) after l h.1)
]

abbrev stored_notice : NoticeBody → ℕ → Memory → NoticeRecord
stored_notice r now m =
    copy_notice
      (record { body = r; seq = last_seq (notice_list r.conversation_id m) + 1; created_at = now })

IsNumbered-suffix :
    (k : ℕ) (l new : List NoticeRecord) → IsNumbered k (l ++ new) → IsNumbered (k + length l) new
IsNumbered-suffix k [] new h = let e : k + 0 ≡ k = omega arith in rw e h
IsNumbered-suffix k (n ∷ l) new h =
    let e : k + suc (length l) ≡ k + 1 + length l = omega arith in
    rw e (IsNumbered-suffix (k + 1) l new h.1)

abbrev pub limited {ℓ} : {A : Type ℓ} → Option ℕ → List A → List A
limited none l = l
limited (some n) l = take n l

get_notices-limited :
    (id : Text) (after : ℕ) (limit : Option ℕ) (m : Memory) {c : Conversation}
    {l : List NoticeRecord}
    → get id m.conversations ≡ some c
    → drop
        (first_after
          (suc (length (notice_list id m)))
          after
          (notice_list id m)
          0
          (length (notice_list id m)))
        (notice_list id m)
      ≡ l
    → get_notices id after limit m ≡ some (map copy_notice (limited limit l))
unfolding get_notices
get_notices-limited id after none m p d = rw (p, get_notices) (rw d refl)
get_notices-limited id after (some n) m p d = rw (p, get_notices) (rw d refl)

get_notices_of :
    (id : Text) (after : ℕ) (limit : Option ℕ) (m : Memory) {c : Conversation}
    → get id m.conversations ≡ some c
    → IsNumbered 0 (notice_list id m)
    → get_notices id after limit m
      ≡ some (map copy_notice (limited limit (keep (λ n. ltb after n.seq) (notice_list id m))))
get_notices_of id after limit m p h =
    let l = notice_list id m in
    let e : first_after (suc (length l)) after l 0 (length l) ≡ min after (length l) =
      first_after-eq-min (suc (length l)) after l 0 (length l) h (omega arith) (omega arith)
        (omega arith) (omega arith) in
    let d : drop (min after (length l)) l ≡ keep (λ n. ltb after n.seq) l =
      let z : after ≡ after - 0 = omega arith in
      ap (λ i. drop (min i (length l)) l) z ∙ drop-eq-keep 0 after l h in
    get_notices-limited id after limit m p (ap (λ i. drop i l) e ∙ d)

notice_list-set :
    (k id : Text) (l : List NoticeRecord) (m : Memory)
    → notice_list id (record m { notices = set k l m.notices })
      ≡ (if k =t= id then l else notice_list id m)
notice_list-set k id l m =
    ap list_or_empty (get-set k id l m.notices)
    ∙ elim (Bool-cases (k =t= id)) [ inl t ↦ rw t refl | inr t ↦ rw t refl ]

module _ (uuid : ℕ → Text) (lease_ms : ℕ) where
  pub record NoticesNumbered (m : Memory) : Type 0 where
    pub numbered : (id : Text) → IsNumbered 0 (notice_list id m)

  -- The list that a call leaves: the old one, or the old one and a notice that takes its number.
  data Grew (id : Text) (m n : Memory) : Type 0 where
    same : notice_list id n ≡ notice_list id m → Grew id m n
    longer :
        (r : NoticeRecord)
        → r.seq ≡ last_seq (notice_list id m) + 1
        → notice_list id n ≡ notice_list id m ++ r ∷ []
        → Grew id m n

  put-Grew : (id : Text) (r : NoticeBody) (now : ℕ) (m : Memory) → Grew id m (put_notice r now m).1
  unfolding put_notice
  put-Grew id r now m = elim (Option-cases (get r.conversation_id m.conversations)) [
    | inl e ↦ rw (e, put_notice) (same refl)
    | inr (c, e) ↦
        rw (e, put_notice)
          (elim (Bool-cases (r.conversation_id =t= id)) [
            | inl t ↦
                let p : r.conversation_id ≡ id = (=t=_iff r.conversation_id id).0 t in
                longer (stored_notice r now m) (unfold copy_notice in rw p refl) (
                  notice_list-set r.conversation_id id
                    (notice_list r.conversation_id m ++ stored_notice r now m ∷ []) m
                  ∙ rw t (ap (λ k. notice_list k m ++ stored_notice r now m ∷ []) p))
            | inr t ↦ same (
                notice_list-set r.conversation_id id
                  (notice_list r.conversation_id m ++ stored_notice r now m ∷ []) m
                ∙ rw t refl)
          ])
  ]

  perform-Grew : (id : Text) (c : Call) (m : Memory) → Grew id m (perform uuid lease_ms c m)
  unfolding perform load_conversation create_conversation take_lease save_conversation put_payload
  perform-Grew id (load none now later) m = same refl
  perform-Grew id (load (some k) now later) m = same (ground arith)
  perform-Grew id (save c) m = same (ground arith)
  perform-Grew id (payload r token now) m = same (ground arith)
  perform-Grew id (notice r now) m = put-Grew id r now m

  Grew-IsNumbered :
      (id : Text) (m n : Memory)
      → Grew id m n
      → IsNumbered 0 (notice_list id m)
      → IsNumbered 0 (notice_list id n)
  Grew-IsNumbered id m n (same e) h = rw e h
  Grew-IsNumbered id m n (longer r s e) h = rw e (
      IsNumbered-append 0 (notice_list id m) r h
        (omega (arith, last_seq_next (notice_list id m) h)))

  perform-NoticesNumbered :
      (c : Call) (m : Memory) → NoticesNumbered m → NoticesNumbered (perform uuid lease_ms c m)
  perform-NoticesNumbered c m h = record {
    numbered = λ id.
        Grew-IsNumbered id m (perform uuid lease_ms c m) (perform-Grew id c m) (h.numbered id);
  }

  pub reachable-NoticesNumbered :
      (calls : List Call) → NoticesNumbered (perform_all uuid lease_ms calls empty)
  unfolding get
  reachable-NoticesNumbered calls =
      perform_all_keeps uuid lease_ms NoticesNumbered perform-NoticesNumbered calls empty
        (record { numbered = λ id. tt })

  -- After any calls, reading a conversation's notices past a number gives copies of exactly the
  -- notices with a greater number, in order, cut to the limit: the search by halving agrees with a
  -- filter of the whole list.
  pub get_notices-eq-keep :
      (calls : List Call) (id : Text) (after : ℕ) (limit : Option ℕ) {c : Conversation}
      → get id (perform_all uuid lease_ms calls empty).conversations ≡ some c
      → get_notices id after limit (perform_all uuid lease_ms calls empty)
        ≡ some (
            map copy_notice (
              limited limit (
                keep
                  (λ n. ltb after n.seq)
                  (notice_list id (perform_all uuid lease_ms calls empty)))))
  get_notices-eq-keep calls id after limit p =
      get_notices_of id after limit (perform_all uuid lease_ms calls empty) p
        ((reachable-NoticesNumbered calls).numbered id)

  append_only :
      (id : Text) (calls : List Call) (m : Memory)
      → (new : List NoticeRecord) × (notice_list id (perform_all uuid lease_ms calls m)
          ≡ notice_list id m ++ new)
  unfolding perform_all
  append_only id [] m = ([], sym (append-nil (notice_list id m)))
  append_only id (c ∷ cs) m =
      let (new, e) = append_only id cs (perform uuid lease_ms c m) in
      append_after new e (perform-Grew id c m)
    where
      append_after :
          (new : List NoticeRecord)
          → notice_list id (perform_all uuid lease_ms cs (perform uuid lease_ms c m))
            ≡ notice_list id (perform uuid lease_ms c m) ++ new
          → Grew id m (perform uuid lease_ms c m)
          → (all : List NoticeRecord) × (notice_list id
                (perform_all uuid lease_ms cs (perform uuid lease_ms c m))
              ≡ notice_list id m ++ all)
      append_after new e (same s) = (new, e ∙ ap (λ l. l ++ new) s)
      append_after new e (longer r _ s) =
          (r ∷ new, e ∙ ap (λ l. l ++ new) s ∙ append_assoc (notice_list id m) (r ∷ []) new)

  -- Whatever calls follow, a conversation's notices stay as they are and where they are, and those
  -- that come after them have greater numbers, one after another: a reader that has read through a
  -- number never finds a smaller one later.
  pub notices_append_only :
      (before after : List Call) (id : Text)
      → let old = notice_list id (perform_all uuid lease_ms before empty) in
        (new : List NoticeRecord) × (notice_list id
            (perform_all uuid lease_ms after (perform_all uuid lease_ms before empty))
          ≡ old ++ new)
        × IsNumbered (length old) new
  notices_append_only before after id =
      let m = perform_all uuid lease_ms before empty in
      let (new, e) = append_only id after m in
      let all : IsNumbered 0 (notice_list id (perform_all uuid lease_ms after m)) =
        (perform_all_keeps uuid lease_ms NoticesNumbered perform-NoticesNumbered after m
            (reachable-NoticesNumbered before)).numbered
          id in
      let z : 0 + length (notice_list id m) ≡ length (notice_list id m) = omega arith in
      (
        new,
        e,
        subst (λ k. IsNumbered k new) z (IsNumbered-suffix 0 (notice_list id m) new (rw e at all)),
      )
