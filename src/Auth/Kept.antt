-- ===== src/Auth/Kept.antt =====
-- What the server keeps of the store's owners: `keep` of packages/auth/src/index.ts.
use haikit.Prelude.{
  ℕ, zero, suc, ◌≡◌, refl, sym, subst, false, Bool-cases, inl, inr, Option, none, some, List, [],
  ◌∷◌, ◌++◌, if◌then◌else◌, ltb, length, drop, get_elem?, All, arith, Text, ◌=t=◌, =t=_iff, Map,
  get, remove, get-set, get-remove, Distinct, Distinct-remove, ok,
}
use haikit.Auth.Ownership.{
  AuthStore, is_others, set_owner, cache_entries, keep_entry, or_read, without,
}

-- Every conversation that has an owner there has that one here.
abbrev pub Extends : Map Text → Map Text → Type 0
Extends m m' = (id owner : Text) → get id m ≡ some owner → get id m' ≡ some owner

abbrev pub Agrees : Map Text → Text × Option Text → Type 0
Agrees m found = (owner : Text) → found.1 ≡ some owner → get found.0 m ≡ some owner

get-append_one :
    (k c v : Text) (m : Map Text)
    → get c (m ++ (k, v) ∷ []) ≡ or_read (get c m) (if k =t= c then some v else none)
unfolding get
get-append_one k c v [] = refl
get-append_one k c v ((j, w) ∷ m) = elim (Bool-cases (j =t= c)) [
  | inl p ↦ rw p refl
  | inr p ↦ rw p (get-append_one k c v m)
]

Distinct-append_one :
    (k v : Text) (m : Map Text) → get k m ≡ none → Distinct m → Distinct (m ++ (k, v) ∷ [])
unfolding Distinct get
Distinct-append_one k v [] e d = (refl, tt)
Distinct-append_one k v ((j, w) ∷ m) e d = elim (Bool-cases (j =t= k)) [
  | inl p ↦ grind (arith, p, e)
  | inr p ↦ (
    rw (get-append_one k j v m, d.0) (ground (arith, p, =t=_iff k j, =t=_iff j k)),
    Distinct-append_one k v m (grind (arith, p, e)) d.1,
  )
]

drop-Distinct : (m : Map Text) → Distinct m → Distinct (drop 1 m)
unfolding Distinct
drop-Distinct [] d = tt
drop-Distinct ((j, w) ∷ m) d = d.1

drop-Extends : (m : Map Text) → Distinct m → Extends (drop 1 m) m
unfolding Distinct get
drop-Extends [] d id owner e = e
drop-Extends ((j, w) ∷ m) d id owner e = elim (Bool-cases (j =t= id)) [
  | inl p ↦ grind (arith, p, e, d.0, =t=_iff j id)
  | inr p ↦ rw p e
]

removed : (k : Text) (m : Map Text) → get k (remove k m) ≡ none
removed k m = ground (arith, get-remove k k m, =t=_iff k k)

pub kept-Distinct : (k v : Text) (m : Map Text) → Distinct m → Distinct (keep_entry k v m)
unfolding keep_entry
kept-Distinct k v m d =
    let kept = remove k m ++ (k, v) ∷ [] in
    let whole : Distinct kept =
      Distinct-append_one k v (remove k m) (removed k m) (Distinct-remove k m d) in
    elim (Bool-cases (ltb cache_entries (length kept))) [
      | inl p ↦ rw p (drop-Distinct kept whole)
      | inr p ↦ rw p whole
    ]

-- What is kept was there before, or is the new entry.
appended-Extends :
    (k v : Text) (m m' : Map Text)
    → Extends m m'
    → get k m' ≡ some v
    → Extends (remove k m ++ (k, v) ∷ []) m'
appended-Extends k v m m' h e id owner f = elim (Bool-cases (k =t= id)) [
  | inl p ↦
      let same : k ≡ id = (=t=_iff k id).0 p in
      let new : v ≡ owner =
        grind (arith, p, f, get-append_one k id v (remove k m), get-remove k id m) in
      subst (λ o. get id m' ≡ some o) new (subst (λ i. get i m' ≡ some v) same e)
  | inr p ↦ h id owner (grind (arith, p, f, get-append_one k id v (remove k m), get-remove k id m))
]

pub kept-Extends :
    (k v : Text) (m m' : Map Text)
    → Distinct m
    → Extends m m'
    → get k m' ≡ some v
    → Extends (keep_entry k v m) m'
unfolding keep_entry
kept-Extends k v m m' d h e =
    let kept = remove k m ++ (k, v) ∷ [] in
    let whole : Distinct kept =
      Distinct-append_one k v (remove k m) (removed k m) (Distinct-remove k m d) in
    let from : Extends kept m' = appended-Extends k v m m' h e in
    elim (Bool-cases (ltb cache_entries (length kept))) [
      | inl p ↦ rw p (λ id owner f. from id owner (drop-Extends kept whole id owner f))
      | inr p ↦ rw p from
    ]

pub set_owner-Extends :
    (id user : Text) (s : AuthStore) → Extends s.owners (set_owner id user s).1.owners
unfolding set_owner
set_owner-Extends id user s c owner e = elim (Bool-cases (is_others (get id s.owners) user)) [
  | inl p ↦ rw p e
  | inr p ↦ rw p (elim (Bool-cases (id =t= c)) [
    | inr q ↦ rw (get-set id c user s.owners, q) e
    | inl q ↦
        let same : id ≡ c = (=t=_iff id c).0 q in
        let had : get id s.owners ≡ some owner =
          subst (λ i. get i s.owners ≡ some owner) (sym same) e in
        let mine : is_others (some owner) user ≡ false = rw had at p in
        rw (get-set id c user s.owners, q) (ground (arith, mine, =t=_iff owner user))
  ])
]

pub owned :
    (id user : Text) (s : AuthStore)
    → (set_owner id user s).0 ≡ ok tt
    → get id (set_owner id user s).1.owners ≡ some user
unfolding set_owner
owned id user s = elim (Bool-cases (is_others (get id s.owners) user)) [
  | inl p ↦ rw p (λ e. cc)
  | inr p ↦ rw p (λ e. ground (arith, get-set id id user s.owners, =t=_iff id id))
]

pub All-extended :
    (m m' : Map Text) (xs : List (Text × Option Text))
    → Extends m m'
    → All (Agrees m) xs
    → All (Agrees m') xs
All-extended m m' [] h a = tt
All-extended m m' (x ∷ xs) h a = (λ owner e. h x.0 owner (a.0 owner e), All-extended m m' xs h a.1)

pub All-append_one :
    (m : Map Text) (xs : List (Text × Option Text)) (x : Text × Option Text)
    → All (Agrees m) xs
    → Agrees m x
    → All (Agrees m) (xs ++ x ∷ [])
All-append_one m [] x a h = (h, tt)
All-append_one m (y ∷ xs) x a h = (a.0, All-append_one m xs x a.1 h)

pub All-without :
    (m : Map Text) (n : ℕ) (xs : List (Text × Option Text))
    → All (Agrees m) xs
    → All (Agrees m) (without n xs)
All-without m n [] a = tt
All-without m zero (x ∷ xs) a = a.1
All-without m (suc n) (x ∷ xs) a = (a.0, All-without m n xs a.1)

pub All-found :
    (m : Map Text) (n : ℕ) (xs : List (Text × Option Text)) (x : Text × Option Text)
    → All (Agrees m) xs
    → get_elem? xs n ≡ some x
    → Agrees m x
All-found m n [] x a e = cc
All-found m zero (y ∷ xs) x a e = let same : y ≡ x = cc in subst (Agrees m) same a.0
All-found m (suc n) (y ∷ xs) x a e = All-found m n xs x a.1 e
