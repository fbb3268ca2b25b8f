-- ===== src/Auth/Owners.antt =====
-- That a conversation's owner never changes: packages/auth/src/index.ts and memory.ts.
use haikit.Prelude.{
  ℕ, ◌≡◌, refl, sym, ◌∙◌, Bool-cases, inl, inr, Option, none, some, List, [], ◌∷◌, get_elem?, All,
  Text, get, Distinct, Result, ok,
}
use haikit.Auth.Ownership.{
  AuthStore, set_owner, set_not_before, Ownership, or_read, owner_of, ask_owner, is_empty, claimed,
  claim, keep_owner, without, land, OwnerEvent, asks, claims, landed, revokes, happens, run_owners,
  no_owners,
}
use haikit.Auth.Kept.{
  Extends, Agrees, kept-Distinct, kept-Extends, set_owner-Extends, owned, All-extended,
  All-append_one, All-without, All-found,
}

-- What the server keeps, and what is to land, is what the store has.
unfoldable Sound : Ownership → Type 0
Sound o = Distinct o.kept × Extends o.kept o.store.owners × All (Agrees o.store.owners) o.landing

asked-Sound : (k : Option Text) (id : Text) (o : Ownership) → Sound o → Sound (ask_owner k id o)
unfolding Sound
asked-Sound (some owner) id o h = h
asked-Sound none id o (d, e, a) = (d, e, All-append_one o.store.owners o.landing _ a (λ owner f. f))

claimed-Sound :
    (id user : Text) (r : Result (Unit {0}) × AuthStore) (o : Ownership)
    → Extends o.store.owners r.1.owners
    → (r.0 ≡ ok tt → get id r.1.owners ≡ some user)
    → Sound o
    → Sound (claimed id user r o)
unfolding Sound
claimed-Sound id user (Result.err x, s) o x_owners own (d, e, a) = (
  d,
  λ c owner f. x_owners c owner (e c owner f),
  All-extended o.store.owners s.owners o.landing x_owners a,
)
claimed-Sound id user (Result.ok r, s) o x_owners own (d, e, a) = (
  d,
  λ c owner f. x_owners c owner (e c owner f),
  All-append_one s.owners o.landing _ (All-extended o.store.owners s.owners o.landing x_owners a)
      (λ owner f. own refl ∙ f),
)

claim-Sound : (id user : Text) (o : Ownership) → Sound o → Sound (claim id user o).1
unfolding claim
claim-Sound id user o h = elim (Bool-cases (is_empty id)) [
  | inl p ↦ rw p h
  | inr p ↦ elim (Bool-cases (is_empty user)) [
    | inl q ↦ rw (p, q) h
    | inr q ↦
        rw (p, q)
          (claimed-Sound id user (set_owner id user o.store) o (set_owner-Extends id user o.store)
            (owned id user o.store) h)
  ]
]

keep_owner-Sound :
    (found : Text × Option Text) (o : Ownership)
    → Agrees o.store.owners found
    → Sound o
    → Sound (keep_owner found o)
unfolding keep_owner Sound
keep_owner-Sound (id, none) o g h = h
keep_owner-Sound (id, some owner) o g (d, e, a) = (
  kept-Distinct id owner o.kept d,
  kept-Extends id owner o.kept o.store.owners d e (g owner refl),
  a,
)

land-Sound :
    (f : Option (Text × Option Text)) (n : ℕ) (o : Ownership)
    → get_elem? o.landing n ≡ f
    → Sound o
    → Sound (land f n o)
unfolding land Sound
land-Sound none n o e h = h
land-Sound (some found) n o e (d, x, a) =
    keep_owner-Sound found (record o { landing = without n o.landing })
      (All-found o.store.owners n o.landing found a e)
      (d, x, All-without o.store.owners n o.landing a)

revoked-Sound :
    (user : Text) (at : ℕ) (o : Ownership)
    → Sound o
    → Sound (record o { store = set_not_before user at o.store })
unfolding Sound set_not_before
revoked-Sound user at o h = h

happens-Sound : (e : OwnerEvent) (o : Ownership) → Sound o → Sound (happens e o)
unfolding happens set_not_before
happens-Sound (asks id) o h = asked-Sound (get id o.kept) id o h
happens-Sound (claims id user) o h = claim-Sound id user o h
happens-Sound (landed n) o h = land-Sound (get_elem? o.landing n) n o refl h
happens-Sound (revokes user at) o h = revoked-Sound user at o h

run-Sound : (es : List OwnerEvent) (o : Ownership) → Sound o → Sound (run_owners es o)
run-Sound [] o h = h
run-Sound (e ∷ es) o h = run-Sound es (happens e o) (happens-Sound e o h)

claimed_store :
    (id user : Text) (r : Result (Unit {0}) × AuthStore) (o : Ownership)
    → (claimed id user r o).store ≡ r.1
claimed_store id user (Result.err x, s) o = refl
claimed_store id user (Result.ok r, s) o = refl

claim-Extends :
    (id user : Text) (o : Ownership) → Extends o.store.owners (claim id user o).1.store.owners
unfolding claim
claim-Extends id user o c owner e = elim (Bool-cases (is_empty id)) [
  | inl p ↦ rw p e
  | inr p ↦ elim (Bool-cases (is_empty user)) [
    | inl q ↦ rw (p, q) e
    | inr q ↦
        rw (p, q, claimed_store id user (set_owner id user o.store) o)
          (set_owner-Extends id user o.store c owner e)
  ]
]

ask_store : (k : Option Text) (id : Text) (o : Ownership) → (ask_owner k id o).store ≡ o.store
ask_store (some owner) id o = refl
ask_store none id o = refl

land_store :
    (f : Option (Text × Option Text)) (n : ℕ) (o : Ownership) → (land f n o).store ≡ o.store
unfolding land keep_owner
land_store none n o = refl
land_store (some (id, none)) n o = refl
land_store (some (id, some owner)) n o = refl

happens-Extends :
    (e : OwnerEvent) (o : Ownership) → Extends o.store.owners (happens e o).store.owners
unfolding happens set_not_before
happens-Extends (asks id) o c owner e = rw (ask_store (get id o.kept) id o) e
happens-Extends (claims id user) o c owner e = claim-Extends id user o c owner e
happens-Extends (landed n) o c owner e = rw (land_store (get_elem? o.landing n) n o) e
happens-Extends (revokes user at) o c owner e = e

run-Extends :
    (es : List OwnerEvent) (o : Ownership) → Extends o.store.owners (run_owners es o).store.owners
run-Extends [] o c owner e = e
run-Extends (e ∷ es) o c owner f =
    run-Extends es (happens e o) c owner (happens-Extends e o c owner f)

-- A kept owner that the store agrees with is the store's.
read_through :
    (kept read : Option Text)
    → ((owner : Text) → kept ≡ some owner → read ≡ some owner)
    → or_read kept read ≡ read
read_through none read h = refl
read_through (some owner) read h = sym (h owner refl)

Sound-owner_of : (id : Text) (o : Ownership) → Sound o → owner_of id o ≡ get id o.store.owners
unfolding Sound
Sound-owner_of id o (d, e, a) =
    read_through (get id o.kept) (get id o.store.owners) (λ owner f. e id owner f)

-- Whatever users claim, whichever calls of the store land late or in another order, and whatever the
-- server forgets: once it answers that a conversation is a user's, it answers that to each question
-- that is asked after that, so nobody else is let in and the owner is not shut out.
pub owner_of-settled :
    (before after : List OwnerEvent) (id owner : Text)
    → let o = run_owners before no_owners in
      owner_of id o ≡ some owner → owner_of id (run_owners after o) ≡ some owner
unfolding Sound Distinct get
owner_of-settled before after id owner h =
    let o = run_owners before no_owners in
    let sound : Sound o = run-Sound before no_owners (tt, (λ c w e. e), tt) in
    Sound-owner_of id (run_owners after o) (run-Sound after o sound)
    ∙ run-Extends after o id owner (sym (Sound-owner_of id o sound) ∙ h)
