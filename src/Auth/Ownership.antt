-- ===== src/Auth/Ownership.antt =====
-- Which user a conversation belongs to: `ownerOf`, `claim` and `keep` of packages/auth/src/index.ts, over
-- `memoryAuthStore` of packages/auth/src/memory.ts.
use haikit.Prelude.{
  ℕ, zero, suc, max, Bool, true, false, not, Option, none, some, List, [], ◌∷◌, ◌++◌, if◌then◌else◌,
  ltb, length, drop, get_elem?, Text, lit, ◌=t=◌, Map, get, set, remove, Result, ok, fail, error,
  type_error,
}

-- `memoryAuthStore`: each conversation's owner, and each user's last revocation.
pub record AuthStore : Type 0 where
  pub owners : Map Text
  pub not_before : Map ℕ

abbrev pub get_owner : Text → AuthStore → Option Text
get_owner id s = get id s.owners

-- Whether a conversation that has this owner belongs to another user.
abbrev pub is_others : Option Text → Text → Bool
is_others none user = false
is_others (some had) user = not (had =t= user)

unfoldable pub set_owner : Text → Text → AuthStore → Result (Unit {0}) × AuthStore
set_owner id user s =
    if is_others (get id s.owners) user
    then (fail error (lit "conversation " ++ id ++ lit " already belongs to someone else"), s)
    else (ok tt, record s { owners = set id user s.owners })

abbrev pub get_not_before : Text → AuthStore → Option ℕ
get_not_before user s = get user s.not_before

abbrev pub later_of : ℕ → Option ℕ → ℕ
later_of at none = at
later_of at (some before) = max at before

unfoldable pub set_not_before : Text → ℕ → AuthStore → AuthStore
set_not_before user at s = record s {
  not_before = set user (later_of at (get user s.not_before)) s.not_before;
}

-- `CACHE_ENTRIES`.
abbrev pub cache_entries : ℕ
cache_entries = 10000

-- The value is the newest entry; the oldest goes where there are too many.
unfoldable pub keep_entry {ℓ} : {V : Type ℓ} → Text → V → Map V → Map V
keep_entry k v m =
    let kept = remove k m ++ (k, v) ∷ [] in
    if ltb cache_entries (length kept) then drop 1 kept else kept

-- The store, the owners that the server has kept, and the calls of the store that are still to land:
-- reads, and claims that were made.
pub record Ownership : Type 0 where
  pub store : AuthStore
  pub kept : Map Text
  pub landing : List (Text × Option Text)

-- `ownerOf`, as it answers a question asked now whose read of the store is done at once. A read takes
-- its time in `landing`, where it keeps what it found.
abbrev pub or_read : Option Text → Option Text → Option Text
or_read (some owner) read = some owner
or_read none read = read

abbrev pub owner_of : Text → Ownership → Option Text
owner_of id o = or_read (get id o.kept) (get_owner id o.store)

abbrev pub is_owner : Option Text → Text → Bool
is_owner none principal = false
is_owner (some owner) principal = owner =t= principal

-- The gate's `allows`.
abbrev pub allows : Text → Text → Ownership → Bool
allows principal id o = is_owner (owner_of id o) principal

-- An owner that is not known yet is asked for.
abbrev pub ask_owner : Option Text → Text → Ownership → Ownership
ask_owner (some owner) id o = o
ask_owner none id o = record o { landing = o.landing ++ (id, get_owner id o.store) ∷ [] }

abbrev pub is_empty : Text → Bool
is_empty [] = true
is_empty (x ∷ xs) = false

abbrev pub claimed : Text → Text → Result (Unit {0}) × AuthStore → Ownership → Ownership
claimed id user (Result.err e, s) o = record o { store = s }
claimed id user (Result.ok r, s) o = record o {
  store = s;
  landing = o.landing ++ (id, some user) ∷ [];
}

-- `claim`: what it answers is what the store answered, or the failed check.
unfoldable pub claim : Text → Text → Ownership → Result (Unit {0}) × Ownership
unfolding set_owner
claim id user o =
    if is_empty id
    then (fail type_error (lit "claim: conversationId must be a non-empty string"), o)
    else if is_empty user
    then (fail type_error (lit "claim: userId must be a non-empty string"), o)
    else ((set_owner id user o.store).0, claimed id user (set_owner id user o.store) o)

-- What a call of the store found is kept.
unfoldable pub keep_owner : Text × Option Text → Ownership → Ownership
unfolding keep_entry
keep_owner (id, none) o = o
keep_owner (id, some owner) o = record o { kept = keep_entry id owner o.kept }

-- The call at a place lands: they may in any order.
abbrev pub without : ℕ → List (Text × Option Text) → List (Text × Option Text)
without n [] = []
without zero (x ∷ xs) = xs
without (suc n) (x ∷ xs) = x ∷ without n xs

unfoldable pub land : Option (Text × Option Text) → ℕ → Ownership → Ownership
unfolding keep_owner
land none n o = o
land (some found) n o = keep_owner found (record o { landing = without n o.landing })

abbrev pub lands : ℕ → Ownership → Ownership
lands n o = land (get_elem? o.landing n) n o

-- What happens, in any order: an owner is asked for, a conversation claimed, a call lands, and a user
-- is signed out everywhere.
pub data OwnerEvent : Type 0 where
  asks : Text → OwnerEvent
  claims : Text → Text → OwnerEvent
  landed : ℕ → OwnerEvent
  revokes : Text → ℕ → OwnerEvent

unfoldable pub happens : OwnerEvent → Ownership → Ownership
unfolding claim land set_not_before
happens (asks id) o = ask_owner (get id o.kept) id o
happens (claims id user) o = (claim id user o).1
happens (landed n) o = lands n o
happens (revokes user at) o = record o { store = set_not_before user at o.store }

abbrev pub run_owners : List OwnerEvent → Ownership → Ownership
run_owners [] o = o
run_owners (e ∷ es) o = run_owners es (happens e o)

abbrev pub no_owners : Ownership
no_owners = record { store = record { owners = []; not_before = [] }; kept = []; landing = [] }
