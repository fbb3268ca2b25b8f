-- ===== src/Auth/Tests.antt =====
-- Owners of concrete conversations.
use haikit.Prelude.{◌≡◌, refl, some, List, [], ◌∷◌, lit, get, set, remove, ◌=t=◌}
use haikit.Auth.Ownership.{
  OwnerEvent, asks, claims, landed, happens, owner_of, run_owners, no_owners,
}
use haikit.Auth.Owners.{owner_of-settled}

abbrev ann_claims : List OwnerEvent
ann_claims = claims (lit "c") (lit "ann") ∷ landed 0 ∷ []

abbrev bob_claims : List OwnerEvent
bob_claims = claims (lit "c") (lit "bob") ∷ asks (lit "c") ∷ []

owner_of-settled_example :
    owner_of (lit "c") (run_owners bob_claims (run_owners ann_claims no_owners)) ≡ some (lit "ann")
unfolding happens get set ◌=t=◌ remove
owner_of-settled_example = owner_of-settled ann_claims bob_claims (lit "c") (lit "ann") refl
