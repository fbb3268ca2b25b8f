-- ===== src/Mcp/Credentials.antt =====
-- `memoryCredentialStore` of packages/mcp/src/store.ts: each user's sealed credentials, the leases of
-- those that are being refreshed, the registered clients, and the connect flows on their way.
use haikit.Prelude.{
  ℕ, ◌+◌, Bool, true, false, not, ◌&&◌, Option, none, some, List, [], ◌∷◌, map, if◌then◌else◌, ltb,
  length, Text, ◌=t=◌, Map, get, set, remove,
}

pub record Lease : Type 0 where
  pub holder : Text
  pub until : ℕ

pub record Flow : Type 0 where
  pub value : Text
  pub expires_at : ℕ

-- The leases and the clients are kept by two names, as one key.
pub record Credentials : Type 0 where
  pub credentials : Map (Map Text)
  pub leases : Map Lease
  pub clients : Map Text
  pub flows : Map Flow

abbrev pub no_credentials : Credentials
no_credentials = record { credentials = []; leases = []; clients = []; flows = [] }

-- `MEMORY_FLOWS`.
abbrev pub memory_flows : ℕ
memory_flows = 10000

-- `===` of two values of which each may be missing.
unfoldable pub is_value : Option Text → Option Text → Bool
is_value none none = true
is_value (some a) (some b) = a =t= b
is_value _ _ = false

-- A user's servers, or none.
abbrev pub servers_in : Option (Map Text) → Map Text
servers_in none = []
servers_in (some servers) = servers

abbrev pub servers_of : Text → Map (Map Text) → Map Text
servers_of user m = servers_in (get user m)

unfoldable pub get_credential : Text → Text → Credentials → Option Text
get_credential user server s = get server (servers_of user s.credentials)

abbrev pub list_servers : Text → Credentials → List Text
list_servers user s = map (λ (e : Text × Text). e.0) (servers_of user s.credentials)

-- `JSON.stringify` of two names is given, as it is the platform's.
module _ (key : Text → Text → Text) where
  unfoldable pub put_credential :
      Text → Text → Text → Option Text → Credentials → Bool × Credentials
  unfolding is_value
  put_credential user server value previous s =
      let servers = servers_of user s.credentials in
      if not (is_value (get server servers) previous) then (false, s) else (
        true,
        record s {
          credentials = set user (set server value servers) s.credentials;
          leases = remove (key user server) s.leases;
        },
      )

  unfoldable pub end_leases : Text → Map Text → Map Lease → Map Lease
  end_leases user [] leases = leases
  end_leases user ((server, v) ∷ servers) leases =
      end_leases user servers (remove (key user server) leases)

  -- A user without servers left has no entry.
  unfoldable pub keep_servers : Text → Map Text → Map (Map Text) → Map (Map Text)
  keep_servers user [] m = remove user m
  keep_servers user (e ∷ servers) m = set user (e ∷ servers) m

  unfoldable pub delete_held :
      Text → Option Text → Option Text → Map Text → Credentials → Credentials
  unfolding is_value end_leases keep_servers
  delete_held user none previous servers s = record s {
    leases = end_leases user servers s.leases;
    credentials = remove user s.credentials;
  }
  delete_held user (some server) none servers s = record s {
    credentials = keep_servers user (remove server servers) s.credentials;
    leases = remove (key user server) s.leases;
  }
  delete_held user (some server) (some previous) servers s =
      if not (is_value (get server servers) (some previous)) then s else record s {
        credentials = keep_servers user (remove server servers) s.credentials;
        leases = remove (key user server) s.leases;
      }

  unfoldable pub delete_found :
      Option (Map Text) → Text → Option Text → Option Text → Credentials → Credentials
  unfolding delete_held
  delete_found none user server previous s = s
  delete_found (some servers) user server previous s = delete_held user server previous servers s

  unfoldable pub delete_credentials : Text → Option Text → Option Text → Credentials → Credentials
  unfolding delete_found
  delete_credentials user server previous s =
      delete_found (get user s.credentials) user server previous s

  -- Whether another holder has the lease now.
  unfoldable pub is_held : Text → ℕ → Option Lease → Bool
  is_held holder now none = false
  is_held holder now (some l) = ltb now l.until && not (l.holder =t= holder)

  unfoldable pub lease : Text → Text → Text → Text → ℕ → ℕ → Credentials → Bool × Credentials
  unfolding is_value is_held get_credential
  lease user server previous holder ms now s =
      if not (is_value (get_credential user server s) (some previous))
      then (false, s)
      else if is_held holder now (get (key user server) s.leases)
      then (false, s)
      else (
        true,
        record s {
          leases = set (key user server) (record { holder = holder; until = now + ms }) s.leases;
        },
      )

  abbrev pub get_client : Text → Text → Credentials → Option Text
  get_client server issuer s = get (key server issuer) s.clients

  unfoldable pub put_client : Text → Text → Text → Credentials → Credentials
  put_client server issuer value s = record s { clients = set (key server issuer) value s.clients }

-- The oldest first: past their time, or past the most that are kept.
unfoldable pub sweep : ℕ → Map Flow → Map Flow
sweep now [] = []
sweep now ((state, f) ∷ flows) =
    let rest = sweep now flows in
    if ltb now f.expires_at && ltb (length ((state, f) ∷ flows)) memory_flows
    then (state, f) ∷ flows
    else rest

unfoldable pub put_flow : Text → Text → ℕ → ℕ → Credentials → Credentials
unfolding sweep
put_flow state value expires_at now s = record s {
  flows = set state (record { value = value; expires_at = expires_at }) (sweep now s.flows);
}

unfoldable pub value_at : ℕ → Option Flow → Option Text
value_at now none = none
value_at now (some f) = if ltb now f.expires_at then some f.value else none

unfoldable pub take_flow : Text → ℕ → Credentials → Option Text × Credentials
unfolding value_at
take_flow state now s =
    (value_at now (get state s.flows), record s { flows = remove state s.flows })
