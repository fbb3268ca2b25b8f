-- ===== src/Mcp/Registers.antt =====
-- That each user's credential for a server is a register with compare-and-set: `get`, `put` and
-- `delete` of `memoryCredentialStore` in packages/mcp/src/store.ts.
use haikit.Prelude.{
  ℕ, ◌≡◌, refl, ap, sym, subst, ◌∙◌, Bool, true, false, ◌&&◌, Bool-cases, inl, inr, Option, none,
  some, List, [], ◌∷◌, ◌++◌, if◌then◌else◌, Text, ◌=t=◌, =t=_iff, Map, get, set, remove, get-set,
  get-remove,
}
use haikit.Mcp.Credentials.{
  Credentials, no_credentials, is_value, servers_of, servers_in, is_held, get_credential,
  put_credential, keep_servers, delete_held, delete_found, delete_credentials, lease, put_client,
  put_flow, take_flow,
}
use haikit.Mcp.Trace.{
  Call, put, delete, leases, puts_client, puts_flow, takes_flow, call, run_calls, answers,
}

-- The registers, by user and server.
abbrev pub Registers : Type 0
Registers = Text → Text → Option Text

abbrev pub write : Text → Text → Option Text → Registers → Registers
write user server value f u s = if user =t= u && server =t= s then value else f u s

abbrev is_expected : Option Text → Option Text → Bool
is_expected value none = true
is_expected value (some previous) = is_value value (some previous)

-- What a call does to them.
abbrev pub on_registers : Call → Registers → List Bool × Registers
on_registers (put user server value previous) f =
    if is_value (f user server) previous
    then (true ∷ [], write user server (some value) f)
    else (false ∷ [], f)
on_registers (delete user none previous) f = ([], λ u s. if user =t= u then none else f u s)
on_registers (delete user (some server) previous) f =
    ([], if is_expected (f user server) previous then write user server none f else f)
on_registers c f = ([], f)

abbrev pub replay : List Call → Registers → List Bool × Registers
replay [] f = ([], f)
replay (c ∷ cs) f =
    let rest = replay cs (on_registers c f).1 in ((on_registers c f).0 ++ rest.0, rest.1)

-- Reading the store is reading the registers.
abbrev pub Reads : Credentials → Registers → Type 0
Reads s f = (user server : Text) → get_credential user server s ≡ f user server

servers_of-set :
    (user u : Text) (servers : Map Text) (m : Map (Map Text))
    → servers_of u (set user servers m) ≡ (if user =t= u then servers else servers_of u m)
servers_of-set user u servers m = elim (Bool-cases (user =t= u)) [
  | inl p ↦ rw (get-set user u servers m, p) refl
  | inr p ↦ rw (get-set user u servers m, p) refl
]

servers_of-remove :
    (user u : Text) (m : Map (Map Text))
    → servers_of u (remove user m) ≡ (if user =t= u then [] else servers_of u m)
servers_of-remove user u m = elim (Bool-cases (user =t= u)) [
  | inl p ↦ rw (get-remove user u m, p) refl
  | inr p ↦ rw (get-remove user u m, p) refl
]

-- A user's servers, changed to ones that differ at one server, or at all.
written_at :
    (user server u v : Text) (value : Option Text) (servers : Map Text) (m m' : Map (Map Text))
    → servers_of u m' ≡ (if user =t= u then servers else servers_of u m)
    → get v servers ≡ (if server =t= v then value else get v (servers_of user m))
    → get v (servers_of u m')
      ≡ (if user =t= u && server =t= v then value else get v (servers_of u m))
written_at user server u v value servers m m' e g = elim (Bool-cases (user =t= u)) [
  | inl p ↦
      let same : user ≡ u = (=t=_iff user u).0 p in
      let here : servers_of u m' ≡ servers = e ∙ rw p refl in
      rw (here, p)
        (subst (λ x. get v servers ≡ (if server =t= v then value else get v (servers_of x m))) same
          g)
  | inr p ↦ let there : servers_of u m' ≡ servers_of u m = e ∙ rw p refl in rw (there, p) refl
]

module _ (key : Text → Text → Text) where
  servers_of-keep :
      (user u : Text) (servers : Map Text) (m : Map (Map Text))
      → servers_of u (keep_servers key user servers m)
        ≡ (if user =t= u then servers else servers_of u m)
  unfolding keep_servers
  servers_of-keep user u [] m = servers_of-remove user u m
  servers_of-keep user u (e ∷ servers) m = servers_of-set user u (e ∷ servers) m

  put-Reads :
      (user server value : Text) (previous : Option Text) (s : Credentials) (f : Registers)
      → Reads s f
      → ((call key (put user server value previous) s).0
          ≡ (on_registers (put user server value previous) f).0)
        × Reads
            (call key (put user server value previous) s).1
            (on_registers (put user server value previous) f).1
  unfolding call put_credential get_credential
  put-Reads user server value previous s f h =
      elim (Bool-cases (is_value (f user server) previous)) [
        | inl p ↦
            rw (h user server, p)
              (
                refl,
                λ u v.
                    written_at user server u v (some value) _ s.credentials _
                      (servers_of-set user u _ s.credentials)
                      (get-set server v value (servers_of user s.credentials))
                    ∙ ap (λ o. if user =t= u && server =t= v then some value else o) (h u v),
              )
        | inr p ↦ rw (h user server, p) (refl, h)
      ]

  empty : (v : Text) → get {V = Text} v [] ≡ none
  unfolding get
  empty v = refl

  absent :
      (user u v : Text) (m : Map (Map Text))
      → get user m ≡ none
      → (user =t= u) ≡ true
      → get v (servers_of u m) ≡ none
  unfolding get
  absent user u v m e p =
      let same : user ≡ u = (=t=_iff user u).0 p in
      let gone : get u m ≡ none = subst (λ x. get x m ≡ none) same e in rw gone refl

  -- A user that is not there has nothing to delete.
  absent-Reads :
      (user : Text) (server : Option Text) (previous : Option Text) (s : Credentials)
      (f : Registers)
      → get user s.credentials ≡ none
      → Reads s f
      → Reads s (on_registers (delete user server previous) f).1
  unfolding get_credential
  absent-Reads user none previous s f e h u v = elim (Bool-cases (user =t= u)) [
    | inl p ↦ rw p (absent user u v s.credentials e p)
    | inr p ↦ rw p (h u v)
  ]
  absent-Reads user (some server) previous s f e h u v =
      elim (Bool-cases (is_expected (f user server) previous)) [
        | inr q ↦ rw q (h u v)
        | inl q ↦ elim (Bool-cases (user =t= u)) [
          | inr p ↦ rw (q, p) (h u v)
          | inl p ↦ elim (Bool-cases (server =t= v)) [
            | inl r ↦ rw (q, p, r) (absent user u v s.credentials e p)
            | inr r ↦ rw (q, p, r) (h u v)
          ]
        ]
      ]

  -- One server's credential, deleted from those of its user.
  cut-Reads :
      (user server : Text) (servers : Map Text) (s : Credentials) (f : Registers)
      → get user s.credentials ≡ some servers
      → Reads s f
      → (u v : Text)
      → get v (servers_of u (keep_servers key user (remove server servers) s.credentials))
        ≡ write user server none f u v
  unfolding get_credential
  cut-Reads user server servers s f e h u v =
      written_at user server u v none _ s.credentials _
        (servers_of-keep user u (remove server servers) s.credentials)
        (rw e (get-remove server v servers))
      ∙ ap (λ o. if user =t= u && server =t= v then none else o) (h u v)

  held-Reads :
      (user : Text) (server : Option Text) (previous : Option Text) (servers : Map Text)
      (s : Credentials) (f : Registers)
      → get user s.credentials ≡ some servers
      → Reads s f
      → Reads
          (delete_held key user server previous servers s)
          (on_registers (delete user server previous) f).1
  unfolding delete_held get_credential
  held-Reads user none previous servers s f e h u v = elim (Bool-cases (user =t= u)) [
    | inl p ↦ rw (servers_of-remove user u s.credentials, p) (empty v)
    | inr p ↦ rw (servers_of-remove user u s.credentials, p) (h u v)
  ]
  held-Reads user (some server) none servers s f e h u v = cut-Reads user server servers s f e h u v
  held-Reads user (some server) (some previous) servers s f e h u v =
      let found : get server servers ≡ f user server =
        ap (λ o. get server (servers_in o)) (sym e) ∙ h user server in
      elim (Bool-cases (is_value (f user server) (some previous))) [
        | inl p ↦ rw (found, p) (cut-Reads user server servers s f e h u v)
        | inr p ↦ rw (found, p) (h u v)
      ]

  found-Reads :
      (o : Option (Map Text)) (user : Text) (server previous : Option Text) (s : Credentials)
      (f : Registers)
      → get user s.credentials ≡ o
      → Reads s f
      → Reads
          (delete_found key o user server previous s)
          (on_registers (delete user server previous) f).1
  unfolding delete_found
  found-Reads none user server previous s f e h = absent-Reads user server previous s f e h
  found-Reads (some servers) user server previous s f e h =
      held-Reads user server previous servers s f e h

  leased_credentials :
      (user server previous holder : Text) (ms now : ℕ) (s : Credentials)
      → (lease key user server previous holder ms now s).1.credentials ≡ s.credentials
  unfolding lease
  leased_credentials user server previous holder ms now s =
      elim (Bool-cases (is_value (get_credential user server s) (some previous))) [
        | inr p ↦ rw p refl
        | inl p ↦ elim (Bool-cases (is_held key holder now (get (key user server) s.leases))) [
          | inl q ↦ rw (p, q) refl
          | inr q ↦ rw (p, q) refl
        ]
      ]

  -- Each call answers and does what it does to the registers.
  Follows : Call → Credentials → Registers → Type 0
  Follows c s f =
      ((call key c s).0 ≡ (on_registers c f).0) × Reads (call key c s).1 (on_registers c f).1

  call-Follows : (c : Call) (s : Credentials) (f : Registers) → Reads s f → Follows c s f
  unfolding Follows call delete_credentials put_client put_flow take_flow get_credential
  call-Follows (put user server value previous) s f h = put-Reads user server value previous s f h
  call-Follows (delete user none previous) s f h =
      (refl, found-Reads (get user s.credentials) user none previous s f refl h)
  call-Follows (delete user (some server) previous) s f h =
      (refl, found-Reads (get user s.credentials) user (some server) previous s f refl h)
  call-Follows (leases user server previous holder ms now) s f h =
      (refl, λ u v. rw (leased_credentials user server previous holder ms now s) (h u v))
  call-Follows (puts_client server issuer value) s f h = (refl, h)
  call-Follows (puts_flow state value expires_at now) s f h = (refl, h)
  call-Follows (takes_flow state now) s f h = (refl, h)

  run-Follows :
      (cs : List Call) (s : Credentials) (f : Registers)
      → Reads s f
      → (answers key cs s ≡ (replay cs f).0) × Reads (run_calls key cs s) (replay cs f).1
  unfolding Follows
  run-Follows [] s f h = (refl, h)
  run-Follows (c ∷ cs) s f h =
      let (same, reads) = call-Follows c s f h in
      let (rest, last) = run-Follows cs _ _ reads in (rw (same, rest) refl, last)

  -- Whatever calls come, in any order, from an empty store: `put` answers and `get` reads as registers
  -- with compare-and-set would, one for each user and server. A write is made just where the register
  -- holds what the writer expects, a delete that names a value deletes only that one, one that names
  -- no server deletes all of its user's, and nothing else touches a register.
  pub run-replay :
      (cs : List Call)
      → (answers key cs no_credentials ≡ (replay cs (λ u s. none)).0)
        × Reads (run_calls key cs no_credentials) (replay cs (λ u s. none)).1
  unfolding get_credential get
  run-replay cs = run-Follows cs no_credentials (λ u s. none) (λ u s. refl)
