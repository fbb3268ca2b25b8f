-- ===== src/Mcp/Leases.antt =====
-- That one holder at a time refreshes a credential: `lease` of `memoryCredentialStore` in
-- packages/mcp/src/store.ts.
use haikit.Prelude.{
  ℕ, ◌+◌, ◌<◌, ◌≡◌, refl, ◌⊎◌, true, false, ◌&&◌, Bool-cases, inl, inr, Option, none, some, List,
  [], ◌∷◌, arith, All, Text, ◌=t=◌, =t=_iff, Map, get, remove, get-set, get-remove,
}
use haikit.Mcp.Credentials.{
  Lease, Credentials, servers_of, put_credential, end_leases, delete_found, delete_held,
  delete_credentials, lease, put_client, put_flow, take_flow, is_value, is_held, get_credential,
}
use haikit.Mcp.Trace.{
  Call, put, delete, leases, puts_client, puts_flow, takes_flow, call, run_calls,
}

-- Calls that leave the lease of one row alone: no write or delete of the row, and none of all of its
-- user's; leases of it by others, before the time it runs out.
abbrev pub Spares : Text → Text → Text → ℕ → Call → Type 0
Spares user server holder until (put u s value previous) = (user =t= u && server =t= s) ≡ false
Spares user server holder until (delete u none previous) = (user =t= u) ≡ false
Spares user server holder until (delete u (some s) previous) = (user =t= u && server =t= s) ≡ false
Spares user server holder until (leases u s previous other ms now) =
    ((user =t= u && server =t= s) ≡ false) ⊎ (((holder =t= other) ≡ false) × (now < until))
Spares user server holder until c = Unit

-- `JSON.stringify` of two names tells them from any other two.
module _ (key : Text → Text → Text)
    (key_injective : (a b c d : Text) → key a b ≡ key c d → (a ≡ c) × (b ≡ d)) where
  key_apart : (a b c d : Text) → (a =t= c && b =t= d) ≡ false → (key c d =t= key a b) ≡ false
  key_apart a b c d p = elim (Bool-cases (key c d =t= key a b)) [
    | inr q ↦ q
    | inl q ↦
        let same = key_injective c d a b ((=t=_iff (key c d) (key a b)).0 q) in
        grind (arith, p, =t=_iff a c, =t=_iff b d, same.0, same.1)
  ]

  module _ (user server holder : Text) (until : ℕ) where
    abbrev HasLease : Map Lease → Type 0
    HasLease m = get (key user server) m ≡ some (record { holder = holder; until = until })

    remove-HasLease :
        (u s : Text) (m : Map Lease)
        → (user =t= u && server =t= s) ≡ false
        → HasLease m
        → HasLease (remove (key u s) m)
    remove-HasLease u s m p h =
        rw (get-remove (key u s) (key user server) m, key_apart user server u s p) h

    ended-HasLease :
        (u : Text) (servers : Map Text) (m : Map Lease)
        → (user =t= u) ≡ false
        → HasLease m
        → HasLease (end_leases key u servers m)
    unfolding end_leases
    ended-HasLease u [] m p h = h
    ended-HasLease u ((s, v) ∷ servers) m p h =
        ended-HasLease u servers _ p (remove-HasLease u s m (rw p refl) h)

    found-HasLease :
        (o : Option (Map Text)) (u : Text) (other previous : Option Text) (s : Credentials)
        → Spares user server holder until (delete u other previous)
        → HasLease s.leases
        → HasLease (delete_found key o u other previous s).leases
    unfolding delete_found delete_held
    found-HasLease none u other previous s p h = h
    found-HasLease (some servers) u none previous s p h = ended-HasLease u servers s.leases p h
    found-HasLease (some servers) u (some other) none s p h = remove-HasLease u other s.leases p h
    found-HasLease (some servers) u (some other) (some previous) s p h =
        elim (Bool-cases (is_value (get other servers) (some previous))) [
          | inl q ↦ rw q (remove-HasLease u other s.leases p h)
          | inr q ↦ rw q h
        ]

    -- Another holder finds the lease held.
    held_now :
        (other : Text) (now : ℕ) (m : Map Lease)
        → HasLease m
        → (holder =t= other) ≡ false
        → now < until
        → is_held key other now (get (key user server) m) ≡ true
    unfolding is_held
    held_now other now m h p l = rw (h, p) (ground (arith, l))

    apart_of :
        (u s previous other : Text) (ms now : ℕ) (m : Map Lease)
        → Spares user server holder until (leases u s previous other ms now)
        → HasLease m
        → is_held key other now (get (key u s) m) ≡ false
        → (user =t= u && server =t= s) ≡ false
    apart_of u s previous other ms now m (inl a) h r = a
    apart_of u s previous other ms now m (inr (o, l)) h r =
        elim (Bool-cases (user =t= u && server =t= s)) [
          | inr a ↦ a
          | inl b ↦
              let same_user : user ≡ u = grind (arith, b, =t=_iff user u) in
              let same_server : server ≡ s = grind (arith, b, =t=_iff server s) in
              let held = held_now other now m h o l in
              let free : is_held key other now (get (key user server) m) ≡ false =
                rw (same_user, same_server) r in
              cc
        ]

    leased-HasLease :
        (u s previous other : Text) (ms now : ℕ) (st : Credentials)
        → Spares user server holder until (leases u s previous other ms now)
        → HasLease st.leases
        → HasLease (lease key u s previous other ms now st).1.leases
    unfolding lease
    leased-HasLease u s previous other ms now st p h =
        elim (Bool-cases (is_value (get_credential u s st) (some previous))) [
          | inr q ↦ rw q h
          | inl q ↦ elim (Bool-cases (is_held key other now (get (key u s) st.leases))) [
            | inl r ↦ rw (q, r) h
            | inr r ↦
                rw (q, r)
                  (rw
                    (
                      get-set (key u s) (key user server)
                          (record { holder = other; until = now + ms }) st.leases,
                      key_apart user server u s
                          (apart_of u s previous other ms now st.leases p h r),
                    )
                    h)
          ]
        ]

    call-HasLease :
        (c : Call) (s : Credentials)
        → Spares user server holder until c
        → HasLease s.leases
        → HasLease (call key c s).1.leases
    unfolding call put_credential delete_credentials put_client put_flow take_flow
    call-HasLease (put u s value previous) st p h =
        elim (Bool-cases (is_value (get s (servers_of u st.credentials)) previous)) [
          | inl q ↦ rw q (remove-HasLease u s st.leases p h)
          | inr q ↦ rw q h
        ]
    call-HasLease (delete u server' previous) st p h =
        found-HasLease (get u st.credentials) u server' previous st p h
    call-HasLease (leases u s previous other ms now) st p h =
        leased-HasLease u s previous other ms now st p h
    call-HasLease (puts_client server' issuer value) st p h = h
    call-HasLease (puts_flow state value expires_at now) st p h = h
    call-HasLease (takes_flow state now) st p h = h

    run-HasLease :
        (cs : List Call) (s : Credentials)
        → All (Spares user server holder until) cs
        → HasLease s.leases
        → HasLease (run_calls key cs s).leases
    run-HasLease [] s p h = h
    run-HasLease (c ∷ cs) s p h = run-HasLease cs _ p.1 (call-HasLease c s p.0 h)

    refused_while :
        (previous other : Text) (ms now : ℕ) (s : Credentials)
        → HasLease s.leases
        → (holder =t= other) ≡ false
        → now < until
        → lease key user server previous other ms now s ≡ (false, s)
    unfolding lease
    refused_while previous other ms now s h o l =
        elim (Bool-cases (is_value (get_credential user server s) (some previous))) [
          | inr q ↦ rw q refl
          | inl q ↦ rw (q, held_now other now s.leases h o l) refl
        ]

  taken-HasLease :
      (user server previous holder : Text) (ms now : ℕ) (s : Credentials)
      → (lease key user server previous holder ms now s).0 ≡ true
      → HasLease user server holder
          (now + ms)
          (lease key user server previous holder ms now s).1.leases
  unfolding lease
  taken-HasLease user server previous holder ms now s =
      elim (Bool-cases (is_value (get_credential user server s) (some previous))) [
        | inr q ↦ rw q (λ e. cc)
        | inl q ↦ elim (Bool-cases (is_held key holder now (get (key user server) s.leases))) [
          | inl r ↦ rw (q, r) (λ e. cc)
          | inr r ↦
              rw (q, r)
                (λ e. ground (
                  arith,
                  get-set (key user server) (key user server)
                      (record { holder = holder; until = now + ms }) s.leases,
                  =t=_iff (key user server) (key user server),
                ))
        ]
      ]

  -- Where a holder was given the lease of a row, and no call since then wrote or deleted the row or all
  -- of its user's, or asked for that lease as the same holder or after its time, another holder that
  -- asks before the time runs out is refused, and changes nothing, whatever other calls came in between.
  pub lease-exclusive :
      (user server previous holder : Text) (ms now : ℕ) (s : Credentials) (cs : List Call)
      (expected other : Text) (ms' now' : ℕ)
      → (lease key user server previous holder ms now s).0 ≡ true
      → All (Spares user server holder (now + ms)) cs
      → (holder =t= other) ≡ false
      → now' < now + ms
      → let after = run_calls key cs (lease key user server previous holder ms now s).1 in
        lease key user server expected other ms' now' after ≡ (false, after)
  lease-exclusive user server previous holder ms now s cs expected other ms' now' given spared o l =
      refused_while user server holder (now + ms) expected other ms' now' _
        (run-HasLease user server holder (now + ms) cs _ spared
          (taken-HasLease user server previous holder ms now s given))
        o l
