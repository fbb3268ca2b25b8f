-- ===== src/Mcp/Flows.antt =====
-- The connect flows on their way: `putFlow` and `takeFlow` of `memoryCredentialStore` in
-- packages/mcp/src/store.ts.
use haikit.Prelude.{
  ℕ, ◌≤◌, ◌<◌, ◌≡◌, refl, ap, sym, subst, ◌∙◌, ◌⊎◌, ◌&&◌, Bool-cases, inl, inr, Option, none, some,
  List, [], ◌∷◌, if◌then◌else◌, ltb, length, arith, Text, ◌=t=◌, =t=_iff, Map, get, set, remove,
  get-set, get-remove, length-set, length-remove, Distinct, Distinct-set, Distinct-remove,
}
use haikit.Mcp.Credentials.{
  Flow, Credentials, no_credentials, memory_flows, put_credential, delete_found, delete_held,
  delete_credentials, lease, put_client, sweep, put_flow, value_at, take_flow, is_value, servers_of,
  is_held, get_credential,
}
use haikit.Mcp.Trace.{
  Call, put, delete, leases, puts_client, puts_flow, takes_flow, call, run_calls,
}

-- The flow that a state leads to, by the calls alone: the last one put since the last take.
abbrev pub on_flow : Text → Call → Option Flow → Option Flow
on_flow state (puts_flow other value expires_at now) f =
    if other =t= state then some (record { value = value; expires_at = expires_at }) else f
on_flow state (takes_flow other now) f = if other =t= state then none else f
on_flow state c f = f

abbrev pub flow_after : Text → List Call → Option Flow → Option Flow
flow_after state [] f = f
flow_after state (c ∷ cs) f = flow_after state cs (on_flow state c f)

swept_length : (now : ℕ) (m : Map Flow) → length (sweep now m) < memory_flows
unfolding sweep
swept_length now [] = omega arith
swept_length now ((state, f) ∷ m) =
    let rest = swept_length now m in
    elim (Bool-cases (ltb now f.expires_at && ltb (length ((state, f) ∷ m)) memory_flows)) [
      | inl p ↦ rw p (ground (arith, p))
      | inr p ↦ rw p rest
    ]

get-sweep :
    (state : Text) (now : ℕ) (m : Map Flow)
    → Distinct m
    → (get state (sweep now m) ≡ none) ⊎ (get state (sweep now m) ≡ get state m)
unfolding sweep get Distinct
get-sweep state now [] d = inl refl
get-sweep state now ((other, f) ∷ m) d =
    elim (Bool-cases (ltb now f.expires_at && ltb (length ((other, f) ∷ m)) memory_flows)) [
      | inl p ↦ rw p (inr refl)
      | inr p ↦ elim (get-sweep state now m d.1) [
        | inl e ↦ rw p (inl e)
        | inr e ↦ elim (Bool-cases (other =t= state)) [
          | inl q ↦
              rw (p, q) (inl (e ∙ subst (λ k. get k m ≡ none) ((=t=_iff other state).0 q) d.0))
          | inr q ↦ rw (p, q) (inr e)
        ]
      ]
    ]

Distinct-sweep : (now : ℕ) (m : Map Flow) → Distinct m → Distinct (sweep now m)
unfolding sweep Distinct
Distinct-sweep now [] d = tt
Distinct-sweep now ((other, f) ∷ m) d =
    let rest = Distinct-sweep now m d.1 in
    elim (Bool-cases (ltb now f.expires_at && ltb (length ((other, f) ∷ m)) memory_flows)) [
      | inl p ↦ rw p d
      | inr p ↦ rw p rest
    ]

-- A flow that is kept is the one that the calls lead to, for each state; and there are not too many.
unfoldable pub Kept : Text → Option Flow → Map Flow → Type 0
Kept state f m = Distinct m × (length m ≤ memory_flows) × ((get state m ≡ none) ⊎ (get state m ≡ f))

put_flow-Kept :
    (state other : Text) (new : Flow) (now : ℕ) (m : Map Flow) (f : Option Flow)
    → Kept state f m
    → Kept state (if other =t= state then some new else f) (set other new (sweep now m))
unfolding Kept
put_flow-Kept state other new now m f (d, l, h) =
    let swept = sweep now m in
    (
      Distinct-set other new swept (Distinct-sweep now m d),
      omega (arith, length-set other new swept, swept_length now m),
      elim (Bool-cases (other =t= state)) [
        | inl p ↦ rw (get-set other state new swept, p) (inr refl)
        | inr p ↦
            rw (get-set other state new swept, p)
              (elim (get-sweep state now m d) [ inl e ↦ inl e | inr e ↦ rw e h ])
      ],
    )

take_flow-Kept :
    (state other : Text) (m : Map Flow) (f : Option Flow)
    → Kept state f m
    → Kept state (if other =t= state then none else f) (remove other m)
unfolding Kept
take_flow-Kept state other m f (d, l, h) = (
  Distinct-remove other m d,
  omega (arith, length-remove other m d),
  elim (Bool-cases (other =t= state)) [
    | inl p ↦ rw (get-remove other state m, p) (inl refl)
    | inr p ↦ rw (get-remove other state m, p) h
  ],
)

module _ (key : Text → Text → Text) where
  flows-put :
      (user server value : Text) (previous : Option Text) (s : Credentials)
      → (put_credential key user server value previous s).1.flows ≡ s.flows
  unfolding put_credential
  flows-put user server value previous s =
      elim (Bool-cases (is_value (get server (servers_of user s.credentials)) previous)) [
        | inl p ↦ rw p refl
        | inr p ↦ rw p refl
      ]

  flows-delete :
      (o : Option (Map Text)) (user : Text) (server previous : Option Text) (s : Credentials)
      → (delete_found key o user server previous s).flows ≡ s.flows
  unfolding delete_found delete_held
  flows-delete none user server previous s = refl
  flows-delete (some servers) user none previous s = refl
  flows-delete (some servers) user (some server) none s = refl
  flows-delete (some servers) user (some server) (some previous) s =
      elim (Bool-cases (is_value (get server servers) (some previous))) [
        | inl p ↦ rw p refl
        | inr p ↦ rw p refl
      ]

  flows-lease :
      (user server previous holder : Text) (ms now : ℕ) (s : Credentials)
      → (lease key user server previous holder ms now s).1.flows ≡ s.flows
  unfolding lease
  flows-lease user server previous holder ms now s =
      elim (Bool-cases (is_value (get_credential user server s) (some previous))) [
        | inr p ↦ rw p refl
        | inl p ↦ elim (Bool-cases (is_held key holder now (get (key user server) s.leases))) [
          | inl q ↦ rw (p, q) refl
          | inr q ↦ rw (p, q) refl
        ]
      ]

  call-Kept :
      (state : Text) (c : Call) (s : Credentials) (f : Option Flow)
      → Kept state f s.flows
      → Kept state (on_flow state c f) (call key c s).1.flows
  unfolding call delete_credentials put_client put_flow take_flow
  call-Kept state (put user server value previous) s f h =
      rw (flows-put user server value previous s) h
  call-Kept state (delete user server previous) s f h =
      rw (flows-delete (get user s.credentials) user server previous s) h
  call-Kept state (leases user server previous holder ms now) s f h =
      rw (flows-lease user server previous holder ms now s) h
  call-Kept state (puts_client server issuer value) s f h = h
  call-Kept state (puts_flow other value expires_at now) s f h =
      put_flow-Kept state other _ now s.flows f h
  call-Kept state (takes_flow other now) s f h = take_flow-Kept state other s.flows f h

  run-Kept :
      (state : Text) (cs : List Call) (s : Credentials) (f : Option Flow)
      → Kept state f s.flows
      → Kept state (flow_after state cs f) (run_calls key cs s).flows
  run-Kept state [] s f h = h
  run-Kept state (c ∷ cs) s f h = run-Kept state cs _ _ (call-Kept state c s f h)

  begun-Kept :
      (state : Text) (cs : List Call)
      → Kept state (flow_after state cs none) (run_calls key cs no_credentials).flows
  unfolding Kept Distinct get
  begun-Kept state cs = run-Kept state cs no_credentials none (tt, omega arith, inl refl)

  -- Whatever calls come, never more than 10,000 flows are kept.
  pub flows-bound : (cs : List Call) → length (run_calls key cs no_credentials).flows ≤ memory_flows
  unfolding Kept
  flows-bound cs = (begun-Kept [] cs).1

module _ (key : Text → Text → Text) where
  valued :
      (now : ℕ) (o f : Option Flow) (value : Text)
      → (o ≡ none) ⊎ (o ≡ f)
      → value_at now o ≡ some value
      → (expires_at : ℕ) × (f ≡ some (record { value = value; expires_at = expires_at }))
        × (now < expires_at)
  unfolding value_at
  valued now none f value h e = cc
  valued now (some flow) f value (inl h) e = cc
  valued now (some flow) f value (inr h) e = elim (Bool-cases (ltb now flow.expires_at)) [
    | inl p ↦
        let found : flow.value ≡ value = grind (arith, p, e) in
        (
          flow.expires_at,
          sym h ∙ ap (λ v. some (record { value = v; expires_at = flow.expires_at })) found,
          ground (arith, p),
        )
    | inr p ↦ grind (arith, p, e)
  ]

  -- Whatever calls came before, a flow that is taken is the last one put under its state, with no take
  -- of that state since, and its time has not passed: no flow is taken twice, or late, or altered.
  pub take_flow-last :
      (cs : List Call) (state value : Text) (now : ℕ)
      → (take_flow state now (run_calls key cs no_credentials)).0 ≡ some value
      → (expires_at : ℕ) × (flow_after state cs none
          ≡ some (record { value = value; expires_at = expires_at }))
        × (now < expires_at)
  unfolding take_flow Kept
  take_flow-last cs state value now e =
      valued now _ (flow_after state cs none) value (begun-Kept key state cs).2 e
