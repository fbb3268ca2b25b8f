-- ===== src/Mcp/Trace.antt =====
-- Calls of the credential store, of any clients, in a sequence: packages/mcp/src/store.ts.
use haikit.Prelude.{ℕ, Bool, Option, List, [], ◌∷◌, ◌++◌, Text}
use haikit.Mcp.Credentials.{
  Credentials, put_credential, delete_credentials, lease, put_client, put_flow, take_flow,
}

-- The calls that change the store, with the time of those that read the clock.
pub data Call : Type 0 where
  put : Text → Text → Text → Option Text → Call
  delete : Text → Option Text → Option Text → Call
  leases : Text → Text → Text → Text → ℕ → ℕ → Call
  puts_client : Text → Text → Text → Call
  puts_flow : Text → Text → ℕ → ℕ → Call
  takes_flow : Text → ℕ → Call

-- What it answers: a write whether it was made, the others nothing here.
module _ (key : Text → Text → Text) where
  unfoldable pub call : Call → Credentials → List Bool × Credentials
  unfolding put_credential delete_credentials lease put_client put_flow take_flow
  call (put user server value previous) s =
      let (made, s') = put_credential key user server value previous s in (made ∷ [], s')
  call (delete user server previous) s = ([], delete_credentials key user server previous s)
  call (leases user server previous holder ms now) s =
      ([], (lease key user server previous holder ms now s).1)
  call (puts_client server issuer value) s = ([], put_client key server issuer value s)
  call (puts_flow state value expires_at now) s = ([], put_flow state value expires_at now s)
  call (takes_flow state now) s = ([], (take_flow state now s).1)

  abbrev pub run_calls : List Call → Credentials → Credentials
  run_calls [] s = s
  run_calls (c ∷ cs) s = run_calls cs (call c s).1

  abbrev pub answers : List Call → Credentials → List Bool
  answers [] s = []
  answers (c ∷ cs) s = (call c s).0 ++ answers cs (call c s).1
