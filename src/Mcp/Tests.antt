-- ===== src/Mcp/Tests.antt =====
-- The credential store at concrete calls, with two names made one key by the length of the first.
use haikit.Prelude.{
  ℕ, ◌≤◌, ◌<◌, ◌≡◌, refl, ap, sym, ◌∙◌, arith, false, none, some, List, [], ◌∷◌, ◌++◌, length, take,
  drop, take-append, Text, lit, ◌=t=◌, get, set, remove,
}
use haikit.Mcp.Credentials.{Credentials, no_credentials, memory_flows, take_flow, lease}
use haikit.Mcp.Trace.{Call, put, puts_flow, call, run_calls, answers}
use haikit.Mcp.Registers.{Reads, replay, run-replay}
use haikit.Mcp.Flows.{flow_after, flows-bound, take_flow-last}
use haikit.Mcp.Text.{bytes}
use haikit.Mcp.Sizes.{encode, bytes-encode}
use haikit.Mcp.Leases.{lease-exclusive}

abbrev pair : Text → Text → Text
pair a b = length a ∷ a ++ b

drop-append : (a b : Text) → drop (length a) (a ++ b) ≡ b
drop-append [] b = refl
drop-append (x ∷ a) b = drop-append a b

abbrev first_unit : Text → ℕ
first_unit [] = 0
first_unit (x ∷ xs) = x

pair_injective : (a b c d : Text) → pair a b ≡ pair c d → (a ≡ c) × (b ≡ d)
pair_injective a b c d e =
    let lengths : length a ≡ length c = ap first_unit e in
    let rest : a ++ b ≡ c ++ d = ap (drop 1) e in
    (
      sym (take-append a b)
          ∙ ap (take (length a)) rest
          ∙ ap (λ n. take n (c ++ d)) lengths
          ∙ take-append c d,
      sym (drop-append a b)
          ∙ ap (drop (length a)) rest
          ∙ ap (λ n. drop n (c ++ d)) lengths
          ∙ drop-append c d,
    )

abbrev ann : Text
ann = lit "ann"

abbrev mail : Text
mail = lit "mail"

-- Two writers that expect the same value: the second is refused.
abbrev two_writes : List Call
two_writes = put ann mail (lit "k1") none ∷ put ann mail (lit "k2") none ∷ []

run-replay_example :
    (answers pair two_writes no_credentials ≡ (replay two_writes (λ u s. none)).0)
    × Reads (run_calls pair two_writes no_credentials) (replay two_writes (λ u s. none)).1
run-replay_example = run-replay pair two_writes

abbrev flow_calls : List Call
flow_calls = puts_flow (lit "s1") (lit "v1") 10 1 ∷ puts_flow (lit "s2") (lit "v2") 10 2 ∷ []

flows-bound_example : length (run_calls pair flow_calls no_credentials).flows ≤ memory_flows
flows-bound_example = flows-bound pair flow_calls

take_flow-last_example :
    (expires_at : ℕ) × (flow_after (lit "s1") flow_calls none
      ≡ some (record { value = lit "v1"; expires_at = expires_at }))
    × (3 < expires_at)
unfolding take_flow get call set ◌=t=◌
take_flow-last_example = take_flow-last pair flow_calls (lit "s1") (lit "v1") 3 refl

abbrev written : Credentials
written = run_calls pair (put ann mail (lit "k1") none ∷ []) no_credentials

-- Another server's credential is written in between.
abbrev between : List Call
between = put ann (lit "drive") (lit "k2") none ∷ []

lease-exclusive_example :
    let after = run_calls pair between (lease pair ann mail (lit "k1") (lit "p1") 10 1 written).1 in
    lease pair ann mail (lit "k1") (lit "p2") 10 5 after ≡ (false, after)
unfolding lease get call set ◌=t=◌ remove
lease-exclusive_example =
    lease-exclusive pair pair_injective ann mail (lit "k1") (lit "p1") 10 1 written between
      (lit "k1") (lit "p2") 10 5 refl (refl, tt) refl (omega arith)

-- Four bytes, in two groups.
bytes-encode_example : bytes (encode (1 ∷ 2 ∷ 3 ∷ 255 ∷ [])) ≡ 4
bytes-encode_example = bytes-encode (1 ∷ 2 ∷ 3 ∷ 255 ∷ [])
