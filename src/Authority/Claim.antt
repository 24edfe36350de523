-- ===== src/Authority/Claim.antt =====
-- Verifying and claiming grants: `_verify_authenticity`, `_require_claimable_locked`,
-- `_require_exact_match`, `verify_grant`, `claim_grant` and `verify_and_consume` of
-- app/runtime/execution_authority.py. What a refusal has pruned stays pruned, so the state comes
-- back beside an error too.
use enterprise_agent_securit.Prelude.{
  ℕ, String, Bool, true, false, not, ◌&&◌, ◌||◌, Option, none, some, List, [], ◌∷◌, Result, ok, err,
  leb, if◌then◌else◌, is_some, ◌==◌, opt_eq,
}
use enterprise_agent_securit.Dict
use enterprise_agent_securit.Authority.{
  ExecutionBinding, RuntimeExecutionGrant, OutstandingGrant, ExecutionAuthority, prune,
  ExecutionRefusalReason, missing_grant, malformed_grant, foreign_authority, invalid_signature,
  expired, consumed, revoked, tool_mismatch, resource_mismatch, parameter_mismatch,
  identity_mismatch,
}
use enterprise_agent_securit.Authority.Signing.{Payload, grant_payload}

-- the object that a caller presents as a grant
pub data Presented : Type 0 where
  nothing other_object : Presented
  grant : RuntimeExecutionGrant → Presented

abbrev pub parameters_eq : List (String × String) → List (String × String) → Bool
parameters_eq [] [] = true
parameters_eq ((a, b) ∷ xs) ((c, d) ∷ ys) = (a == c && b == d) && parameters_eq xs ys
parameters_eq _ _ = false

unfoldable pub require_exact_match :
    ExecutionBinding → ExecutionBinding → Option ExecutionRefusalReason
require_exact_match authorized requested =
    if not (requested.tool_id == authorized.tool_id)
    then some tool_mismatch
    else if not (requested.tool_version == authorized.tool_version)
    then some tool_mismatch
    else if not (opt_eq requested.resource authorized.resource)
    then some resource_mismatch
    else if not (parameters_eq requested.parameters authorized.parameters)
    then some parameter_mismatch
    else none

module _ (canonical_json : ExecutionBinding → String) (mac : Payload → String) where
  unfoldable pub verify_authenticity :
      Presented → ExecutionAuthority → Result ExecutionRefusalReason RuntimeExecutionGrant
  verify_authenticity nothing s = err missing_grant
  verify_authenticity other_object s = err malformed_grant
  verify_authenticity (grant g) s =
      if not (g.authority_id == s.authority_id)
      then err foreign_authority
      else if not (mac (grant_payload canonical_json g) == g.signature)
      then err invalid_signature
      else ok g

-- The checks that follow the lookup of the grant among the outstanding ones.
abbrev pub check_outstanding :
    Option OutstandingGrant
    → RuntimeExecutionGrant
    → ExecutionBinding
    → Option ExecutionRefusalReason
check_outstanding none g requested = some consumed
check_outstanding (some o) g requested =
    if not (o.agent_id == g.agent_id) || not (o.session_id == g.session_id)
    then some identity_mismatch
    else require_exact_match g.binding requested

unfoldable pub require_claimable_locked :
    RuntimeExecutionGrant
    → ExecutionBinding
    → ℕ
    → ExecutionAuthority
    → Option ExecutionRefusalReason × ExecutionAuthority
require_claimable_locked g requested now s =
    let s' = prune now s in
    if leb g.expires_at now
    then (some expired, record s' { outstanding = Dict.remove g.grant_id s'.outstanding })
    else if is_some (Dict.get g.grant_id s'.revoked)
    then (some revoked, s')
    else (check_outstanding (Dict.get g.grant_id s'.outstanding) g requested, s')

abbrev pub refusal_or_unit :
    Option ExecutionRefusalReason → Result ExecutionRefusalReason (Unit {0})
refusal_or_unit none = ok tt
refusal_or_unit (some reason) = err reason

-- the part of `verify_grant` under the lock
unfoldable pub verify_checked :
    Result ExecutionRefusalReason RuntimeExecutionGrant
    → ExecutionBinding
    → ℕ
    → ExecutionAuthority
    → Result ExecutionRefusalReason (Unit {0}) × ExecutionAuthority
verify_checked (err reason) requested now s = (err reason, s)
verify_checked (ok g) requested now s =
    let (refusal, s') = require_claimable_locked g requested now s in (refusal_or_unit refusal, s')

-- the part of `claim_grant` under the lock: validation and removal in one hold
unfoldable pub claim_checked :
    Result ExecutionRefusalReason RuntimeExecutionGrant
    → ExecutionBinding
    → ℕ
    → ExecutionAuthority
    → Result ExecutionRefusalReason (Unit {0}) × ExecutionAuthority
claim_checked (err reason) requested now s = (err reason, s)
claim_checked (ok g) requested now s =
    let (refusal, s') = require_claimable_locked g requested now s in
    elim refusal [
      | some reason ↦ (err reason, s')
      | none ↦ (ok tt, record s' { outstanding = Dict.remove g.grant_id s'.outstanding })
    ]

module _ (canonical_json : ExecutionBinding → String) (mac : Payload → String) where
  unfoldable pub verify_grant :
      Presented
      → ExecutionBinding
      → ℕ
      → ExecutionAuthority
      → Result ExecutionRefusalReason (Unit {0}) × ExecutionAuthority
  unfolding verify_checked
  verify_grant presented requested now s =
      verify_checked (verify_authenticity canonical_json mac presented s) requested now s

  unfoldable pub claim_grant :
      Presented
      → ExecutionBinding
      → ℕ
      → ExecutionAuthority
      → Result ExecutionRefusalReason (Unit {0}) × ExecutionAuthority
  unfolding claim_checked
  claim_grant presented requested now s =
      claim_checked (verify_authenticity canonical_json mac presented s) requested now s

  unfoldable pub verify_and_consume :
      Presented
      → ExecutionBinding
      → ℕ
      → ExecutionAuthority
      → Result ExecutionRefusalReason (Unit {0}) × ExecutionAuthority
  unfolding claim_grant
  verify_and_consume presented requested now s = claim_grant presented requested now s
