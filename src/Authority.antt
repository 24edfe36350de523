-- ===== src/Authority.antt =====
-- app/runtime/execution_authority.py, app/models/runtime_execution_grant.py and the binding of
-- app/models/execution_binding.py: the authority's state, its grants and why it refuses. A monotonic
-- clock reading is a number of ticks, and the time to live a number of the same ticks.
pub mod Signing
pub mod Issue
pub mod Claim
pub mod SingleUse
pub mod Soundness
pub mod Authorized
pub mod Binding
pub mod TextOrder
pub mod Canonical
pub mod RoundTrip
use enterprise_agent_securit.Prelude.{ℕ, String, Bool, true, false, Option, List, leb}
use enterprise_agent_securit.Dict
use enterprise_agent_securit.Dict.{Dict}

-- `Decision` of app/models/audit_event.py
pub data Decision : Type 0 where
  allow deny approval_required : Decision

pub record ExecutionBinding : Type 0 where
  pub tool_id : String
  pub tool_version : String
  pub resource : Option String
  pub parameters : List (String × String)

-- the field `decision` has one value, ALLOW, and is left out
pub record RuntimeExecutionGrant : Type 0 where
  pub grant_id : String
  pub authority_id : String
  pub agent_id : String
  pub session_id : String
  pub binding : ExecutionBinding
  pub issued_at : ℕ
  pub expires_at : ℕ
  pub signature : String
  pub capability_profile_id : Option String
  pub capability_digest : Option String

-- `_OutstandingGrant`
pub record OutstandingGrant : Type 0 where
  pub expires_at : ℕ
  pub agent_id : String
  pub session_id : String

pub data ExecutionRefusalReason : Type 0 where
  no_authority missing_grant malformed_grant foreign_authority : ExecutionRefusalReason
  invalid_signature expired consumed revoked : ExecutionRefusalReason
  tool_mismatch resource_mismatch parameter_mismatch : ExecutionRefusalReason
  identity_mismatch invalid_request : ExecutionRefusalReason

-- The planes that can close issuance, and the set of those that have: `dict[str, set[plane]]`.
pub data IssuancePlane : Type 0 where
  administrative enforcement : IssuancePlane

pub record Planes : Type 0 where
  pub administrative : Bool
  pub enforcement : Bool

abbrev pub no_planes : Planes
no_planes = record { administrative = false; enforcement = false }

pub record ExecutionAuthority : Type 0 where
  pub authority_id : String
  pub ttl : ℕ
  pub outstanding : Dict OutstandingGrant
  -- revoked grants, with their expiry
  pub revoked : Dict ℕ
  pub issuance_closed : Dict Planes

-- `_prune`: what has expired by `now` is dropped from both tables
abbrev pub is_past : ℕ → OutstandingGrant → Bool
is_past now g = leb g.expires_at now

unfoldable pub prune : ℕ → ExecutionAuthority → ExecutionAuthority
prune now s = record s {
  outstanding = Dict.drop_where (is_past now) s.outstanding;
  revoked = Dict.drop_where (λ expires_at. leb expires_at now) s.revoked;
}
