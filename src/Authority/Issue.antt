-- ===== src/Authority/Issue.antt =====
-- Issuing grants, and opening and closing issuance: `issue`, `_create_grant`, `suspend_issuance`,
-- `resume_issuance`, `consume_grant` and the reads of app/runtime/execution_authority.py. A call runs
-- under the authority's lock and is one step.
use enterprise_agent_securit.Prelude.{
  ℕ, String, ◌+◌, ◌*◌, Bool, true, false, not, ◌||◌, Option, none, some, List, ltb, nat_eq,
  if◌then◌else◌, ◌==◌, length, count, Result, ok, err,
}
use enterprise_agent_securit.Dict
use enterprise_agent_securit.Dict.{Dict}
use enterprise_agent_securit.Text.{◌⧺◌, is_empty}
use enterprise_agent_securit.Enforcement.Repository as EnforcementRepository
use enterprise_agent_securit.Enforcement.Repository.{epoch_of}
use enterprise_agent_securit.Authority.{
  Decision, allow, ExecutionBinding, RuntimeExecutionGrant, OutstandingGrant, IssuancePlane, Planes,
  administrative, enforcement, no_planes, ExecutionAuthority, prune,
}
use enterprise_agent_securit.Authority.Signing.{Payload, payload}

-- `MAX_GRANT_TTL_SECONDS` in ticks, for a clock of `ticks` ticks a second
abbrev pub max_grant_ttl_seconds : ℕ
max_grant_ttl_seconds = 30

-- `__init__`: a time to live of zero, or above the ceiling, is a `ValueError`
unfoldable pub init : ℕ → String → ℕ → Option ExecutionAuthority
init ticks authority_id ttl =
    if not (ltb 0 ttl)
    then none
    else if ltb (max_grant_ttl_seconds * ticks) ttl
    then none
    else some (record {
      authority_id = authority_id;
      ttl = ttl;
      outstanding = List.[];
      revoked = List.[];
      issuance_closed = List.[];
    })

-- a set of planes is true when it is not empty
abbrev pub any_plane : Option Planes → Bool
any_plane none = false
any_plane (some p) = p.administrative || p.enforcement

unfoldable pub issuance_suspended : String → ExecutionAuthority → Bool
issuance_suspended agent_id s = any_plane (Dict.get agent_id s.issuance_closed)

-- The check of `expected_epoch` against the persisted epoch, made only where both are given.
abbrev pub epoch_current : Option ℕ → Option EnforcementRepository.Repository → String → Bool
epoch_current none repository agent_id = true
epoch_current (some expected) none agent_id = true
epoch_current (some expected) (some r) agent_id =
    nat_eq (epoch_of (EnforcementRepository.get_state agent_id r) none) expected

-- `_OutstandingGrant(expires_at, agent_id, session_id)`
abbrev pub entry : ℕ → String → String → OutstandingGrant
entry expires_at agent_id session_id = record {
  expires_at = expires_at;
  agent_id = agent_id;
  session_id = session_id;
}

-- pydantic's `ValidationError`
pub data GrantError : Type 0 where
  validation_error : GrantError

-- The constructor of `RuntimeExecutionGrant` refuses an empty text in a field with `min_length=1`. The
-- grant's and the authority's identifiers have a prefix, and a signature is a digest of fixed length,
-- so that only the agent and the session can be empty.
abbrev pub validated : RuntimeExecutionGrant → Result GrantError RuntimeExecutionGrant
validated g = if is_empty g.agent_id || is_empty g.session_id then err validation_error else ok g

-- what `issue` returns where `_create_grant` returns or raises
abbrev pub returned :
    Result GrantError RuntimeExecutionGrant → Result GrantError (Option RuntimeExecutionGrant)
returned (ok g) = ok (some g)
returned (err e) = err e

module _ (canonical_json : ExecutionBinding → String) (mac : Payload → String) where
  unfoldable pub create_grant :
      ExecutionBinding
      → String
      → String
      → Option String
      → Option String
      → ℕ
      → String
      → ExecutionAuthority
      → Result GrantError RuntimeExecutionGrant × ExecutionAuthority
  create_grant binding agent_id session_id profile digest now uuid s =
      let pruned = prune now s in
      let grant_id = "grant-" ⧺ uuid in
      let expires_at = now + s.ttl in
      let signature = mac (
        payload canonical_json grant_id s.authority_id binding now expires_at agent_id session_id
          profile digest) in
      (
        validated (record {
          grant_id = grant_id;
          authority_id = s.authority_id;
          agent_id = agent_id;
          session_id = session_id;
          binding = binding;
          issued_at = now;
          expires_at = expires_at;
          signature = signature;
          capability_profile_id = profile;
          capability_digest = digest;
        }),
        record pruned {
          outstanding = Dict.put grant_id (entry expires_at agent_id session_id) pruned.outstanding;
        },
      )

  unfoldable pub issue :
      Option EnforcementRepository.Repository
      → ExecutionBinding
      → Decision
      → String
      → String
      → Option ℕ
      → Option String
      → Option String
      → ℕ
      → String
      → ExecutionAuthority
      → Result GrantError (Option RuntimeExecutionGrant) × ExecutionAuthority
  unfolding create_grant issuance_suspended
  issue repository binding decision agent_id session_id expected_epoch profile digest now uuid s =
      if not (elim decision [ allow ↦ true | _ ↦ false ])
      then (ok none, s)
      else if issuance_suspended agent_id s
      then (ok none, s)
      else if not (epoch_current expected_epoch repository agent_id)
      then (ok none, s)
      else (let (grant, s') = create_grant binding agent_id session_id profile digest now uuid s in
          (returned grant, s'))

abbrev pub close : IssuancePlane → Planes → Planes
close administrative p = record p { administrative = true }
close enforcement p = record p { enforcement = true }

abbrev pub discard : IssuancePlane → Planes → Planes
discard administrative p = record p { administrative = false }
discard enforcement p = record p { enforcement = false }

abbrev pub planes_or_none : Option Planes → Planes
planes_or_none none = no_planes
planes_or_none (some p) = p

abbrev pub belongs_to : String → OutstandingGrant → Bool
belongs_to agent_id g = g.agent_id == agent_id

-- The gate closes and the agent's grants move to the revoked table, in one lock hold.
unfoldable pub suspend_issuance :
    String → IssuancePlane → ExecutionAuthority → ℕ × ExecutionAuthority
suspend_issuance agent_id plane s = (
  count (belongs_to agent_id) (Dict.values s.outstanding),
  record s {
    issuance_closed =
        Dict.put agent_id (close plane (planes_or_none (Dict.get agent_id s.issuance_closed)))
          s.issuance_closed;
    revoked = Dict.copy_where (belongs_to agent_id) (λ g. g.expires_at) s.outstanding s.revoked;
    outstanding = Dict.drop_where (belongs_to agent_id) s.outstanding;
  },
)

-- the closed planes of an agent, or no entry if none is left
unfoldable pub resume_issuance : String → IssuancePlane → ExecutionAuthority → ExecutionAuthority
resume_issuance agent_id plane s = elim (Dict.get agent_id s.issuance_closed) [
  | none ↦ s
  | some closed ↦
      let left = discard plane closed in
      record s {
        issuance_closed =
            if any_plane (some left)
            then Dict.put agent_id left s.issuance_closed
            else Dict.remove agent_id s.issuance_closed;
      }
]

-- `issuance_closed_planes`
unfoldable pub issuance_closed_planes : String → ExecutionAuthority → Planes
issuance_closed_planes agent_id s = planes_or_none (Dict.get agent_id s.issuance_closed)

-- removal without verification
unfoldable pub consume_grant : RuntimeExecutionGrant → ExecutionAuthority → ExecutionAuthority
consume_grant g s = record s { outstanding = Dict.remove g.grant_id s.outstanding }

-- the number is read after a pruning that is kept
unfoldable pub outstanding_grant_count : ℕ → ExecutionAuthority → ℕ × ExecutionAuthority
outstanding_grant_count now s = let s' = prune now s in (length s'.outstanding, s')
