-- ===== src/AgentService.antt =====
-- app/services/agent_service.py: the state of the service and its reads.
-- The service holds the three repositories of the in-memory composition; each method runs under
-- the service's lock and is one step. What a call takes from outside, the time and the fresh
-- identifiers of `uuid4`, is an argument.
pub mod Administration
pub mod Containment
pub mod Posture
pub mod Cases
pub mod Invariant
pub mod Planes
pub mod Terminal
pub mod Recovery
pub mod Effects
use enterprise_agent_securit.Prelude.{
  ℕ, String, ◌+◌, Bool, true, false, not, Option, none, some, [], Result, ok, err, if◌then◌else◌,
  is_some,
}
use enterprise_agent_securit.Dict.{Dict}
use enterprise_agent_securit.Text.{or_else, ◌⧺◌}
use enterprise_agent_securit.Watermark.{BaselineWatermark}
use enterprise_agent_securit.Agent
use enterprise_agent_securit.Agent.{Agent, AgentStatus}
use enterprise_agent_securit.Administrative.{
  AdministrativeLifecycleState, AdministrativeAction, registered, active, disabled, register, Actor,
  system, AdministrativeTransition, AgentAdministrativeState, is_legal_administrative_transition,
  administrative_transition_actions,
}
use enterprise_agent_securit.Administrative.Repository as AdministrativeRepository
use enterprise_agent_securit.Administrative.Repository.{
  AdministrativeError, agent_already_registered, version_of, state_of,
}
use enterprise_agent_securit.Enforcement.{AgentEnforcementState, clean}
use enterprise_agent_securit.Enforcement.Repository as EnforcementRepository

pub data AgentError : Type 0 where
  agent_not_found agent_already_exists agent_not_suspended : AgentError
  illegal_administrative_transition administrative_concurrency enforcement_concurrency : AgentError
  value_error key_error : AgentError
  administrative : AdministrativeError → AgentError
  enforcement : EnforcementRepository.EnforcementError → AgentError

pub record AgentService : Type 0 where
  pub agents : Dict Agent
  pub administrative_repository : AdministrativeRepository.Repository
  pub enforcement_repository : EnforcementRepository.Repository

abbrev pub empty : AgentService
empty = record {
  agents = [];
  administrative_repository = AdministrativeRepository.empty;
  enforcement_repository = EnforcementRepository.empty;
}

-- `datetime.now(timezone.utc)` and the values of `uuid4()` that one call draws
pub record Inputs : Type 0 where
  pub now : ℕ
  pub uuid : String
  pub correlation_uuid : String

abbrev pub system_registration_actor : Actor
system_registration_actor = record { type = system; id = "system" }

unfoldable pub administrative_state : String → AgentService → Option AgentAdministrativeState
administrative_state agent_id s =
    AdministrativeRepository.get_state agent_id s.administrative_repository

abbrev pub is_suspended : Option AgentEnforcementState → Bool
is_suspended none = false
is_suspended (some e) = is_some e.suspended_at

-- `_project_status`
abbrev pub status_of : AdministrativeLifecycleState → Bool → AgentStatus
status_of disabled suspended = AgentStatus.disabled
status_of registered suspended = if suspended then AgentStatus.suspended else AgentStatus.registered
status_of active suspended = if suspended then AgentStatus.suspended else AgentStatus.active

unfoldable pub project_status :
    Option AgentAdministrativeState → Option AgentEnforcementState → AgentStatus
project_status none e = AgentStatus.registered
project_status (some a) e = status_of a.state (is_suspended e)

-- the stored record with the projected status
abbrev pub projected : String → Agent → AgentService → Agent
projected agent_id agent s = record agent {
  status =
      project_status (AdministrativeRepository.get_state agent_id s.administrative_repository)
        (EnforcementRepository.get_state agent_id s.enforcement_repository);
}

unfoldable pub get_agent : String → AgentService → Result AgentError Agent
get_agent agent_id s = elim (Agent.get agent_id s.agents) [
  | none ↦ err agent_not_found
  | some agent ↦ ok (projected agent_id agent s)
]

unfoldable pub get_enforcement_state :
    String → AgentService → Result AgentError AgentEnforcementState
get_enforcement_state agent_id s = elim (get_agent agent_id s) [
  | err e ↦ err e
  | ok _ ↦ elim (EnforcementRepository.get_state agent_id s.enforcement_repository) [
    | none ↦ ok (clean agent_id)
    | some state ↦ ok state
  ]
]

-- the watermark of an enforcement state
abbrev pub baseline_of : String → AgentEnforcementState → BaselineWatermark
baseline_of agent_id state = record {
  agent_id = agent_id;
  baseline_at = state.enforcement_baseline_at;
  baseline_evidence_sequence = state.baseline_evidence_sequence;
  baseline_agent_sequence = state.baseline_agent_sequence;
}

unfoldable pub get_current_baseline : String → AgentService → Result AgentError BaselineWatermark
unfolding get_enforcement_state
get_current_baseline agent_id s = elim (get_enforcement_state agent_id s) [
  | err e ↦ err e
  | ok state ↦ ok (baseline_of agent_id state)
]

unfoldable pub enforcement_epoch : String → ℕ → AgentService → ℕ
enforcement_epoch agent_id as_of s =
    EnforcementRepository.get_epoch agent_id as_of s.enforcement_repository
