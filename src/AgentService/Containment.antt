-- ===== src/AgentService/Containment.antt =====
-- app/services/agent_service.py: the transitions of the enforcement plane, suspension and
-- reinstatement, and the lifecycle refusal that authorization reads.
use enterprise_agent_securit.Prelude.{
  ℕ, String, ◌+◌, Bool, true, false, ◌||◌, Option, none, some, Result, ok, err, if◌then◌else◌,
}
use enterprise_agent_securit.Text.{is_blank, ◌⧺◌}
use enterprise_agent_securit.Watermark.{BaselineWatermark}
use enterprise_agent_securit.Agent.{Agent, AgentStatus}
use enterprise_agent_securit.Administrative.{disabled, AgentAdministrativeState}
use enterprise_agent_securit.Administrative.Repository as AdministrativeRepository
use enterprise_agent_securit.Enforcement.{
  EnforcementAction, suspend, reinstate, EnforcementTrigger, EnforcementTransition,
  AgentEnforcementState, clean,
}
use enterprise_agent_securit.Enforcement.Repository as EnforcementRepository
use enterprise_agent_securit.Enforcement.Repository.{EnforcementError, is_reinstate}
use enterprise_agent_securit.AgentService.{
  AgentService, AgentError, Inputs, get_agent, project_status, is_suspended, agent_not_suspended,
  enforcement_concurrency, value_error, enforcement,
}

abbrev pub runtime_actor : String
runtime_actor = "runtime"

abbrev pub is_disabled : Option AgentAdministrativeState → Bool
is_disabled none = false
is_disabled (some a) = elim a.state [ disabled ↦ true | _ ↦ false ]

abbrev pub or_clean : String → Option AgentEnforcementState → AgentEnforcementState
or_clean agent_id none = clean agent_id
or_clean agent_id (some e) = e

abbrev pub baseline_at_or : Option BaselineWatermark → ℕ → ℕ
baseline_at_or none now = now
baseline_at_or (some w) now = elim w.baseline_at [ none ↦ now | some at ↦ at ]

abbrev pub evidence_sequence_of : Option BaselineWatermark → ℕ
evidence_sequence_of none = 0
evidence_sequence_of (some w) = w.baseline_evidence_sequence

abbrev pub agent_sequence_of : Option BaselineWatermark → ℕ
agent_sequence_of none = 0
agent_sequence_of (some w) = w.baseline_agent_sequence

-- the state that `_transition` writes
unfoldable pub next_state :
    EnforcementAction
    → String
    → Option BaselineWatermark
    → ℕ
    → AgentEnforcementState
    → AgentEnforcementState
next_state suspend reason watermark now e = record e {
  epoch = e.epoch + 1;
  suspended_at = some now;
  suspension_reason = some reason;
  last_transition_at = some now;
}
next_state reinstate reason watermark now e = record e {
  epoch = e.epoch + 1;
  suspended_at = none;
  suspension_reason = none;
  enforcement_baseline_at = some (baseline_at_or watermark now);
  baseline_evidence_sequence = evidence_sequence_of watermark;
  baseline_agent_sequence = agent_sequence_of watermark;
  recovery_generation = e.recovery_generation + 1;
  last_transition_at = some now;
}

unfoldable pub answer : Result EnforcementError Bool → Agent → Result AgentError Agent
answer (err e) a = err (enforcement e)
answer (ok false) a = err enforcement_concurrency
answer (ok true) a = ok a

-- `_transition`
unfoldable pub transition :
    Agent
    → AgentStatus
    → EnforcementAction
    → String
    → String
    → Option EnforcementTrigger
    → Option BaselineWatermark
    → Inputs
    → AgentService
    → Result AgentError Agent × AgentService
unfolding answer next_state
transition agent new_status action actor reason trigger watermark i s =
    let administrative =
      AdministrativeRepository.get_state agent.agent_id s.administrative_repository in
    let state =
      or_clean agent.agent_id
        (EnforcementRepository.get_state agent.agent_id s.enforcement_repository) in
    let new_state = next_state action reason watermark i.now state in
    let t : EnforcementTransition = record {
      transition_id = "transition-" ⧺ i.uuid;
      agent_id = agent.agent_id;
      action = action;
      actor = actor;
      reason = reason;
      previous_status = agent.status;
      new_status = new_status;
      trigger = trigger;
      occurred_at = i.now;
    } in
    if (if is_reinstate action then false else is_disabled administrative)
    then (ok agent, s)
    else (let (committed, repository') =
          EnforcementRepository.record_transition t new_state state.epoch
            s.enforcement_repository in
        (
          answer committed
              (record agent { status = project_status administrative (some new_state) }),
          record s { enforcement_repository = repository' },
        ))

-- Idempotent: an agent that is suspended, or disabled, is returned as it is.
unfoldable pub suspend_agent :
    String
    → String
    → Option EnforcementTrigger
    → Inputs
    → AgentService
    → Result AgentError Agent × AgentService
unfolding transition
suspend_agent agent_id reason trigger i s = elim (get_agent agent_id s) [
  | err e ↦ (err e, s)
  | ok agent ↦
      if is_suspended (EnforcementRepository.get_state agent_id s.enforcement_repository)
        || is_disabled (AdministrativeRepository.get_state agent_id s.administrative_repository)
      then (ok agent, s)
      else transition agent AgentStatus.suspended suspend runtime_actor reason trigger none i s
]

unfoldable pub reinstate_agent :
    String
    → String
    → String
    → Option BaselineWatermark
    → Inputs
    → AgentService
    → Result AgentError Agent × AgentService
unfolding transition
reinstate_agent agent_id actor reason watermark i s = elim (get_agent agent_id s) [
  | err e ↦ (err e, s)
  | ok agent ↦
      if is_blank actor
      then (err value_error, s)
      else if is_blank reason
      then (err value_error, s)
      else if is_suspended (EnforcementRepository.get_state agent_id s.enforcement_repository)
      then transition agent AgentStatus.active reinstate actor reason none watermark i s
      else (err agent_not_suspended, s)
]
