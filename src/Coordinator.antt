-- ===== src/Coordinator.antt =====
-- app/services/enforcement_coordinator.py: recovery from containment, over the agent service, the
-- execution authority and the optional risk aggregator. The positions that the findings service and
-- the session service report, where they are composed, are arguments. A call runs under the agent's
-- lock.
pub mod Recovery
pub mod Repair
use enterprise_agent_securit.Prelude.{
  ℕ, String, Bool, true, false, ◌||◌, Option, none, some, Result, ok, err, if◌then◌else◌, is_some,
}
use enterprise_agent_securit.Watermark.{BaselineWatermark}
use enterprise_agent_securit.Agent.{Agent}
use enterprise_agent_securit.AgentService.{
  AgentService, AgentError, Inputs, get_agent, get_enforcement_state, baseline_of,
}
use enterprise_agent_securit.AgentService.Containment.{reinstate_agent}
use enterprise_agent_securit.Authority.{ExecutionAuthority, enforcement}
use enterprise_agent_securit.Authority.Issue.{
  resume_issuance, issuance_closed_planes, issuance_suspended,
}
use enterprise_agent_securit.Risk.Aggregate.{ProjectionError}
use enterprise_agent_securit.Risk.Aggregator.{RiskAggregator, reset_to_baseline}

-- the exceptions of the services that pass through, and `ReinstatementIncompleteError`
pub data CoordinatorError : Type 0 where
  agent_error : AgentError → CoordinatorError
  projection_error : ProjectionError → CoordinatorError
  reinstatement_incomplete : CoordinatorError

pub record EnforcementCoordinator : Type 0 where
  pub agent_service : AgentService
  pub execution_authority : ExecutionAuthority
  pub risk_aggregator : Option RiskAggregator

abbrev pub position_or_zero : Option ℕ → ℕ
position_or_zero none = 0
position_or_zero (some position) = position

-- `if self._risk_aggregator is not None: self._risk_aggregator.reset_to_baseline(watermark)`
unfoldable pub reset_projection :
    BaselineWatermark
    → ℕ
    → EnforcementCoordinator
    → Result CoordinatorError (Unit {0}) × EnforcementCoordinator
reset_projection w now c = elim c.risk_aggregator [
  | none ↦ (ok tt, c)
  | some aggregator ↦
      let (r, aggregator') = reset_to_baseline w now aggregator in
      (
        elim r [ err e ↦ err (projection_error e) | ok _ ↦ ok tt ],
        record c { risk_aggregator = some aggregator' },
      )
]

abbrev pub reopen : String → EnforcementCoordinator → EnforcementCoordinator
reopen agent_id c = record c {
  execution_authority = resume_issuance agent_id enforcement c.execution_authority;
}

-- the last check of `reinstate`
unfoldable pub confirm : String → Agent → EnforcementCoordinator → Result CoordinatorError Agent
confirm agent_id agent c = elim (get_enforcement_state agent_id c.agent_service) [
  | err e ↦ err (agent_error e)
  | ok state ↦
      if is_some state.suspended_at
        || (issuance_closed_planes agent_id c.execution_authority).enforcement
      then err reinstatement_incomplete
      else ok agent
]

abbrev pub watermark_at : String → ℕ → Option ℕ → Option ℕ → BaselineWatermark
watermark_at agent_id baseline_at evidence_position agent_position = record {
  agent_id = agent_id;
  baseline_at = some baseline_at;
  baseline_evidence_sequence = position_or_zero evidence_position;
  baseline_agent_sequence = position_or_zero agent_position;
}

-- what `reinstate` does once the agent service has returned
unfoldable pub finish :
    String
    → Agent
    → BaselineWatermark
    → ℕ
    → EnforcementCoordinator
    → Result CoordinatorError Agent × EnforcementCoordinator
unfolding reset_projection confirm
finish agent_id agent w now c =
    let (r, c') = reset_projection w now c in
    elim r [
      | err e ↦ (err e, c')
      | ok _ ↦ (confirm agent_id agent (reopen agent_id c'), reopen agent_id c')
    ]

unfoldable pub reinstate :
    String
    → String
    → String
    → Option ℕ
    → Option ℕ
    → ℕ
    → Inputs
    → EnforcementCoordinator
    → Result CoordinatorError Agent × EnforcementCoordinator
unfolding finish
reinstate agent_id actor reason evidence_position agent_position baseline_at i c =
    let w = watermark_at agent_id baseline_at evidence_position agent_position in
    let (r, service) = reinstate_agent agent_id actor reason (some w) i c.agent_service in
    elim r [
      | err e ↦ (err (agent_error e), record c { agent_service = service })
      | ok agent ↦ finish agent_id agent w i.now (record c { agent_service = service })
    ]

-- what `repair` does for an agent that is not contained
unfoldable pub repair_issuance :
    String
    → Agent
    → BaselineWatermark
    → ℕ
    → EnforcementCoordinator
    → Result CoordinatorError Agent × EnforcementCoordinator
unfolding reset_projection
repair_issuance agent_id agent w now c =
    let (r, c') = reset_projection w now c in
    elim r [
      | err e ↦ (err e, c')
      | ok _ ↦ (
        if issuance_suspended agent_id (reopen agent_id c').execution_authority
            then err reinstatement_incomplete
            else ok agent,
        reopen agent_id c',
      )
    ]

unfoldable pub repair :
    String → ℕ → EnforcementCoordinator → Result CoordinatorError Agent × EnforcementCoordinator
unfolding repair_issuance
repair agent_id now c = elim (get_agent agent_id c.agent_service) [
  | err e ↦ (err (agent_error e), c)
  | ok agent ↦ elim (get_enforcement_state agent_id c.agent_service) [
    | err e ↦ (err (agent_error e), c)
    | ok state ↦
        if is_some state.suspended_at
        then (err reinstatement_incomplete, c)
        else repair_issuance agent_id agent (baseline_of agent_id state) now c
  ]
]
