-- ===== src/Enforcement.antt =====
-- app/models/agent_enforcement.py: the enforcement state of an agent and the record of one change.
-- A `datetime` is a number of microseconds.
pub mod Repository
pub mod Cas
use enterprise_agent_securit.Prelude.{ℕ, String, Option, none, List}
use enterprise_agent_securit.Agent.{AgentStatus}

pub data RiskLevel : Type 0 where
  low medium high critical : RiskLevel

-- `SUSPEND`, `REINSTATE`
pub data EnforcementAction : Type 0 where
  suspend reinstate : EnforcementAction

pub record EnforcementTrigger : Type 0 where
  pub session_id : Option String
  pub risk_level : Option RiskLevel
  pub risk_score : Option ℕ
  pub finding_ids : List String

pub record EnforcementTransition : Type 0 where
  pub transition_id : String
  pub agent_id : String
  pub action : EnforcementAction
  pub actor : String
  pub reason : String
  pub previous_status : AgentStatus
  pub new_status : AgentStatus
  pub trigger : Option EnforcementTrigger
  pub occurred_at : ℕ

pub record AgentEnforcementState : Type 0 where
  pub agent_id : String
  pub epoch : ℕ
  pub suspended_at : Option ℕ
  pub suspension_reason : Option String
  pub enforcement_baseline_at : Option ℕ
  pub baseline_evidence_sequence : ℕ
  pub baseline_agent_sequence : ℕ
  pub recovery_generation : ℕ
  pub last_transition_at : Option ℕ

-- `AgentEnforcementState(agent_id=agent_id)`
abbrev pub clean : String → AgentEnforcementState
clean agent_id = record {
  agent_id = agent_id;
  epoch = 0;
  suspended_at = none;
  suspension_reason = none;
  enforcement_baseline_at = none;
  baseline_evidence_sequence = 0;
  baseline_agent_sequence = 0;
  recovery_generation = 0;
  last_transition_at = none;
}
