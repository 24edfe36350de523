-- ===== src/AgentService/Invariant.antt =====
-- app/services/agent_service.py: the invariant of the state of the service.
pub mod Administration
pub mod Containment
pub mod Reach
use enterprise_agent_securit.Prelude.{String, ◌≡◌, none, some}
use enterprise_agent_securit.Dict
use enterprise_agent_securit.Dict.{get-put}
use enterprise_agent_securit.Agent
use enterprise_agent_securit.Agent.{Agent, AgentStatus}
use enterprise_agent_securit.Administrative.Repository as AdministrativeRepository
use enterprise_agent_securit.Administrative.Ledger.{LedgerReplays}
use enterprise_agent_securit.Enforcement.Repository as EnforcementRepository
use enterprise_agent_securit.Enforcement.Repository.{or_zero}
use enterprise_agent_securit.AgentService.{AgentService}
use enterprise_agent_securit.AgentService.Posture.{tally, shown}

pub record IsConsistent (s : AgentService) : Type 0 where
  -- the administrative ledger replays to the administrative states
  pub ledger : LedgerReplays s.administrative_repository
  -- the enforcement history tallies with the enforcement states
  pub history :
      (j : String)
      → tally j s.enforcement_repository.transitions
        ≡ shown (EnforcementRepository.get_state j s.enforcement_repository)
  -- an agent that is not registered has no administrative record
  pub known :
      (j : String)
      → Agent.get j s.agents ≡ none
      → AdministrativeRepository.get_state j s.administrative_repository ≡ none
  -- an agent is stored under its own identifier
  pub keyed : (j : String) (a : Agent) → Agent.get j s.agents ≡ some a → a.agent_id ≡ j
  -- without a persisted state the epoch counter is zero
  pub epochs :
      (j : String)
      → EnforcementRepository.get_state j s.enforcement_repository ≡ none
      → or_zero (Dict.get j s.enforcement_repository.epochs) ≡ 0
