-- ===== src/AgentService/Invariant/Administration.antt =====
-- app/services/agent_service.py: registration, activation and disablement against the invariant.
use enterprise_agent_securit.Prelude.{
  String, ◌≡◌, ◌≢◌, refl, Option, none, some, arith, eq_iff, ◌∙◌,
}
use enterprise_agent_securit.Dict
use enterprise_agent_securit.Dict.{get-put}
use enterprise_agent_securit.Agent.{Agent, AgentStatus, save}
use enterprise_agent_securit.Administrative.{
  AdministrativeLifecycleState, AdministrativeAction, Actor, active, disabled,
  is_legal_administrative_transition,
}
use enterprise_agent_securit.Administrative.Repository as AdministrativeRepository
use enterprise_agent_securit.Administrative.Repository.{commit}
use enterprise_agent_securit.Administrative.Ledger.{
  LedgerReplays, get_state-record_transition_ne, record_transition-LedgerReplays,
  commit-LedgerReplays,
}
use enterprise_agent_securit.AgentService.{AgentService, Inputs}
use enterprise_agent_securit.AgentService.Administration.{
  register_agent, activate_agent, disable_agent, apply_administrative, registration_transition,
  registration_state,
}
use enterprise_agent_securit.AgentService.Cases.{
  activate_agent_cases, disable_agent_cases, register_agent_cases, registered_in,
}
use enterprise_agent_securit.AgentService.Invariant.{IsConsistent}

-- what `_administrative_transition` touches
module _ (agent_id : String) (new_state : AdministrativeLifecycleState) (actor : Actor)
    (reason : String) (correlation_id : Option String) (i : Inputs) (s : AgentService) where
  abbrev after_apply : AdministrativeAction → AgentService
  after_apply action =
      (apply_administrative agent_id new_state action actor reason correlation_id i s).1

  apply-ledger :
      (action : AdministrativeAction)
      → LedgerReplays s.administrative_repository
      → LedgerReplays (after_apply action).administrative_repository
  unfolding apply_administrative
  apply-ledger action h = record_transition-LedgerReplays _ _ _ s.administrative_repository h

  apply-known :
      (action : AdministrativeAction) (j : String)
      → j ≢ agent_id
      → AdministrativeRepository.get_state j (after_apply action).administrative_repository
        ≡ AdministrativeRepository.get_state j s.administrative_repository
  unfolding apply_administrative
  apply-known action j h = get_state-record_transition_ne _ _ _ s.administrative_repository j h

  apply-IsConsistent :
      (action : AdministrativeAction) (a : Agent)
      → IsConsistent s
      → Dict.get agent_id s.agents ≡ some a
      → IsConsistent (after_apply action)
  apply-IsConsistent action a h found = record {
    ledger = apply-ledger action h.ledger;
    history = unfold apply_administrative in h.history;
    known = λ j e.
        let e' : Dict.get j s.agents ≡ none = unfold apply_administrative in e in
        apply-known action j (λ p. cc) ∙ h.known j e';
    keyed = unfold apply_administrative in h.keyed;
    epochs = unfold apply_administrative in h.epochs;
  }

module _ (agent_id : String) (actor : Actor) (reason : String) (correlation_id : Option String)
    (i : Inputs) (s : AgentService) (h : IsConsistent s) where
  pub activate_agent-IsConsistent :
      IsConsistent (activate_agent agent_id actor reason correlation_id i s).1
  activate_agent-IsConsistent =
      activate_agent_cases IsConsistent agent_id actor reason correlation_id i s h λ action a e.
        apply-IsConsistent agent_id active actor reason correlation_id i s action a h e

  pub disable_agent-IsConsistent :
      IsConsistent (disable_agent agent_id actor reason correlation_id i s).1
  disable_agent-IsConsistent =
      disable_agent_cases IsConsistent agent_id actor reason correlation_id i s h λ action a e.
        apply-IsConsistent agent_id disabled actor reason correlation_id i s action a h e

registered_in-IsConsistent :
    (agent : Agent) (actor : Actor) (correlation_id : Option String) (i : Inputs) (s : AgentService)
    → IsConsistent s
    → Dict.get agent.agent_id s.agents ≡ none
    → IsConsistent (registered_in agent actor correlation_id i s)
unfolding save commit is_legal_administrative_transition
registered_in-IsConsistent agent actor correlation_id i s h e = record {
  ledger =
      commit-LedgerReplays agent.agent_id (registration_transition agent actor correlation_id i)
        (registration_state agent i) s.administrative_repository h.ledger (h.known agent.agent_id e)
        refl refl refl refl refl refl refl;
  history = h.history;
  known = λ j n. ground (
    arith,
    h.known j,
    get-put agent.agent_id j (registration_state agent i) s.administrative_repository.states,
    get-put agent.agent_id j (record agent { status = AgentStatus.registered }) s.agents,
    eq_iff agent.agent_id j,
  );
  keyed = λ j a f. ground (
    arith,
    h.keyed j a,
    get-put agent.agent_id j (record agent { status = AgentStatus.registered }) s.agents,
    eq_iff agent.agent_id j,
  );
  epochs = h.epochs;
}

pub register_agent-IsConsistent :
    (agent : Agent) (actor : Actor) (correlation_id : Option String) (i : Inputs) (s : AgentService)
    → IsConsistent s
    → IsConsistent (register_agent agent actor correlation_id i s).1
register_agent-IsConsistent agent actor correlation_id i s h =
    register_agent_cases IsConsistent agent actor correlation_id i s h
      (registered_in-IsConsistent agent actor correlation_id i s h)
