-- ===== src/AgentService/Administration.antt =====
-- app/services/agent_service.py: registration, activation and disablement.
use enterprise_agent_securit.Prelude.{
  String, ◌+◌, Bool, true, false, not, Option, none, some, Result, ok, err, if◌then◌else◌,
}
use enterprise_agent_securit.Text.{or_else, ◌⧺◌}
use enterprise_agent_securit.Agent.{Agent}
use enterprise_agent_securit.Administrative.{
  AdministrativeLifecycleState, AdministrativeAction, registered, active, disabled, register, Actor,
  AdministrativeTransition, AgentAdministrativeState, is_legal_administrative_transition,
  administrative_transition_actions,
}
use enterprise_agent_securit.Administrative.Repository as AdministrativeRepository
use enterprise_agent_securit.Administrative.Repository.{
  AdministrativeError, agent_already_registered, version_of, state_of,
}
use enterprise_agent_securit.AgentService.{
  AgentService, AgentError, Inputs, get_agent, agent_already_exists,
  illegal_administrative_transition, administrative_concurrency, key_error, administrative,
}

unfoldable pub answer :
    Result AdministrativeError Bool
    → AgentAdministrativeState
    → Result AgentError AgentAdministrativeState
answer (err e) u = err (administrative e)
answer (ok false) u = err administrative_concurrency
answer (ok true) u = ok u

-- `_administrative_transition`, after the action was found
unfoldable pub apply_administrative :
    String
    → AdministrativeLifecycleState
    → AdministrativeAction
    → Actor
    → String
    → Option String
    → Inputs
    → AgentService
    → Result AgentError AgentAdministrativeState × AgentService
unfolding answer
apply_administrative agent_id new_state action actor reason correlation_id i s =
    let repository = s.administrative_repository in
    let current = AdministrativeRepository.get_state agent_id repository in
    let expected_version = version_of current in
    let t : AdministrativeTransition = record {
      transition_id = "admin-transition-" ⧺ i.uuid;
      agent_id = agent_id;
      action = action;
      actor = actor;
      reason = reason;
      previous_state = state_of current;
      new_state = new_state;
      administrative_version_before = expected_version;
      administrative_version_after = expected_version + 1;
      correlation_id = or_else correlation_id ("corr-" ⧺ i.correlation_uuid);
      occurred_at = i.now;
    } in
    let updated : AgentAdministrativeState = record {
      agent_id = agent_id;
      state = new_state;
      administrative_version = expected_version + 1;
      last_transition_at = some i.now;
    } in
    let (committed, repository') =
      AdministrativeRepository.record_transition t updated expected_version repository in
    (answer committed updated, record s { administrative_repository = repository' })

unfoldable pub administrative_transition :
    String
    → AdministrativeLifecycleState
    → Actor
    → String
    → Option String
    → Inputs
    → AgentService
    → Result AgentError AgentAdministrativeState × AgentService
unfolding apply_administrative
administrative_transition agent_id new_state actor reason correlation_id i s =
    let previous_state =
      state_of (AdministrativeRepository.get_state agent_id s.administrative_repository) in
    if not (is_legal_administrative_transition previous_state new_state)
    then (err illegal_administrative_transition, s)
    else (elim (administrative_transition_actions previous_state new_state) [
      | none ↦ (err key_error, s)
      | some action ↦ apply_administrative agent_id new_state action actor reason correlation_id i s
    ])

-- `self.get_agent(agent_id)` raises where the agent is not registered
unfoldable pub activate_agent :
    String
    → Actor
    → String
    → Option String
    → Inputs
    → AgentService
    → Result AgentError AgentAdministrativeState × AgentService
unfolding administrative_transition
activate_agent agent_id actor reason correlation_id i s = elim (get_agent agent_id s) [
  | err e ↦ (err e, s)
  | ok _ ↦ administrative_transition agent_id active actor reason correlation_id i s
]

unfoldable pub disable_agent :
    String
    → Actor
    → String
    → Option String
    → Inputs
    → AgentService
    → Result AgentError AgentAdministrativeState × AgentService
unfolding administrative_transition
disable_agent agent_id actor reason correlation_id i s = elim (get_agent agent_id s) [
  | err e ↦ (err e, s)
  | ok _ ↦ administrative_transition agent_id disabled actor reason correlation_id i s
]

abbrev pub registration_transition :
    Agent → Actor → Option String → Inputs → AdministrativeTransition
registration_transition agent actor correlation_id i = record {
  transition_id = "admin-transition-" ⧺ i.uuid;
  agent_id = agent.agent_id;
  action = register;
  actor = actor;
  reason = "Agent registered";
  previous_state = none;
  new_state = registered;
  administrative_version_before = 0;
  administrative_version_after = 1;
  correlation_id = or_else correlation_id ("corr-" ⧺ i.correlation_uuid);
  occurred_at = i.now;
}

abbrev pub registration_state : Agent → Inputs → AgentAdministrativeState
registration_state agent i = record {
  agent_id = agent.agent_id;
  state = registered;
  administrative_version = 1;
  last_transition_at = some i.now;
}

abbrev pub registration_error : AdministrativeError → AgentError
registration_error agent_already_registered = agent_already_exists
registration_error e = administrative e

unfoldable pub register_agent :
    Agent → Actor → Option String → Inputs → AgentService → Result AgentError Agent × AgentService
register_agent agent actor correlation_id i s =
    elim (AdministrativeRepository.commit_registration (some s.agents) agent
      (registration_transition agent actor correlation_id i) (registration_state agent i)
      s.administrative_repository) [
        | err e ↦ (err (registration_error e), s)
        | ok (agents', repository') ↦
            (ok agent, record s { agents = agents'; administrative_repository = repository' })
      ]

abbrev pub activated_on_registration : String
activated_on_registration = "Activated on registration by a system actor"

-- two transitions, and two ledger entries; `j` are the values that the activation draws
unfoldable pub register_and_activate_agent :
    Agent
    → Actor
    → Option String
    → Inputs
    → Inputs
    → AgentService
    → Result AgentError Agent × AgentService
register_and_activate_agent agent actor correlation_id i j s =
    let (r, s') = register_agent agent actor correlation_id i s in
    elim r [
      | err e ↦ (err e, s')
      | ok _ ↦
          let (q, s'') =
            activate_agent agent.agent_id actor activated_on_registration correlation_id j s' in
          elim q [ err e ↦ (err e, s'') | ok _ ↦ (ok agent, s'') ]
    ]
