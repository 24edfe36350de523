-- ===== src/AgentService/Cases.antt =====
-- app/services/agent_service.py: how to reason about the state that an operation leaves, which is the
-- state before or the one that its single write leaves.
use enterprise_agent_securit.Prelude.{
  String, ◌≡◌, true, false, Option, none, some, ◌||◌, arith, Bool-cases, Option-cases, inl, inr,
}
use enterprise_agent_securit.Dict
use enterprise_agent_securit.Text.{is_blank}
use enterprise_agent_securit.Watermark.{BaselineWatermark}
use enterprise_agent_securit.Agent.{Agent, AgentStatus, save}
use enterprise_agent_securit.Administrative.{
  AdministrativeLifecycleState, AdministrativeAction, Actor, active, disabled,
  administrative_transition_actions, is_legal_administrative_transition,
}
use enterprise_agent_securit.Administrative.Repository.{state_of, commit, commit_registration}
use enterprise_agent_securit.Enforcement.{EnforcementAction, EnforcementTrigger, suspend, reinstate}
use enterprise_agent_securit.AgentService.{AgentService, Inputs, get_agent, projected, is_suspended}
use enterprise_agent_securit.AgentService.Administration.{
  register_agent, activate_agent, disable_agent, administrative_transition, apply_administrative,
  registration_transition, registration_state,
}
use enterprise_agent_securit.AgentService.Containment.{
  suspend_agent, reinstate_agent, transition, is_disabled, runtime_actor,
}

module _ (P : AgentService → Type 0) (agent_id : String) (actor : Actor) (reason : String)
    (correlation_id : Option String) (i : Inputs) (s : AgentService) (unchanged : P s) where
  administrative_transition_cases :
      (new_state : AdministrativeLifecycleState)
      → ((action : AdministrativeAction)
          → P (apply_administrative agent_id new_state action actor reason correlation_id i s).1)
      → P (administrative_transition agent_id new_state actor reason correlation_id i s).1
  unfolding administrative_transition
  administrative_transition_cases new_state applied =
      elim (Bool-cases (is_legal_administrative_transition previous new_state)) [
        | inl legal ↦ elim (Option-cases (administrative_transition_actions previous new_state)) [
          | inl e ↦ rw (legal, e, administrative_transition) unchanged
          | inr (action, e) ↦ rw (legal, e, administrative_transition) (applied action)
        ]
        | inr illegal ↦ rw (illegal, administrative_transition) unchanged
      ]
    where
      previous : Option AdministrativeLifecycleState
      previous = state_of (Dict.get agent_id s.administrative_repository.states)

  pub activate_agent_cases :
      ((action : AdministrativeAction) (a : Agent)
        → Dict.get agent_id s.agents ≡ some a
        → P (apply_administrative agent_id active action actor reason correlation_id i s).1)
      → P (activate_agent agent_id actor reason correlation_id i s).1
  unfolding activate_agent get_agent
  activate_agent_cases applied = elim (Option-cases (Dict.get agent_id s.agents)) [
    | inl e ↦ rw (e, activate_agent, get_agent) unchanged
    | inr (a, e) ↦
        rw (e, activate_agent, get_agent)
          (administrative_transition_cases active (λ action. applied action a e))
  ]

  pub disable_agent_cases :
      ((action : AdministrativeAction) (a : Agent)
        → Dict.get agent_id s.agents ≡ some a
        → P (apply_administrative agent_id disabled action actor reason correlation_id i s).1)
      → P (disable_agent agent_id actor reason correlation_id i s).1
  unfolding disable_agent get_agent
  disable_agent_cases applied = elim (Option-cases (Dict.get agent_id s.agents)) [
    | inl e ↦ rw (e, disable_agent, get_agent) unchanged
    | inr (a, e) ↦
        rw (e, disable_agent, get_agent)
          (administrative_transition_cases disabled (λ action. applied action a e))
  ]

-- the state after a registration that is not refused
abbrev pub registered_in : Agent → Actor → Option String → Inputs → AgentService → AgentService
registered_in agent actor correlation_id i s = record s {
  agents = save agent s.agents;
  administrative_repository =
      commit agent.agent_id (registration_transition agent actor correlation_id i)
        (registration_state agent i) s.administrative_repository;
}

pub register_agent_cases :
    (P : AgentService → Type 0) (agent : Agent) (actor : Actor) (correlation_id : Option String)
    (i : Inputs) (s : AgentService)
    → P s
    → (Dict.get agent.agent_id s.agents ≡ none → P (registered_in agent actor correlation_id i s))
    → P (register_agent agent actor correlation_id i s).1
unfolding register_agent commit_registration is_legal_administrative_transition
register_agent_cases P agent actor correlation_id i s unchanged fresh =
    elim (Option-cases (Dict.get agent.agent_id s.agents)) [
      | inl e ↦ rw (e, register_agent, commit_registration) (fresh e)
      | inr (a, e) ↦ rw (e, register_agent, commit_registration) unchanged
    ]

module _ (P : AgentService → Type 0) (agent_id reason : String) (i : Inputs) (s : AgentService)
    (unchanged : P s) where
  pub suspend_agent_cases :
      (trigger : Option EnforcementTrigger)
      → ((a : Agent)
          → Dict.get agent_id s.agents ≡ some a
          → is_suspended (Dict.get agent_id s.enforcement_repository.states) ≡ false
          → P
              (transition
                (projected agent_id a s)
                AgentStatus.suspended
                suspend
                runtime_actor
                reason
                trigger
                none
                i
                s).1)
      → P (suspend_agent agent_id reason trigger i s).1
  unfolding suspend_agent get_agent
  suspend_agent_cases trigger moved = elim (Option-cases (Dict.get agent_id s.agents)) [
    | inl e ↦ rw (e, suspend_agent, get_agent) unchanged
    | inr (a, e) ↦
        elim (Bool-cases (
          is_suspended (Dict.get agent_id s.enforcement_repository.states)
          || is_disabled (Dict.get agent_id s.administrative_repository.states))) [
            | inl left ↦ rw (e, suspend_agent, get_agent, left) unchanged
            | inr moves ↦ rw (e, suspend_agent, get_agent, moves) (moved a e (ground arith))
          ]
  ]

  pub reinstate_agent_cases :
      (actor : String) (watermark : Option BaselineWatermark)
      → ((a : Agent)
          → Dict.get agent_id s.agents ≡ some a
          → is_suspended (Dict.get agent_id s.enforcement_repository.states) ≡ true
          → is_blank actor ≡ false
          → is_blank reason ≡ false
          → P
              (transition
                (projected agent_id a s)
                AgentStatus.active
                reinstate
                actor
                reason
                none
                watermark
                i
                s).1)
      → P (reinstate_agent agent_id actor reason watermark i s).1
  unfolding reinstate_agent get_agent
  reinstate_agent_cases actor watermark moved = elim (Option-cases (Dict.get agent_id s.agents)) [
    | inl e ↦ rw (e, reinstate_agent, get_agent) unchanged
    | inr (a, e) ↦
        rw (e, reinstate_agent, get_agent)
          (elim (Bool-cases (is_blank actor)) [
            | inl b ↦ rw b unchanged
            | inr b ↦ elim (Bool-cases (is_blank reason)) [
              | inl c ↦ rw (b, c) unchanged
              | inr c ↦
                  elim (Bool-cases
                    (is_suspended (Dict.get agent_id s.enforcement_repository.states))) [
                      | inl moves ↦ rw (b, c, moves) (moved a e moves b c)
                      | inr left ↦ rw (b, c, left) unchanged
                    ]
            ]
          ])
  ]

-- an enforcement transition writes the enforcement plane alone
module _ (agent : Agent) (new_status : AgentStatus) (action : EnforcementAction)
    (actor reason : String) (trigger : Option EnforcementTrigger)
    (watermark : Option BaselineWatermark) (i : Inputs) (s : AgentService) where
  pub administrative-transition :
      (transition agent new_status action actor reason trigger watermark i
        s).1.administrative_repository
      ≡ s.administrative_repository
  unfolding transition
  administrative-transition = ground arith

  pub agents-transition :
      (transition agent new_status action actor reason trigger watermark i s).1.agents ≡ s.agents
  unfolding transition
  agents-transition = ground arith
