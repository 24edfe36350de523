-- ===== src/AgentService/Terminal.antt =====
-- app/services/agent_service.py: the operations on an agent that is DISABLED.
use enterprise_agent_securit.Prelude.{ℕ, String, ◌≡◌, Option, some, arith, eq_iff}
use enterprise_agent_securit.Dict
use enterprise_agent_securit.Dict.{get-put}
use enterprise_agent_securit.Administrative.{
  AdministrativeLifecycleState, AdministrativeAction, Actor, active, disabled,
  AdministrativeTransition, AgentAdministrativeState, is_legal_administrative_transition,
}
use enterprise_agent_securit.Administrative.Repository.{
  Repository, commit, state_of, record_transition,
}
use enterprise_agent_securit.AgentService.{AgentService, Inputs, empty}
use enterprise_agent_securit.AgentService.Administration.{apply_administrative, registration_state}
use enterprise_agent_securit.AgentService.Cases.{
  activate_agent_cases, disable_agent_cases, register_agent_cases, suspend_agent_cases,
  reinstate_agent_cases, administrative-transition,
}
use enterprise_agent_securit.AgentService.Invariant.{IsConsistent}
use enterprise_agent_securit.AgentService.Invariant.Reach.{
  ◌⟶◌, registration, activation, disablement, suspension, reinstatement, ◌⟶*◌, here, next,
  reachable-IsConsistent, ⟶*-IsConsistent,
}
use enterprise_agent_securit.AgentService.Planes.{lifecycle_refusal}
use enterprise_agent_securit.Lifecycle.{evaluate_lifecycle_authorization, agent_disabled}

-- the administrative state of an agent
abbrev pub administrative_of : String → AgentService → Option AdministrativeLifecycleState
administrative_of j s = state_of (Dict.get j s.administrative_repository.states)

-- a committed transition leaves no disabled record
record_transition-disabled :
    (t : AdministrativeTransition) (new : AgentAdministrativeState) (e : ℕ) (r : Repository)
    (j : String)
    → state_of (Dict.get j r.states) ≡ some disabled
    → state_of (Dict.get j (record_transition t new e r).1.states) ≡ some disabled
unfolding record_transition is_legal_administrative_transition
record_transition-disabled t new e r j h =
    ground (arith, get-put t.agent_id j new r.states, eq_iff t.agent_id j)

apply-disabled :
    (agent_id : String) (new_state : AdministrativeLifecycleState) (action : AdministrativeAction)
    (actor : Actor) (reason : String) (correlation_id : Option String) (i : Inputs)
    (s : AgentService) (j : String)
    → administrative_of j s ≡ some disabled
    → administrative_of j
        (apply_administrative agent_id new_state action actor reason correlation_id i s).1
      ≡ some disabled
unfolding apply_administrative
apply-disabled agent_id new_state action actor reason correlation_id i s j d =
    record_transition-disabled _ _ _ s.administrative_repository j d

⟶-disabled :
    {s t : AgentService} (j : String)
    → s ⟶ t
    → IsConsistent s
    → administrative_of j s ≡ some disabled
    → administrative_of j t ≡ some disabled
⟶-disabled {s} j (registration agent actor correlation_id i) h d =
    register_agent_cases (λ t. administrative_of j t ≡ some disabled) agent actor correlation_id i s
      d
      λ fresh.
        unfold commit in
        ground (
          arith,
          h.known agent.agent_id fresh,
          get-put agent.agent_id j (registration_state agent i) s.administrative_repository.states,
          eq_iff agent.agent_id j,
        )
⟶-disabled {s} j (activation agent_id actor reason correlation_id i) h d =
    activate_agent_cases (λ t. administrative_of j t ≡ some disabled) agent_id actor reason
      correlation_id i s d
      λ action a e. apply-disabled agent_id active action actor reason correlation_id i s j d
⟶-disabled {s} j (disablement agent_id actor reason correlation_id i) h d =
    disable_agent_cases (λ t. administrative_of j t ≡ some disabled) agent_id actor reason
      correlation_id i s d
      λ action a e. apply-disabled agent_id disabled action actor reason correlation_id i s j d
⟶-disabled {s} j (suspension agent_id reason trigger i) h d =
    suspend_agent_cases (λ t. administrative_of j t ≡ some disabled) agent_id reason i s d trigger
      λ a e moves. rw administrative-transition d
⟶-disabled {s} j (reinstatement agent_id actor reason watermark i) h d =
    reinstate_agent_cases (λ t. administrative_of j t ≡ some disabled) agent_id reason i s d actor
      watermark λ a e moves b c. rw administrative-transition d

⟶*-disabled :
    {s t : AgentService} (j : String)
    → s ⟶* t
    → IsConsistent s
    → administrative_of j s ≡ some disabled
    → administrative_of j t ≡ some disabled
⟶*-disabled j here h d = d
⟶*-disabled {s} j (next steps step) h d =
    ⟶-disabled j step (⟶*-IsConsistent steps h) (⟶*-disabled j steps h d)

refusal_of_disabled :
    (j : String) (s : AgentService)
    → administrative_of j s ≡ some disabled
    → lifecycle_refusal j s ≡ some agent_disabled
unfolding lifecycle_refusal evaluate_lifecycle_authorization
refusal_of_disabled j s d = ground arith

-- DISABLED is terminal: from a reachable state in which an agent is DISABLED, whatever operations
-- follow, a reinstatement included, the agent's lifecycle refusal is AGENT_DISABLED.
pub disabled_forever :
    (j : String) {s t : AgentService}
    → empty ⟶* s
    → administrative_of j s ≡ some disabled
    → s ⟶* t
    → lifecycle_refusal j t ≡ some agent_disabled
disabled_forever j {t} reach d steps =
    refusal_of_disabled j t (⟶*-disabled j steps (reachable-IsConsistent reach) d)
