-- ===== src/AgentService/Recovery.antt =====
-- app/services/agent_service.py: how an agent enters and leaves containment.
use enterprise_agent_securit.Prelude.{
  String, ◌≡◌, ◌≢◌, true, false, Option, none, eq_iff, eq_refl, ◌==◌, if◌then◌else◌, Bool-cases,
  inl, inr, ◌⊎◌,
}
use enterprise_agent_securit.Dict
use enterprise_agent_securit.Dict.{get-put}
use enterprise_agent_securit.Text.{is_blank}
use enterprise_agent_securit.Watermark.{BaselineWatermark}
use enterprise_agent_securit.Agent.{Agent, AgentStatus}
use enterprise_agent_securit.Enforcement.{
  AgentEnforcementState, EnforcementAction, EnforcementTrigger, suspend, reinstate,
}
use enterprise_agent_securit.Enforcement.Repository.{is_reinstate}
use enterprise_agent_securit.Enforcement.Cas.{get_state-record_transition_ne}
use enterprise_agent_securit.AgentService.{AgentService, Inputs, empty, is_suspended, projected}
use enterprise_agent_securit.AgentService.Administration.{apply_administrative}
use enterprise_agent_securit.AgentService.Containment.{transition, is_disabled, runtime_actor}
use enterprise_agent_securit.AgentService.Cases.{
  activate_agent_cases, disable_agent_cases, register_agent_cases, suspend_agent_cases,
  reinstate_agent_cases,
}
use enterprise_agent_securit.AgentService.Invariant.{IsConsistent}
use enterprise_agent_securit.AgentService.Invariant.Reach.{
  ◌⟶◌, registration, activation, disablement, suspension, reinstatement, ◌⟶*◌, here, next,
  reachable-IsConsistent, ⟶*-IsConsistent,
}

-- the enforcement state of an agent
abbrev pub enforcement_of : String → AgentService → Option AgentEnforcementState
enforcement_of j s = Dict.get j s.enforcement_repository.states

abbrev pub IsContained : String → AgentService → Type 0
IsContained j s = is_suspended (enforcement_of j s) ≡ true

-- the step is an attributed reinstatement of the agent
abbrev pub Recovers : {s t : AgentService} → String → s ⟶ t → Type 0
Recovers j (reinstatement agent_id actor reason watermark i) =
    (agent_id ≡ j) × (is_blank actor ≡ false) × (is_blank reason ≡ false)
Recovers j (registration agent actor correlation_id i) = ⊥
Recovers j (activation agent_id actor reason correlation_id i) = ⊥
Recovers j (disablement agent_id actor reason correlation_id i) = ⊥
Recovers j (suspension agent_id reason trigger i) = ⊥

-- a transition of one agent leaves the enforcement state of the others
module _ (agent : Agent) (new_status : AgentStatus) (action : EnforcementAction)
    (actor reason : String) (trigger : Option EnforcementTrigger)
    (watermark : Option BaselineWatermark) (i : Inputs) (s : AgentService) (j : String) where
  transition-enforcement_ne :
      j ≢ agent.agent_id
      → enforcement_of j (transition agent new_status action actor reason trigger watermark i s).1
        ≡ enforcement_of j s
  unfolding transition
  transition-enforcement_ne h =
      elim (Bool-cases (
        if is_reinstate action
        then false
        else is_disabled (Dict.get agent.agent_id s.administrative_repository.states))) [
          | inl e ↦ rw (e, transition)
          | inr e ↦
              rw (e, transition) (get_state-record_transition_ne _ _ _ s.enforcement_repository j h)
        ]

-- One operation: the only one that ends a containment is a reinstatement of that agent that names
-- an actor and a reason.
pub only_recovery_reinstates :
    (j : String) {s t : AgentService} (step : s ⟶ t)
    → IsConsistent s
    → is_suspended (enforcement_of j s) ≡ true
    → (is_suspended (enforcement_of j t) ≡ true) ⊎ Recovers j step
only_recovery_reinstates j {s} (registration agent actor correlation_id i) h c =
    inl (register_agent_cases (IsContained j) agent actor correlation_id i s c (λ fresh. c))
only_recovery_reinstates j {s} (activation agent_id actor reason correlation_id i) h c = inl (
    activate_agent_cases (IsContained j) agent_id actor reason correlation_id i s c
      (λ action a e. unfold apply_administrative in c))
only_recovery_reinstates j {s} (disablement agent_id actor reason correlation_id i) h c = inl (
    disable_agent_cases (IsContained j) agent_id actor reason correlation_id i s c
      (λ action a e. unfold apply_administrative in c))
only_recovery_reinstates j {s} (suspension agent_id reason trigger i) h c = inl (
    suspend_agent_cases (IsContained j) agent_id reason i s c trigger λ a e moves.
      rw
        (transition-enforcement_ne (projected agent_id a s) AgentStatus.suspended suspend
          runtime_actor reason trigger none i s j (λ p. cc (h.keyed agent_id a e)))
        c)
only_recovery_reinstates j {s} (reinstatement agent_id actor reason watermark i) h c =
    reinstate_agent_cases
      (λ t.
        IsContained j t ⊎ ((agent_id ≡ j) × (is_blank actor ≡ false) × (is_blank reason ≡ false)))
      agent_id reason i s (inl c) actor watermark
      λ a e moves b d. elim (Bool-cases (agent_id == j)) [
        | inl same ↦ inr ((eq_iff agent_id j).0 same, b, d)
        | inr other ↦ inl (
            rw
              (transition-enforcement_ne (projected agent_id a s) AgentStatus.active reinstate actor
                reason none watermark i s j (λ p. cc (h.keyed agent_id a e, eq_refl j)))
              c)
      ]

-- some operation of a sequence is an attributed reinstatement of the agent
abbrev pub RecoversIn : {s t : AgentService} → String → s ⟶* t → Type 0
RecoversIn j here = ⊥
RecoversIn j (next steps step) = RecoversIn j steps ⊎ Recovers j step

-- From a reachable state in which an agent is suspended, whatever operations follow: the agent is
-- still suspended, or one of them was a reinstatement of that agent with an actor and a reason that
-- are not blank.
pub contained_until_reinstated :
    (j : String) {s t : AgentService}
    → empty ⟶* s
    → is_suspended (enforcement_of j s) ≡ true
    → (steps : s ⟶* t) → (is_suspended (enforcement_of j t) ≡ true) ⊎ RecoversIn j steps
contained_until_reinstated j reach c here = inl c
contained_until_reinstated j reach c (next steps step) =
    elim (contained_until_reinstated j reach c steps) [
      | inr recovered ↦ inr (inl recovered)
      | inl still ↦
          elim (only_recovery_reinstates j step
            (⟶*-IsConsistent steps (reachable-IsConsistent reach)) still) [
              | inl contained ↦ inl contained
              | inr recovers ↦ inr (inr recovers)
            ]
    ]
