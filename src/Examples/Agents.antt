-- ===== src/Examples/Agents.antt =====
-- app/services/agent_service.py: an agent that is registered, suspended, reinstated and disabled.
use enterprise_agent_securit.Prelude.{◌≡◌, ◌≢◌, ◌⊎◌, ◌+◌, refl, true, false, none, some, [], ok}
use enterprise_agent_securit.Dict
use enterprise_agent_securit.Text.{is_blank}
use enterprise_agent_securit.Watermark.{BaselineWatermark}
use enterprise_agent_securit.Agent.{Agent, AgentStatus, RiskTier, save}
use enterprise_agent_securit.Administrative.{
  Actor, human, is_legal_administrative_transition, legal_administrative_transitions,
  administrative_transition_actions, disabled,
}
use enterprise_agent_securit.Administrative.Repository as AdministrativeRepository
use enterprise_agent_securit.Enforcement.{AgentEnforcementState}
use enterprise_agent_securit.Enforcement.Repository.{epoch_of, generation_of}
use enterprise_agent_securit.Enforcement.Repository as EnforcementRepository
use enterprise_agent_securit.Lifecycle.{agent_disabled}
use enterprise_agent_securit.AgentService.{
  AgentService, Inputs, empty, get_agent, project_status, is_suspended,
}
use enterprise_agent_securit.AgentService.Administration as Administration
use enterprise_agent_securit.AgentService.Containment as Containment
use enterprise_agent_securit.AgentService.Planes.{lifecycle_refusal}
use enterprise_agent_securit.AgentService.Invariant.{IsConsistent}
use enterprise_agent_securit.AgentService.Invariant.Reach.{
  registration, disablement, suspension, reinstatement, ◌⟶*◌, here, next, reachable-IsConsistent,
}
use enterprise_agent_securit.AgentService.Terminal.{administrative_of, disabled_forever}
use enterprise_agent_securit.AgentService.Recovery.{
  enforcement_of, RecoversIn, contained_until_reinstated,
}
use enterprise_agent_securit.AgentService.Effects.{suspension_effective, reinstatement_effective}

abbrev first_call : Inputs
first_call = record { now = 100; uuid = "t1"; correlation_uuid = "c1" }

abbrev pub later_call : Inputs
later_call = record { now = 200; uuid = "t2"; correlation_uuid = "c2" }

abbrev administrator : Actor
administrator = record { type = human; id = "ops" }

abbrev pub assistant : Agent
assistant = record {
  agent_id = "a1";
  name = "assistant";
  owner = "ops";
  risk_tier = RiskTier.low;
  approved_tools = [];
  status = AgentStatus.registered;
}

abbrev watermark : BaselineWatermark
watermark = record {
  agent_id = "a1";
  baseline_at = some 200;
  baseline_evidence_sequence = 7;
  baseline_agent_sequence = 9;
}

abbrev pub registered_state : AgentService
registered_state = (Administration.register_agent assistant administrator none first_call empty).1

abbrev pub suspended_state : AgentService
suspended_state = (Containment.suspend_agent "a1" "risk" none first_call registered_state).1

abbrev disabled_state : AgentService
disabled_state =
    (Administration.disable_agent "a1" administrator "retired" none later_call suspended_state).1

to_registered : empty ⟶* registered_state
to_registered = next here (registration assistant administrator none first_call)

pub to_suspended : empty ⟶* suspended_state
to_suspended = next to_registered (suspension "a1" "risk" none first_call)

to_disabled : empty ⟶* disabled_state
to_disabled = next to_suspended (disablement "a1" administrator "retired" none later_call)

pub registered_found : Dict.get "a1" registered_state.agents ≡ some assistant
unfolding Dict.get Dict.put save Administration.register_agent
    AdministrativeRepository.commit_registration AdministrativeRepository.commit
    AdministrativeRepository.describes is_legal_administrative_transition
    legal_administrative_transitions
registered_found = refl

pub registered_calm : is_suspended (enforcement_of "a1" registered_state) ≡ false
unfolding Dict.get Dict.put save Administration.register_agent
    AdministrativeRepository.commit_registration AdministrativeRepository.commit
    AdministrativeRepository.describes is_legal_administrative_transition
    legal_administrative_transitions
registered_calm = refl

registered_enabled :
    Containment.is_disabled (Dict.get "a1" registered_state.administrative_repository.states)
    ≡ false
unfolding Dict.get Dict.put save Administration.register_agent
    AdministrativeRepository.commit_registration AdministrativeRepository.commit
    AdministrativeRepository.describes is_legal_administrative_transition
    legal_administrative_transitions
registered_enabled = refl

pub suspended_contained : is_suspended (enforcement_of "a1" suspended_state) ≡ true
unfolding Dict.get Dict.put save Administration.register_agent
    AdministrativeRepository.commit_registration AdministrativeRepository.commit
    AdministrativeRepository.describes is_legal_administrative_transition
    legal_administrative_transitions Containment.suspend_agent get_agent project_status
    Containment.transition Containment.answer Containment.next_state
    EnforcementRepository.record_transition EnforcementRepository.current_epoch
suspended_contained = refl

pub suspended_found : Dict.get "a1" suspended_state.agents ≡ some assistant
unfolding Dict.get Dict.put save Administration.register_agent
    AdministrativeRepository.commit_registration AdministrativeRepository.commit
    AdministrativeRepository.describes is_legal_administrative_transition
    legal_administrative_transitions Containment.suspend_agent get_agent project_status
    Containment.transition Containment.answer Containment.next_state
    EnforcementRepository.record_transition EnforcementRepository.current_epoch
suspended_found = refl

disabled_recorded : administrative_of "a1" disabled_state ≡ some disabled
unfolding Dict.get Dict.put save Administration.register_agent
    AdministrativeRepository.commit_registration AdministrativeRepository.commit
    AdministrativeRepository.describes is_legal_administrative_transition
    legal_administrative_transitions Containment.suspend_agent get_agent project_status
    Containment.transition Containment.answer Containment.next_state
    EnforcementRepository.record_transition EnforcementRepository.current_epoch
    Administration.disable_agent Administration.administrative_transition
    Administration.apply_administrative AdministrativeRepository.record_transition
    administrative_transition_actions
disabled_recorded = refl

reachable-IsConsistent_example : IsConsistent suspended_state
reachable-IsConsistent_example = reachable-IsConsistent to_suspended

disabled_forever_example :
    lifecycle_refusal "a1"
      (Containment.reinstate_agent "a1" "ops" "cleared"
        (some watermark)
        later_call
        disabled_state).1
    ≡ some agent_disabled
disabled_forever_example =
    disabled_forever "a1" to_disabled disabled_recorded
      (next here (reinstatement "a1" "ops" "cleared" (some watermark) later_call))

abbrev disabling : suspended_state ⟶* disabled_state
disabling = next here (disablement "a1" administrator "retired" none later_call)

contained_until_reinstated_example :
    (is_suspended (enforcement_of "a1" disabled_state) ≡ true) ⊎ RecoversIn "a1" disabling
contained_until_reinstated_example =
    contained_until_reinstated "a1" to_suspended suspended_contained disabling

suspension_effective_example :
    let (r, s') = Containment.suspend_agent "a1" "risk" none first_call registered_state in
    (b : Agent) × (e : AgentEnforcementState) × (r ≡ ok b)
    × (enforcement_of "a1" s' ≡ some e)
    × (e.suspended_at ≡ some 100)
    × (e.suspension_reason ≡ some "risk")
    × (e.epoch ≡ epoch_of (enforcement_of "a1" registered_state) none + 1)
    × (e.recovery_generation ≡ generation_of (enforcement_of "a1" registered_state))
    × (lifecycle_refusal "a1" s' ≢ none)
suspension_effective_example =
    suspension_effective "a1" "risk" none first_call assistant to_registered registered_found
      registered_calm registered_enabled

reinstatement_effective_example :
    let (r, s') =
      Containment.reinstate_agent "a1" "ops" "cleared"
        (some watermark)
        later_call
        suspended_state in
    (b : Agent) × (e : AgentEnforcementState) × (r ≡ ok b)
    × (enforcement_of "a1" s' ≡ some e)
    × (e.suspended_at ≡ none)
    × (e.baseline_evidence_sequence ≡ 7)
    × (e.baseline_agent_sequence ≡ 9)
    × (e.epoch ≡ epoch_of (enforcement_of "a1" suspended_state) none + 1)
    × (e.recovery_generation ≡ generation_of (enforcement_of "a1" suspended_state) + 1)
    × (s'.administrative_repository ≡ suspended_state.administrative_repository)
unfolding is_blank
reinstatement_effective_example =
    reinstatement_effective "a1" "ops" "cleared" watermark later_call assistant to_suspended
      suspended_found suspended_contained refl refl
