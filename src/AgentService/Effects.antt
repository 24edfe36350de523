-- ===== src/AgentService/Effects.antt =====
-- app/services/agent_service.py: `suspend_agent` and `reinstate_agent` in a reachable state.
use enterprise_agent_securit.Prelude.{
  ℕ, String, ◌+◌, ◌≡◌, ◌≢◌, refl, true, false, Option, none, some, ok, arith, eq_iff, if◌then◌else◌,
  ap,
}
use enterprise_agent_securit.Dict
use enterprise_agent_securit.Dict.{get-put}
use enterprise_agent_securit.Text.{is_blank}
use enterprise_agent_securit.Watermark.{BaselineWatermark}
use enterprise_agent_securit.Agent.{Agent, AgentStatus}
use enterprise_agent_securit.Enforcement.{
  AgentEnforcementState, EnforcementAction, EnforcementTrigger, suspend, reinstate,
}
use enterprise_agent_securit.Enforcement.Repository.{
  is_reinstate, or_zero, epoch_of, generation_of, record_transition,
}
use enterprise_agent_securit.AgentService.{
  AgentService, Inputs, empty, get_agent, is_suspended, projected, project_status,
}
use enterprise_agent_securit.AgentService.Containment.{
  suspend_agent, reinstate_agent, transition, is_disabled, runtime_actor, next_state, or_clean,
}
use enterprise_agent_securit.AgentService.Cases.{administrative-transition}
use enterprise_agent_securit.AgentService.Recovery.{enforcement_of}
use enterprise_agent_securit.AgentService.Invariant.Reach.{◌⟶*◌, reachable-IsConsistent}
use enterprise_agent_securit.AgentService.Planes.{lifecycle_refusal}
use enterprise_agent_securit.Lifecycle.{evaluate_lifecycle_authorization}

-- The compare-and-set of one transition cannot miss, so the state that it writes is stored.
transition_commits :
    (agent_id : String) (agent : Agent) (new_status : AgentStatus) (action : EnforcementAction)
    (actor reason : String) (trigger : Option EnforcementTrigger)
    (watermark : Option BaselineWatermark) (i : Inputs) (s : AgentService)
    → agent.agent_id ≡ agent_id
    → (if is_reinstate action
        then false
        else is_disabled (Dict.get agent_id s.administrative_repository.states))
      ≡ false
    → (enforcement_of agent_id s ≡ none
        → or_zero (Dict.get agent_id s.enforcement_repository.epochs) ≡ 0)
    → let (r, s') = transition agent new_status action actor reason trigger watermark i s in
      let new_state =
        next_state action reason watermark i.now (or_clean agent_id (enforcement_of agent_id s)) in
      (r
        ≡ ok (record agent {
          status =
              project_status
                (Dict.get agent_id s.administrative_repository.states)
                (some new_state);
        }))
      × (enforcement_of agent_id s' ≡ some new_state)
unfolding transition next_state record_transition
transition_commits agent_id agent new_status action actor reason trigger watermark i s key may
      epochs =
    ground (
      arith,
      get-put agent.agent_id agent_id
          (next_state action reason watermark i.now (or_clean agent_id (enforcement_of agent_id s)))
          s.enforcement_repository.states,
      eq_iff agent.agent_id agent_id,
    )

or_clean-epoch :
    (agent_id : String) (o : Option AgentEnforcementState)
    → (or_clean agent_id o).epoch ≡ epoch_of o none
or_clean-epoch agent_id none = refl
or_clean-epoch agent_id (some e) = refl

or_clean-generation :
    (agent_id : String) (o : Option AgentEnforcementState)
    → (or_clean agent_id o).recovery_generation ≡ generation_of o
or_clean-generation agent_id none = refl
or_clean-generation agent_id (some e) = refl

contained_refused :
    (j : String) (s : AgentService) (e : AgentEnforcementState) (at : ℕ)
    → enforcement_of j s ≡ some e
    → e.suspended_at ≡ some at
    → lifecycle_refusal j s ≢ none
unfolding lifecycle_refusal evaluate_lifecycle_authorization
contained_refused j s e at stored suspended = ground arith

suspend_agent_moves :
    (agent_id reason : String) (trigger : Option EnforcementTrigger) (i : Inputs) (a : Agent)
    (s : AgentService)
    → Dict.get agent_id s.agents ≡ some a
    → is_suspended (enforcement_of agent_id s) ≡ false
    → is_disabled (Dict.get agent_id s.administrative_repository.states) ≡ false
    → suspend_agent agent_id reason trigger i s
      ≡ transition
          (projected agent_id a s)
          AgentStatus.suspended
          suspend
          runtime_actor
          reason
          trigger
          none
          i
          s
unfolding suspend_agent get_agent
suspend_agent_moves agent_id reason trigger i a s found calm may =
    rw (found, calm, may, suspend_agent, get_agent)

-- In a reachable state, suspending a registered agent that is neither suspended nor DISABLED never
-- fails: the call returns the agent, the enforcement state records the time and the reason, the
-- epoch has advanced by one, the recovery generation is as it was, and the agent may not execute.
pub suspension_effective :
    (agent_id reason : String) (trigger : Option EnforcementTrigger) (i : Inputs) (a : Agent)
    {s : AgentService}
    → empty ⟶* s
    → Dict.get agent_id s.agents ≡ some a
    → is_suspended (enforcement_of agent_id s) ≡ false
    → is_disabled (Dict.get agent_id s.administrative_repository.states) ≡ false
    → let (r, s') = suspend_agent agent_id reason trigger i s in
      (b : Agent) × (e : AgentEnforcementState) × (r ≡ ok b)
      × (enforcement_of agent_id s' ≡ some e)
      × (e.suspended_at ≡ some i.now)
      × (e.suspension_reason ≡ some reason)
      × (e.epoch ≡ epoch_of (enforcement_of agent_id s) none + 1)
      × (e.recovery_generation ≡ generation_of (enforcement_of agent_id s))
      × (lifecycle_refusal agent_id s' ≢ none)
unfolding next_state
suspension_effective agent_id reason trigger i a {s} reach found calm may =
    let h = reachable-IsConsistent reach in
    let key = h.keyed agent_id a found in
    let (answered, stored) =
      transition_commits agent_id (projected agent_id a s) AgentStatus.suspended suspend
        runtime_actor reason trigger none i s key may (h.epochs agent_id) in
    rw (suspend_agent_moves agent_id reason trigger i a s found calm may) (
      _,
      _,
      answered,
      stored,
      refl,
      refl,
      ap (λ n. n + 1) (or_clean-epoch agent_id (enforcement_of agent_id s)),
      or_clean-generation agent_id (enforcement_of agent_id s),
      contained_refused agent_id _ _ i.now stored refl,
    )

reinstate_agent_moves :
    (agent_id actor reason : String) (watermark : Option BaselineWatermark) (i : Inputs) (a : Agent)
    (s : AgentService)
    → Dict.get agent_id s.agents ≡ some a
    → is_suspended (enforcement_of agent_id s) ≡ true
    → is_blank actor ≡ false
    → is_blank reason ≡ false
    → reinstate_agent agent_id actor reason watermark i s
      ≡ transition
          (projected agent_id a s)
          AgentStatus.active
          reinstate
          actor
          reason
          none
          watermark
          i
          s
unfolding reinstate_agent get_agent
reinstate_agent_moves agent_id actor reason watermark i a s found contained b c =
    rw (found, contained, b, c, reinstate_agent, get_agent)

-- In a reachable state, an attributed reinstatement of a suspended agent never fails: the
-- suspension is cleared, the baseline of the two sequences is the watermark's, the epoch and the
-- recovery generation have advanced by one, and the administrative plane is as it was.
pub reinstatement_effective :
    (agent_id actor reason : String) (w : BaselineWatermark) (i : Inputs) (a : Agent)
    {s : AgentService}
    → empty ⟶* s
    → Dict.get agent_id s.agents ≡ some a
    → is_suspended (enforcement_of agent_id s) ≡ true
    → is_blank actor ≡ false
    → is_blank reason ≡ false
    → let (r, s') = reinstate_agent agent_id actor reason (some w) i s in
      (b : Agent) × (e : AgentEnforcementState) × (r ≡ ok b)
      × (enforcement_of agent_id s' ≡ some e)
      × (e.suspended_at ≡ none)
      × (e.baseline_evidence_sequence ≡ w.baseline_evidence_sequence)
      × (e.baseline_agent_sequence ≡ w.baseline_agent_sequence)
      × (e.epoch ≡ epoch_of (enforcement_of agent_id s) none + 1)
      × (e.recovery_generation ≡ generation_of (enforcement_of agent_id s) + 1)
      × (s'.administrative_repository ≡ s.administrative_repository)
unfolding next_state
reinstatement_effective agent_id actor reason w i a {s} reach found contained b c =
    let h = reachable-IsConsistent reach in
    let (answered, stored) =
      transition_commits agent_id (projected agent_id a s) AgentStatus.active reinstate actor reason
        none (some w) i s (h.keyed agent_id a found) refl (h.epochs agent_id) in
    rw (reinstate_agent_moves agent_id actor reason (some w) i a s found contained b c) (
      _,
      _,
      answered,
      stored,
      refl,
      refl,
      refl,
      ap (λ n. n + 1) (or_clean-epoch agent_id (enforcement_of agent_id s)),
      ap (λ n. n + 1) (or_clean-generation agent_id (enforcement_of agent_id s)),
      administrative-transition _ _ _ _ _ _ _ _ _,
    )
