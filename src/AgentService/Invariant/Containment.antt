-- ===== src/AgentService/Invariant/Containment.antt =====
-- app/services/agent_service.py: suspension and reinstatement against the invariant.
use enterprise_agent_securit.Prelude.{
  ℕ, String, ◌≡◌, false, Option, none, some, arith, if◌then◌else◌, Bool-cases, inl, inr, sym,
}
use enterprise_agent_securit.Dict
use enterprise_agent_securit.Dict.{get-put}
use enterprise_agent_securit.Watermark.{BaselineWatermark}
use enterprise_agent_securit.Agent.{Agent, AgentStatus}
use enterprise_agent_securit.Enforcement.{
  EnforcementAction, EnforcementTrigger, suspend, reinstate, AgentEnforcementState,
}
use enterprise_agent_securit.Enforcement.Repository.{is_reinstate}
use enterprise_agent_securit.AgentService.{AgentService, Inputs, is_suspended, projected}
use enterprise_agent_securit.AgentService.Containment.{
  suspend_agent, reinstate_agent, transition, is_disabled, next_state, or_clean, runtime_actor,
}
use enterprise_agent_securit.AgentService.Posture.{
  shown, follow, record_transition-tally, record_transition-epochs,
}
use enterprise_agent_securit.AgentService.Cases.{suspend_agent_cases, reinstate_agent_cases}
use enterprise_agent_securit.AgentService.Invariant.{IsConsistent}

next_state-follow :
    (action : EnforcementAction) (reason : String) (watermark : Option BaselineWatermark) (now : ℕ)
    (agent_id : String) (o : Option AgentEnforcementState)
    → is_reinstate action ≡ is_suspended o
    → follow action (shown o)
      ≡ shown (some (next_state action reason watermark now (or_clean agent_id o)))
unfolding next_state
next_state-follow suspend reason watermark now agent_id o h = ground arith
next_state-follow reinstate reason watermark now agent_id o h = ground arith

-- what `_transition` touches, for an agent that it may move
module _ (agent : Agent) (new_status : AgentStatus) (action : EnforcementAction)
    (actor reason : String) (trigger : Option EnforcementTrigger)
    (watermark : Option BaselineWatermark) (i : Inputs) (s : AgentService) where
  transition-IsConsistent :
      is_reinstate action ≡ is_suspended (Dict.get agent.agent_id s.enforcement_repository.states)
      → IsConsistent s
      → IsConsistent (transition agent new_status action actor reason trigger watermark i s).1
  unfolding transition
  transition-IsConsistent may h =
      elim (Bool-cases (
        if is_reinstate action
        then false
        else is_disabled (Dict.get agent.agent_id s.administrative_repository.states))) [
          | inl e ↦ rw (e, transition) h
          | inr e ↦
              rw (e, transition)
                (record {
                  ledger = h.ledger;
                  history = λ j.
                      record_transition-tally _ _ _ s.enforcement_repository j (h.history j)
                        (next_state-follow action reason watermark i.now agent.agent_id _ may);
                  known = h.known;
                  keyed = h.keyed;
                  epochs = λ j n.
                      record_transition-epochs _ _ _ s.enforcement_repository j (h.epochs j) n;
                })
        ]

pub suspend_agent-IsConsistent :
    (agent_id reason : String) (trigger : Option EnforcementTrigger) (i : Inputs) (s : AgentService)
    → IsConsistent s
    → IsConsistent (suspend_agent agent_id reason trigger i s).1
suspend_agent-IsConsistent agent_id reason trigger i s h =
    suspend_agent_cases IsConsistent agent_id reason i s h trigger λ a e moves.
      transition-IsConsistent (projected agent_id a s) AgentStatus.suspended suspend runtime_actor
        reason trigger none i s (rw (h.keyed agent_id a e) (sym moves)) h

pub reinstate_agent-IsConsistent :
    (agent_id actor reason : String) (watermark : Option BaselineWatermark) (i : Inputs)
    (s : AgentService)
    → IsConsistent s
    → IsConsistent (reinstate_agent agent_id actor reason watermark i s).1
reinstate_agent-IsConsistent agent_id actor reason watermark i s h =
    reinstate_agent_cases IsConsistent agent_id reason i s h actor watermark λ a e moves b c.
      transition-IsConsistent (projected agent_id a s) AgentStatus.active reinstate actor reason
        none watermark i s (rw (h.keyed agent_id a e) (sym moves)) h
