-- ===== src/AgentService/Invariant/Reach.antt =====
-- app/services/agent_service.py: the operations as a step relation, and the reachable states.
use enterprise_agent_securit.Dict.{get-empty}
use enterprise_agent_securit.Administrative.Ledger.{LedgerReplays-empty}
use enterprise_agent_securit.AgentService.Posture.{tally-empty}
use enterprise_agent_securit.Prelude.{String, Option}
use enterprise_agent_securit.Watermark.{BaselineWatermark}
use enterprise_agent_securit.Agent.{Agent}
use enterprise_agent_securit.Administrative.{Actor}
use enterprise_agent_securit.Enforcement.{EnforcementTrigger}
use enterprise_agent_securit.AgentService.{AgentService, Inputs, empty}
use enterprise_agent_securit.AgentService.Administration.{
  register_agent, activate_agent, disable_agent,
}
use enterprise_agent_securit.AgentService.Containment.{suspend_agent, reinstate_agent}
use enterprise_agent_securit.AgentService.Invariant.{IsConsistent}
use enterprise_agent_securit.AgentService.Invariant.Administration.{
  register_agent-IsConsistent, activate_agent-IsConsistent, disable_agent-IsConsistent,
}
use enterprise_agent_securit.AgentService.Invariant.Containment.{
  suspend_agent-IsConsistent, reinstate_agent-IsConsistent,
}

-- Any sequence of operations, of any callers.
infix 40 ◌⟶◌
pub data ◌⟶◌ (s : AgentService) : AgentService → Type 0 where
  registration :
      (agent : Agent) (actor : Actor) (correlation_id : Option String) (i : Inputs)
      → s ⟶ (register_agent agent actor correlation_id i s).1
  activation :
      (agent_id : String) (actor : Actor) (reason : String) (correlation_id : Option String)
      (i : Inputs)
      → s ⟶ (activate_agent agent_id actor reason correlation_id i s).1
  disablement :
      (agent_id : String) (actor : Actor) (reason : String) (correlation_id : Option String)
      (i : Inputs)
      → s ⟶ (disable_agent agent_id actor reason correlation_id i s).1
  suspension :
      (agent_id reason : String) (trigger : Option EnforcementTrigger) (i : Inputs)
      → s ⟶ (suspend_agent agent_id reason trigger i s).1
  reinstatement :
      (agent_id actor reason : String) (watermark : Option BaselineWatermark) (i : Inputs)
      → s ⟶ (reinstate_agent agent_id actor reason watermark i s).1

pub ⟶-IsConsistent : {s t : AgentService} → s ⟶ t → IsConsistent s → IsConsistent t
⟶-IsConsistent {s} (registration agent actor correlation_id i) h =
    register_agent-IsConsistent agent actor correlation_id i s h
⟶-IsConsistent {s} (activation agent_id actor reason correlation_id i) h =
    activate_agent-IsConsistent agent_id actor reason correlation_id i s h
⟶-IsConsistent {s} (disablement agent_id actor reason correlation_id i) h =
    disable_agent-IsConsistent agent_id actor reason correlation_id i s h
⟶-IsConsistent {s} (suspension agent_id reason trigger i) h =
    suspend_agent-IsConsistent agent_id reason trigger i s h
⟶-IsConsistent {s} (reinstatement agent_id actor reason watermark i) h =
    reinstate_agent-IsConsistent agent_id actor reason watermark i s h

infix 40 ◌⟶*◌
pub data ◌⟶*◌ (s : AgentService) : AgentService → Type 0 where
  here : s ⟶* s
  next : {t u : AgentService} → s ⟶* t → t ⟶ u → s ⟶* u

empty-IsConsistent : IsConsistent empty
empty-IsConsistent = record {
  ledger = LedgerReplays-empty;
  history = λ j. rw get-empty (tally-empty j);
  known = λ j e. get-empty j;
  keyed = λ j a e. cc (get-empty {V = Agent} j);
  epochs = λ j e. rw get-empty;
}

pub ⟶*-IsConsistent : {s t : AgentService} → s ⟶* t → IsConsistent s → IsConsistent t
⟶*-IsConsistent here h = h
⟶*-IsConsistent (next steps step) h = ⟶-IsConsistent step (⟶*-IsConsistent steps h)

-- Every state that operations of the service reach from the empty one, in any order and of any
-- callers, is consistent: the administrative ledger replays to the stored administrative states and
-- versions; the enforcement history, in which the suspensions and reinstatements of an agent
-- alternate, to the stored epochs, recovery generations and suspensions; an agent that is not
-- registered has no administrative record; agents are stored under their own identifiers; and an
-- agent without enforcement state has epoch counter zero.
pub reachable-IsConsistent : {s : AgentService} → empty ⟶* s → IsConsistent s
reachable-IsConsistent steps = ⟶*-IsConsistent steps empty-IsConsistent
