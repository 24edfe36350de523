-- ===== src/Examples/Recoveries.antt =====
-- app/services/enforcement_coordinator.py: the recovery of a suspended agent, a retry, and a repair.
use enterprise_agent_securit.Prelude.{◌≡◌, true, false, none, some, [], ◌∷◌, ok, err, refl}
use enterprise_agent_securit.Text.{is_blank}
use enterprise_agent_securit.Agent.{Agent}
use enterprise_agent_securit.AgentService.{is_suspended, agent_not_suspended}
use enterprise_agent_securit.AgentService.Recovery.{enforcement_of}
use enterprise_agent_securit.Authority.{ExecutionAuthority, enforcement}
use enterprise_agent_securit.Authority.Issue.{issuance_closed_planes, discard}
use enterprise_agent_securit.Coordinator.{EnforcementCoordinator, agent_error, reinstate}
use enterprise_agent_securit.Coordinator.Recovery.{reinstate_completes, retry_refused}
use enterprise_agent_securit.Examples.Agents.{
  later_call, assistant, registered_state, suspended_state, to_suspended, registered_found,
  registered_calm, suspended_contained, suspended_found,
}

abbrev contained_authority : ExecutionAuthority
contained_authority = record {
  authority_id = "auth";
  ttl = 10;
  outstanding = [];
  revoked = [];
  issuance_closed = ("a1", record { administrative = false; enforcement = true }) ∷ [];
}

abbrev contained : EnforcementCoordinator
contained = record {
  agent_service = suspended_state;
  execution_authority = contained_authority;
  risk_aggregator = some (record { projections = []; rule_vocabulary = [] });
}

-- the agent is not suspended, and its issuance is still closed
abbrev unfinished : EnforcementCoordinator
unfinished = record contained { agent_service = registered_state }

reinstate_completes_example :
    let (r, c') = reinstate "a1" "ops" "cleared" (some 7) none 200 later_call contained in
    (b : Agent) × (r ≡ ok b)
    × (is_suspended (enforcement_of "a1" c'.agent_service) ≡ false)
    × (issuance_closed_planes "a1" c'.execution_authority
        ≡ discard enforcement (issuance_closed_planes "a1" contained_authority))
unfolding is_blank
reinstate_completes_example =
    reinstate_completes "a1" "ops" "cleared" (some 7) none 200 later_call assistant contained
      to_suspended suspended_found suspended_contained refl refl

retry_refused_example :
    reinstate "a1" "ops" "cleared" (some 7) none 200 later_call unfinished
    ≡ (err (agent_error agent_not_suspended), unfinished)
unfolding is_blank
retry_refused_example =
    retry_refused "a1" "ops" "cleared" (some 7) none 200 later_call assistant unfinished
      registered_found registered_calm refl refl
