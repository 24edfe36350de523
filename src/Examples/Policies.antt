-- ===== src/Examples/Policies.antt =====
-- app/policy/policy_engine.py: a request that is allowed, and one that needs approval.
use enterprise_agent_securit.Prelude.{
  Option, String, ◌≤◌, ◌≢◌, ◌⊎◌, ◌≡◌, ◌↔◌, refl, false, none, some, [], ◌∷◌,
}
use enterprise_agent_securit.Dict
use enterprise_agent_securit.Agent.{Agent, AgentStatus, RiskTier}
use enterprise_agent_securit.Administrative.{active}
use enterprise_agent_securit.Enforcement.Repository as EnforcementRepository
use enterprise_agent_securit.AgentService.{AgentService, is_suspended}
use enterprise_agent_securit.AgentService.Recovery.{enforcement_of}
use enterprise_agent_securit.AgentService.Terminal.{administrative_of}
use enterprise_agent_securit.AgentService.Planes.{lifecycle_refusal, evaluate_reads}
use enterprise_agent_securit.Authority.{allow, approval_required}
use enterprise_agent_securit.Lifecycle.{
  evaluate_lifecycle_authorization, failing_lifecycle_conditions,
}
use enterprise_agent_securit.Policy.{
  ToolGovernanceView, ToolRiskLevel, evaluate, evaluate_policy, evaluate_admitted,
}
use enterprise_agent_securit.Policy.Decides.{allow_iff, level_rank, unattended}

abbrev analyst : Agent
analyst = record {
  agent_id = "a1";
  name = "analyst";
  owner = "ops";
  risk_tier = RiskTier.high;
  approved_tools = [];
  status = AgentStatus.registered;
}

abbrev reader : ToolGovernanceView
reader = record { tool_id = "file_read"; risk_level = ToolRiskLevel.medium }

abbrev deployer : ToolGovernanceView
deployer = record { tool_id = "deploy"; risk_level = ToolRiskLevel.critical }

abbrev active_service : AgentService
active_service = record {
  agents = ("a1", analyst) ∷ [];
  administrative_repository = record {
    states =
        (
          "a1",
          record {
            agent_id = "a1";
            state = active;
            administrative_version = 2;
            last_transition_at = none;
          },
        )
        ∷ [];
    transitions = [];
  };
  enforcement_repository = EnforcementRepository.empty;
}

allow_iff_example :
    (evaluate analyst reader (some "secrets.txt") (lifecycle_refusal "a1" active_service) ≡ allow)
    ↔ ((administrative_of "a1" active_service ≡ some active)
        × (is_suspended (enforcement_of "a1" active_service) ≡ false)
        × (level_rank ToolRiskLevel.medium ≤ level_rank (unattended RiskTier.high))
        × ((◌≢◌ {A = String} reader.tool_id "file_read")
            ⊎ (◌≢◌ {A = Option String} (some "secrets.txt") (some "secrets.txt"))))
allow_iff_example = allow_iff analyst reader (some "secrets.txt") "a1" active_service

needs_approval :
    evaluate analyst deployer none (lifecycle_refusal "a1" active_service) ≡ approval_required
unfolding evaluate evaluate_policy evaluate_admitted lifecycle_refusal evaluate_reads
    evaluate_lifecycle_authorization failing_lifecycle_conditions Dict.get
needs_approval = refl
