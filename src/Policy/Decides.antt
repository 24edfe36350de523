-- ===== src/Policy/Decides.antt =====
-- app/policy/policy_engine.py: what each decision means, and the decision over the two lifecycle planes
-- of app/services/agent_service.py.
use enterprise_agent_securit.Prelude.{
  ℕ, ◌≤◌, ◌≢◌, eq_iff, String, ◌≡◌, ◌↔◌, ◌⊎◌, inl, refl, false, ◌&&◌, ◌==◌, Option, none, some,
  arith,
}
use enterprise_agent_securit.Administrative.{active}
use enterprise_agent_securit.Agent.{Agent, RiskTier}
use enterprise_agent_securit.AgentService.{AgentService, is_suspended}
use enterprise_agent_securit.AgentService.Planes.{lifecycle_refusal}
use enterprise_agent_securit.AgentService.Recovery.{enforcement_of}
use enterprise_agent_securit.AgentService.Terminal.{administrative_of}
use enterprise_agent_securit.Authority.{allow, deny, approval_required}
use enterprise_agent_securit.Lifecycle.{LifecycleRefusalCode, evaluate_lifecycle_authorization}
use enterprise_agent_securit.Policy.{
  ToolRiskLevel, low, medium, high, critical, ToolGovernanceView, passed, failed, evaluate_policy,
  evaluate_admitted, refused_check, tier_failed, tier_passed, resource_failed, resource_passed,
  active_check, not_evaluated_check, evaluate, is_protected,
}

-- the order of the risk levels
abbrev pub level_rank : ToolRiskLevel → ℕ
level_rank low = 0
level_rank medium = 1
level_rank high = 2
level_rank critical = 3

-- the highest level that an agent of a risk tier may use without an approval: MEDIUM for a LOW tier
abbrev pub unattended : RiskTier → ToolRiskLevel
unattended RiskTier.low = medium
unattended _ = high

-- no part of a request on a protected resource
is_protected_iff :
    (tool_id : String) (resource : Option String)
    → (tool_id == "file_read" && is_protected resource ≡ false)
      ↔ ((tool_id ≢ "file_read") ⊎ (resource ≢ some "secrets.txt"))
is_protected_iff tool_id none = ground (arith, eq_iff tool_id "file_read")
is_protected_iff tool_id (some r) =
    ground (arith, eq_iff tool_id "file_read", eq_iff r "secrets.txt")

allowed_when :
    (agent : Agent) (tool : ToolGovernanceView) (resource : Option String)
    (refusal : Option LifecycleRefusalCode)
    → (evaluate agent tool resource refusal ≡ allow) ↔ (
        (refusal ≡ none)
        × (level_rank tool.risk_level ≤ level_rank (unattended agent.risk_tier))
        × ((tool.tool_id ≢ "file_read") ⊎ (resource ≢ some "secrets.txt")))
unfolding evaluate evaluate_policy evaluate_admitted
allowed_when agent tool resource (some r) = (λ h. ground arith, λ h. ground arith)
allowed_when agent tool resource none =
    let protected = is_protected_iff tool.tool_id resource in
    (λ h. (refl, ground arith, protected.0 (ground arith)), λ h. ground (arith, protected.1 h.2))

permitted_when :
    (agent_id : String) (s : AgentService)
    → (lifecycle_refusal agent_id s ≡ none) ↔ (
        (administrative_of agent_id s ≡ some active)
        × (is_suspended (enforcement_of agent_id s) ≡ false))
unfolding lifecycle_refusal evaluate_lifecycle_authorization
permitted_when agent_id s = ground arith

-- With the lifecycle refusal that the agent service reports for an agent, a request is allowed exactly
-- when the agent is administratively ACTIVE and not suspended, the tool's risk level is at most MEDIUM
-- for an agent of LOW tier and at most HIGH for another, and the request is not one of the tool
-- "file_read" for the resource "secrets.txt".
pub allow_iff :
    (agent : Agent) (tool : ToolGovernanceView) (resource : Option String) (agent_id : String)
    (s : AgentService)
    → (evaluate agent tool resource (lifecycle_refusal agent_id s) ≡ allow) ↔ (
        (administrative_of agent_id s ≡ some active)
        × (is_suspended (enforcement_of agent_id s) ≡ false)
        × (level_rank tool.risk_level ≤ level_rank (unattended agent.risk_tier))
        × ((tool.tool_id ≢ "file_read") ⊎ (resource ≢ some "secrets.txt")))
allow_iff agent tool resource agent_id s =
    let checks = allowed_when agent tool resource (lifecycle_refusal agent_id s) in
    let planes = permitted_when agent_id s in
    (
      λ h. let c = checks.0 h in let p = planes.0 c.0 in (p.0, p.1, c.1, c.2),
      λ h. checks.1 (planes.1 (h.0, h.1), h.2, h.3),
    )

-- Either the request is denied and one of the three checks failed, or all three passed and it is
-- allowed or sent for approval.
pub decision_follows_checks :
    (agent : Agent) (tool : ToolGovernanceView) (resource : Option String)
    (refusal : Option LifecycleRefusalCode)
    → let r = evaluate_policy agent tool resource refusal in
      ((r.decision ≡ deny)
        × ((r.status_check.status ≡ failed)
            ⊎ (r.risk_tier_check.status ≡ failed)
            ⊎ (r.resource_check.status ≡ failed)))
      ⊎ ((r.status_check.status ≡ passed)
          × (r.risk_tier_check.status ≡ passed)
          × (r.resource_check.status ≡ passed)
          × ((r.decision ≡ allow) ⊎ (r.decision ≡ approval_required)))
unfolding evaluate_policy evaluate_admitted refused_check tier_failed tier_passed resource_failed
    resource_passed active_check not_evaluated_check
decision_follows_checks agent tool resource (some refusal) = inl (refl, inl refl)
decision_follows_checks agent tool none none = ground arith
decision_follows_checks agent tool (some resource) none = ground arith

-- A request that the policy allows, or sends for approval, on the lifecycle refusal that the agent
-- service reports, comes from an agent that is administratively ACTIVE and not suspended.
pub admitted_only_active :
    (agent : Agent) (tool : ToolGovernanceView) (resource : Option String) (agent_id : String)
    (s : AgentService)
    → (evaluate agent tool resource (lifecycle_refusal agent_id s) ≡ allow)
      ⊎ (evaluate agent tool resource (lifecycle_refusal agent_id s) ≡ approval_required)
    → (administrative_of agent_id s ≡ some active)
      × (is_suspended (enforcement_of agent_id s) ≡ false)
unfolding evaluate evaluate_policy lifecycle_refusal evaluate_lifecycle_authorization
admitted_only_active agent tool resource agent_id s h = ground arith
