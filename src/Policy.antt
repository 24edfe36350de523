-- ===== src/Policy.antt =====
-- app/policy/policy_engine.py, with the checks of app/models/authorization_result.py and the levels of
-- app/models/tool_risk_level.py: the policy decision on one request. A Python f-string is the
-- concatenation of its parts, and `details` the list of its items.
pub mod Decides
use enterprise_agent_securit.Prelude.{
  ℕ, String, Bool, true, false, ◌&&◌, ◌||◌, Option, none, some, List, [], ◌∷◌, ◌==◌, if◌then◌else◌,
}
use enterprise_agent_securit.Text.{◌⧺◌}
use enterprise_agent_securit.Agent.{Agent, RiskTier}
use enterprise_agent_securit.Authority.{Decision, allow, deny, approval_required}
use enterprise_agent_securit.Lifecycle.{
  LifecycleRefusalCode, administrative_state_unavailable, enforcement_state_unavailable,
  agent_disabled, agent_not_active, agent_suspended,
}

pub data ToolRiskLevel : Type 0 where
  low medium high critical : ToolRiskLevel

-- `ToolGovernanceView`
pub record ToolGovernanceView : Type 0 where
  pub tool_id : String
  pub risk_level : ToolRiskLevel

pub data AuthorizationCheckStatus : Type 0 where
  passed failed not_evaluated : AuthorizationCheckStatus

pub record AuthorizationCheck : Type 0 where
  pub status : AuthorizationCheckStatus
  pub reason : String
  pub code : Option String
  pub details : List (String × String)

pub record PolicyEvaluationResult : Type 0 where
  pub decision : Decision
  pub status_check : AuthorizationCheck
  pub risk_tier_check : AuthorizationCheck
  pub resource_check : AuthorizationCheck
  pub reason : String

-- `.value` of the three enums
abbrev pub code_value : LifecycleRefusalCode → String
code_value administrative_state_unavailable = "ADMINISTRATIVE_STATE_UNAVAILABLE"
code_value enforcement_state_unavailable = "ENFORCEMENT_STATE_UNAVAILABLE"
code_value agent_disabled = "AGENT_DISABLED"
code_value agent_not_active = "AGENT_NOT_ACTIVE"
code_value agent_suspended = "AGENT_SUSPENDED"

abbrev pub tier_value : RiskTier → String
tier_value RiskTier.low = "LOW"
tier_value RiskTier.medium = "MEDIUM"
tier_value RiskTier.high = "HIGH"
tier_value RiskTier.critical = "CRITICAL"

abbrev pub level_value : ToolRiskLevel → String
level_value ToolRiskLevel.low = "LOW"
level_value ToolRiskLevel.medium = "MEDIUM"
level_value ToolRiskLevel.high = "HIGH"
level_value ToolRiskLevel.critical = "CRITICAL"

unfoldable pub not_evaluated_check : String → AuthorizationCheck
not_evaluated_check skipped_after = record {
  status = not_evaluated;
  reason = "Skipped due to prior check failure";
  code = none;
  details = ("skipped_after", skipped_after) ∷ [];
}

abbrev pub is_low : RiskTier → Bool
is_low RiskTier.low = true
is_low _ = false

abbrev pub is_critical : ToolRiskLevel → Bool
is_critical ToolRiskLevel.critical = true
is_critical _ = false

abbrev pub is_high_or_critical : ToolRiskLevel → Bool
is_high_or_critical ToolRiskLevel.high = true
is_high_or_critical ToolRiskLevel.critical = true
is_high_or_critical _ = false

-- `resource in self.PROTECTED_RESOURCES`
abbrev pub is_protected : Option String → Bool
is_protected none = false
is_protected (some resource) = resource == "secrets.txt"

abbrev pub text_or_none : Option String → String
text_or_none none = "None"
text_or_none (some resource) = resource

unfoldable pub refused_check : Agent → LifecycleRefusalCode → AuthorizationCheck
refused_check agent refusal = record {
  status = failed;
  reason = "Agent '" ⧺ agent.agent_id ⧺ "' may not execute: " ⧺ code_value refusal;
  code = some (code_value refusal);
  details = ("agent_id", agent.agent_id) ∷ ("lifecycle_refusal", code_value refusal) ∷ [];
}

unfoldable pub active_check : Agent → AuthorizationCheck
active_check agent = record {
  status = passed;
  reason = "Agent '" ⧺ agent.agent_id ⧺ "' is active";
  code = none;
  details = ("agent_id", agent.agent_id) ∷ [];
}

abbrev pub tier_details : Agent → ToolGovernanceView → List (String × String)
tier_details agent tool =
    ("risk_tier", tier_value agent.risk_tier)
    ∷ ("tool_risk_level", level_value tool.risk_level)
    ∷ []

unfoldable pub tier_failed : Agent → ToolGovernanceView → AuthorizationCheck
tier_failed agent tool = record {
  status = failed;
  reason =
      "Agent risk tier '"
      ⧺ tier_value agent.risk_tier
      ⧺ "' cannot execute tool with risk level '"
      ⧺ level_value tool.risk_level
      ⧺ "'";
  code = none;
  details = tier_details agent tool;
}

unfoldable pub tier_passed : Agent → ToolGovernanceView → AuthorizationCheck
tier_passed agent tool = record {
  status = passed;
  reason =
      "Agent risk tier '"
      ⧺ tier_value agent.risk_tier
      ⧺ "' permits tool risk level '"
      ⧺ level_value tool.risk_level
      ⧺ "'";
  code = none;
  details = tier_details agent tool;
}

unfoldable pub resource_failed : ToolGovernanceView → Option String → AuthorizationCheck
resource_failed tool resource = record {
  status = failed;
  reason = "Access to protected resource '" ⧺ text_or_none resource ⧺ "' is denied";
  code = none;
  details = ("resource", text_or_none resource) ∷ ("tool_id", tool.tool_id) ∷ [];
}

unfoldable pub resource_passed : Option String → AuthorizationCheck
resource_passed none = record {
  status = passed;
  reason = "No resource restriction evaluated";
  code = none;
  details = [];
}
resource_passed (some resource) = record {
  status = passed;
  reason = "Access to resource '" ⧺ resource ⧺ "' is permitted";
  code = none;
  details = ("resource", resource) ∷ [];
}

-- the checks that follow the lifecycle gate
unfoldable pub evaluate_admitted :
    Agent → ToolGovernanceView → Option String → PolicyEvaluationResult
unfolding tier_failed tier_passed resource_failed resource_passed active_check not_evaluated_check
evaluate_admitted agent tool resource =
    if is_low agent.risk_tier && is_high_or_critical tool.risk_level
    then (record {
      decision = deny;
      status_check = active_check agent;
      risk_tier_check = tier_failed agent tool;
      resource_check = not_evaluated_check "risk_tier_check";
      reason = (tier_failed agent tool).reason;
    })
    else if tool.tool_id == "file_read" && is_protected resource
    then (record {
      decision = deny;
      status_check = active_check agent;
      risk_tier_check = tier_passed agent tool;
      resource_check = resource_failed tool resource;
      reason = (resource_failed tool resource).reason;
    })
    else if is_critical tool.risk_level
    then (record {
      decision = approval_required;
      status_check = active_check agent;
      risk_tier_check = tier_passed agent tool;
      resource_check = resource_passed resource;
      reason = "Tool '" ⧺ tool.tool_id ⧺ "' has CRITICAL risk level; human approval is required";
    })
    else (record {
      decision = allow;
      status_check = active_check agent;
      risk_tier_check = tier_passed agent tool;
      resource_check = resource_passed resource;
      reason = "All policy checks passed";
    })

unfoldable pub evaluate_policy :
    Agent
    → ToolGovernanceView
    → Option String
    → Option LifecycleRefusalCode
    → PolicyEvaluationResult
unfolding refused_check not_evaluated_check evaluate_admitted
evaluate_policy agent tool resource none = evaluate_admitted agent tool resource
evaluate_policy agent tool resource (some refusal) = record {
  decision = deny;
  status_check = refused_check agent refusal;
  risk_tier_check = not_evaluated_check "status_check";
  resource_check = not_evaluated_check "status_check";
  reason = (refused_check agent refusal).reason;
}

unfoldable pub evaluate :
    Agent → ToolGovernanceView → Option String → Option LifecycleRefusalCode → Decision
unfolding evaluate_policy
evaluate agent tool resource refusal = (evaluate_policy agent tool resource refusal).decision
