-- ===== src/Lifecycle.antt =====
-- app/policy/lifecycle_authorization.py and `LifecycleRefusalCode` of
-- app/models/authorization_result.py: whether the two lifecycle planes permit execution. A Python
-- set of codes is a list, of which only membership is read.
pub mod Precedence
use enterprise_agent_securit.Prelude.{
  Bool, true, false, not, ◌||◌, Option, none, some, List, [], ◌∷◌, ◌++◌, if◌then◌else◌, is_some,
}
use enterprise_agent_securit.Administrative.{
  AdministrativeLifecycleState, registered, active, disabled, AgentAdministrativeState,
}
use enterprise_agent_securit.Enforcement.{AgentEnforcementState}

pub data LifecycleRefusalCode : Type 0 where
  administrative_state_unavailable enforcement_state_unavailable : LifecycleRefusalCode
  agent_disabled agent_not_active agent_suspended : LifecycleRefusalCode

abbrev pub code_eq : LifecycleRefusalCode → LifecycleRefusalCode → Bool
code_eq administrative_state_unavailable administrative_state_unavailable = true
code_eq enforcement_state_unavailable enforcement_state_unavailable = true
code_eq agent_disabled agent_disabled = true
code_eq agent_not_active agent_not_active = true
code_eq agent_suspended agent_suspended = true
code_eq _ _ = false

abbrev pub code_in : LifecycleRefusalCode → List LifecycleRefusalCode → Bool
code_in c [] = false
code_in c (d ∷ ds) = code_eq c d || code_in c ds

-- most significant first
abbrev pub refusal_precedence : List LifecycleRefusalCode
refusal_precedence =
    administrative_state_unavailable ∷ enforcement_state_unavailable ∷ agent_disabled
    ∷ agent_not_active ∷ agent_suspended ∷ []

-- `_ADMINISTRATIVE_REFUSALS.get(state)`
abbrev pub administrative_refusals : AdministrativeLifecycleState → Option LifecycleRefusalCode
administrative_refusals registered = some agent_not_active
administrative_refusals disabled = some agent_disabled
administrative_refusals active = none

abbrev pub is_active : AdministrativeLifecycleState → Bool
is_active active = true
is_active _ = false

abbrev administrative_condition : AdministrativeLifecycleState → List LifecycleRefusalCode
administrative_condition state = elim (administrative_refusals state) [
  | some refusal ↦ refusal ∷ []
  | none ↦ if is_active state then [] else agent_not_active ∷ []
]

administrative_conditions : Option AgentAdministrativeState → Bool → List LifecycleRefusalCode
administrative_conditions none available = administrative_state_unavailable ∷ []
administrative_conditions (some a) available =
    if not available
    then administrative_state_unavailable ∷ []
    else administrative_condition a.state

enforcement_conditions : Option AgentEnforcementState → Bool → List LifecycleRefusalCode
enforcement_conditions none available =
    if not available then enforcement_state_unavailable ∷ [] else []
enforcement_conditions (some e) available =
    if not available
    then enforcement_state_unavailable ∷ []
    else if is_some e.suspended_at
    then agent_suspended ∷ []
    else []

unfoldable pub failing_lifecycle_conditions :
    Option AgentAdministrativeState
    → Bool
    → Option AgentEnforcementState
    → Bool
    → List LifecycleRefusalCode
unfolding administrative_conditions enforcement_conditions
failing_lifecycle_conditions administrative administrative_available enforcement available =
    administrative_conditions administrative administrative_available
    ++ enforcement_conditions enforcement available

-- `for code in REFUSAL_PRECEDENCE: if code in failing: return code`
first_present : List LifecycleRefusalCode → List LifecycleRefusalCode → Option LifecycleRefusalCode
first_present [] failing = none
first_present (code ∷ codes) failing =
    let rest = first_present codes failing in if code_in code failing then some code else rest

-- a code that the precedence does not list would be refused as not active
or_not_active : Option LifecycleRefusalCode → Option LifecycleRefusalCode
or_not_active none = some agent_not_active
or_not_active (some code) = some code

abbrev is_nil : List LifecycleRefusalCode → Bool
is_nil [] = true
is_nil (_ ∷ _) = false

unfoldable pub evaluate_lifecycle_authorization :
    Option AgentAdministrativeState
    → Bool
    → Option AgentEnforcementState
    → Bool
    → Option LifecycleRefusalCode
unfolding failing_lifecycle_conditions first_present or_not_active
evaluate_lifecycle_authorization administrative administrative_available enforcement available =
    let failing =
      failing_lifecycle_conditions administrative administrative_available enforcement available in
    if is_nil failing then none else or_not_active (first_present refusal_precedence failing)
