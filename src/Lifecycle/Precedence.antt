-- ===== src/Lifecycle/Precedence.antt =====
-- app/policy/lifecycle_authorization.py: which agents may execute, and which refusal is surfaced.
use enterprise_agent_securit.Prelude.{ℕ, ◌≤◌, ◌≡◌, ◌↔◌, Bool, true, Option, none, some, arith}
use enterprise_agent_securit.Administrative.{active, AgentAdministrativeState}
use enterprise_agent_securit.Enforcement.{AgentEnforcementState}
use enterprise_agent_securit.Lifecycle.{
  LifecycleRefusalCode, administrative_state_unavailable, enforcement_state_unavailable,
  agent_disabled, agent_not_active, agent_suspended, code_in, failing_lifecycle_conditions,
  evaluate_lifecycle_authorization,
}

-- both planes are read, the agent is active, and it is not suspended
abbrev pub MayExecute :
    Option AgentAdministrativeState → Bool → Option AgentEnforcementState → Bool → Type 0
MayExecute none administrative_available e available = ⊥
MayExecute (some a) administrative_available none available =
    (administrative_available ≡ true) × (a.state ≡ active) × (available ≡ true)
MayExecute (some a) administrative_available (some e) available =
    (administrative_available ≡ true)
    × (a.state ≡ active)
    × (available ≡ true)
    × (e.suspended_at ≡ none)

-- Execution is permitted, that is, no refusal code is returned, exactly when the administrative
-- record was read and is ACTIVE and the enforcement plane was read and shows no suspension.
pub permitted_iff :
    (a : Option AgentAdministrativeState) (administrative_available : Bool)
    (e : Option AgentEnforcementState) (available : Bool)
    → (evaluate_lifecycle_authorization a administrative_available e available ≡ none)
      ↔ MayExecute a administrative_available e available
unfolding evaluate_lifecycle_authorization
permitted_iff none aa e ea = ground arith
permitted_iff (some a) aa none ea = ground arith
permitted_iff (some a) aa (some e) ea = ground arith

-- the place of a code in ADR-030 L.10, the most significant first
abbrev pub significance : LifecycleRefusalCode → ℕ
significance administrative_state_unavailable = 0
significance enforcement_state_unavailable = 1
significance agent_disabled = 2
significance agent_not_active = 3
significance agent_suspended = 4

-- The code that is surfaced is one of the failing conditions, and no failing condition is more
-- significant.
pub most_significant :
    (a : Option AgentAdministrativeState) (administrative_available : Bool)
    (e : Option AgentEnforcementState) (available : Bool) (code other : LifecycleRefusalCode)
    → evaluate_lifecycle_authorization a administrative_available e available ≡ some code
    → code_in other (failing_lifecycle_conditions a administrative_available e available) ≡ true
    → (code_in code (failing_lifecycle_conditions a administrative_available e available) ≡ true)
      × (significance code ≤ significance other)
unfolding evaluate_lifecycle_authorization
most_significant none aa e ea code other h m = ground arith
most_significant (some a) aa e ea code other h m = ground arith
