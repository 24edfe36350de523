-- ===== src/Administrative/Graph.antt =====
-- app/models/agent_administrative.py: the legal administrative transitions, as a graph.
use enterprise_agent_securit.Prelude.{ℕ, ◌<◌, ◌≡◌, true, Option, none, some, arith, is_some}
use enterprise_agent_securit.Administrative.{
  AdministrativeLifecycleState, registered, active, disabled, is_legal_administrative_transition,
  administrative_transition_actions,
}

-- The transition table and the action table agree: a transition is legal exactly when the ledger
-- has an action to record it under.
pub legal-eq-has_action :
    (previous : Option AdministrativeLifecycleState) (new : AdministrativeLifecycleState)
    → is_legal_administrative_transition previous new
      ≡ is_some (administrative_transition_actions previous new)
unfolding is_legal_administrative_transition administrative_transition_actions
legal-eq-has_action previous new = ground arith

-- how far along the life cycle a state is; legal transitions only go forward
abbrev pub rank : Option AdministrativeLifecycleState → ℕ
rank none = 0
rank (some registered) = 1
rank (some active) = 2
rank (some disabled) = 3

-- A legal administrative transition goes strictly forward in the order none, REGISTERED, ACTIVE,
-- DISABLED.
pub legal-rank :
    (previous : Option AdministrativeLifecycleState) (new : AdministrativeLifecycleState)
    → is_legal_administrative_transition previous new ≡ true
    → rank previous < rank (some new)
unfolding is_legal_administrative_transition
legal-rank previous new h = ground arith
