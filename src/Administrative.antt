-- ===== src/Administrative.antt =====
-- app/models/agent_administrative.py: the administrative lifecycle of an agent, its legal
-- transitions, and the records of the state and of the ledger. A `datetime` is a number of
-- microseconds, and `None` before registration is `none`.
pub mod Repository
pub mod Graph
pub mod Ledger
use enterprise_agent_securit.Prelude.{
  ℕ, String, Bool, true, false, Option, none, some, List, [], ◌∷◌,
}

-- `REGISTERED`, `ACTIVE`, `DISABLED`
pub data AdministrativeLifecycleState : Type 0 where
  registered active disabled : AdministrativeLifecycleState

pub data AdministrativeAction : Type 0 where
  register activate disable : AdministrativeAction

pub data ActorType : Type 0 where
  human system runtime : ActorType

pub record Actor : Type 0 where
  pub type : ActorType
  pub id : String

abbrev pub state_eq : AdministrativeLifecycleState → AdministrativeLifecycleState → Bool
state_eq registered registered = true
state_eq active active = true
state_eq disabled disabled = true
state_eq _ _ = false

abbrev pub opt_state_eq :
    Option AdministrativeLifecycleState → Option AdministrativeLifecycleState → Bool
opt_state_eq none none = true
opt_state_eq (some a) (some b) = state_eq a b
opt_state_eq _ _ = false

-- `LEGAL_ADMINISTRATIVE_TRANSITIONS.get(previous, frozenset())`
unfoldable pub legal_administrative_transitions :
    Option AdministrativeLifecycleState → List AdministrativeLifecycleState
legal_administrative_transitions none = registered ∷ []
legal_administrative_transitions (some registered) = active ∷ disabled ∷ []
legal_administrative_transitions (some active) = disabled ∷ []
legal_administrative_transitions (some disabled) = []

abbrev pub state_in : AdministrativeLifecycleState → List AdministrativeLifecycleState → Bool
state_in s [] = false
state_in s (t ∷ ts) = elim (state_eq s t) [ true ↦ true | false ↦ state_in s ts ]

unfoldable pub is_legal_administrative_transition :
    Option AdministrativeLifecycleState → AdministrativeLifecycleState → Bool
unfolding legal_administrative_transitions
is_legal_administrative_transition previous new =
    state_in new (legal_administrative_transitions previous)

-- `ADMINISTRATIVE_TRANSITION_ACTIONS[(previous, new)]`; `none` is Python's `KeyError`
unfoldable pub administrative_transition_actions :
    Option AdministrativeLifecycleState → AdministrativeLifecycleState → Option AdministrativeAction
administrative_transition_actions none registered = some register
administrative_transition_actions (some registered) active = some activate
administrative_transition_actions (some registered) disabled = some disable
administrative_transition_actions (some active) disabled = some disable
administrative_transition_actions _ _ = none

pub record AdministrativeTransition : Type 0 where
  pub transition_id : String
  pub agent_id : String
  pub action : AdministrativeAction
  pub actor : Actor
  pub reason : String
  pub previous_state : Option AdministrativeLifecycleState
  pub new_state : AdministrativeLifecycleState
  pub administrative_version_before : ℕ
  pub administrative_version_after : ℕ
  pub correlation_id : String
  pub occurred_at : ℕ

pub record AgentAdministrativeState : Type 0 where
  pub agent_id : String
  pub state : AdministrativeLifecycleState
  pub administrative_version : ℕ
  pub last_transition_at : Option ℕ
