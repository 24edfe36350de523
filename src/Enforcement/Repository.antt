-- ===== src/Enforcement/Repository.antt =====
-- app/repositories/in_memory/enforcement_state_repository.py: the enforcement states, the epochs and
-- the append-only history, changed by compare-and-set. A call runs under the repository's lock and
-- is one step.
use enterprise_agent_securit.Prelude.{
  ℕ, String, ◌+◌, Bool, true, false, not, ◌&&◌, ◌||◌, Option, none, some, List, [], ◌∷◌, ◌++◌,
  Result, ok, err, nat_eq, leb, if◌then◌else◌, ◌==◌, count,
}
use enterprise_agent_securit.Dict
use enterprise_agent_securit.Dict.{Dict}
use enterprise_agent_securit.Enforcement.{
  EnforcementAction, suspend, reinstate, EnforcementTransition, AgentEnforcementState,
}

-- `EnforcementStateUnavailableError`
pub data EnforcementError : Type 0 where
  enforcement_state_unavailable : EnforcementError

pub record Repository : Type 0 where
  pub states : Dict AgentEnforcementState
  pub transitions : List EnforcementTransition
  pub epochs : Dict ℕ

abbrev pub empty : Repository
empty = record { states = []; transitions = []; epochs = [] }

abbrev pub get_state : String → Repository → Option AgentEnforcementState
get_state agent_id r = Dict.get agent_id r.states

abbrev pub or_zero : Option ℕ → ℕ
or_zero none = 0
or_zero (some n) = n

abbrev pub epoch_of : Option AgentEnforcementState → Option ℕ → ℕ
epoch_of (some s) e = s.epoch
epoch_of none e = or_zero e

abbrev pub generation_of : Option AgentEnforcementState → ℕ
generation_of (some s) = s.recovery_generation
generation_of none = 0

-- `persisted_state.epoch`, or the epoch counter where no state is persisted
unfoldable pub current_epoch : String → Repository → ℕ
current_epoch agent_id r = epoch_of (Dict.get agent_id r.states) (Dict.get agent_id r.epochs)

unfoldable pub current_generation : String → Repository → ℕ
current_generation agent_id r = generation_of (Dict.get agent_id r.states)

unfoldable pub record_transition :
    EnforcementTransition
    → AgentEnforcementState
    → ℕ
    → Repository
    → Result EnforcementError Bool × Repository
unfolding current_epoch current_generation
record_transition t new_state expected_epoch r =
    let generation = current_generation t.agent_id r in
    if not (nat_eq (current_epoch t.agent_id r) expected_epoch)
      || not (nat_eq new_state.epoch (expected_epoch + 1))
    then (ok false, r)
    else if not (
        nat_eq new_state.recovery_generation generation
        || nat_eq new_state.recovery_generation (generation + 1))
    then (err enforcement_state_unavailable, r)
    else (
      ok true,
      record {
        states = Dict.put t.agent_id new_state r.states;
        transitions = r.transitions ++ t ∷ [];
        epochs = Dict.put t.agent_id (expected_epoch + 1) r.epochs;
      },
    )

abbrev pub is_reinstate : EnforcementAction → Bool
is_reinstate reinstate = true
is_reinstate suspend = false

-- how many reinstatements of the agent had occurred by `as_of`
unfoldable pub get_epoch : String → ℕ → Repository → ℕ
get_epoch agent_id as_of r =
    count (λ t. t.agent_id == agent_id && is_reinstate t.action && leb t.occurred_at as_of)
      r.transitions
