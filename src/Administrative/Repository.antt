-- ===== src/Administrative/Repository.antt =====
-- app/repositories/in_memory/administrative_state_repository.py: the administrative states and the
-- append-only ledger. Every method runs under the repository's lock, so a call is one step. The
-- agent repository that a registration composes with is an argument.
use enterprise_agent_securit.Prelude.{
  ℕ, String, ◌+◌, Bool, true, false, not, ◌&&◌, Option, none, some, List, [], ◌∷◌, ◌++◌, Result, ok,
  err, nat_eq, if◌then◌else◌, is_some,
}
use enterprise_agent_securit.Dict
use enterprise_agent_securit.Dict.{Dict}
use enterprise_agent_securit.Agent.{Agent, save}
use enterprise_agent_securit.Administrative.{
  AdministrativeLifecycleState, AdministrativeTransition, AgentAdministrativeState, opt_state_eq,
  state_eq, is_legal_administrative_transition,
}

pub data AdministrativeError : Type 0 where
  administrative_state_unavailable : AdministrativeError
  agent_already_registered : AdministrativeError
  administrative_transition_invariant : AdministrativeError

pub record Repository : Type 0 where
  pub states : Dict AgentAdministrativeState
  pub transitions : List AdministrativeTransition

abbrev pub empty : Repository
empty = record { states = []; transitions = [] }

abbrev pub get_state : String → Repository → Option AgentAdministrativeState
get_state agent_id r = Dict.get agent_id r.states

abbrev pub version_of : Option AgentAdministrativeState → ℕ
version_of none = 0
version_of (some s) = s.administrative_version

abbrev pub state_of : Option AgentAdministrativeState → Option AdministrativeLifecycleState
state_of none = none
state_of (some s) = some s.state

-- the ledger entry names the endpoints of the transition that is being committed
unfoldable pub describes :
    AdministrativeTransition
    → Option AdministrativeLifecycleState
    → ℕ
    → AgentAdministrativeState
    → Bool
describes t previous_state current_version new_state =
    opt_state_eq t.previous_state previous_state
    && state_eq t.new_state new_state.state
    && nat_eq t.administrative_version_before current_version
    && nat_eq t.administrative_version_after new_state.administrative_version

-- the state is written and the ledger entry appended
unfoldable pub commit :
    String → AdministrativeTransition → AgentAdministrativeState → Repository → Repository
commit agent_id t s r = record {
  states = Dict.put agent_id s r.states;
  transitions = r.transitions ++ t ∷ [];
}

unfoldable pub record_transition :
    AdministrativeTransition
    → AgentAdministrativeState
    → ℕ
    → Repository
    → Result AdministrativeError Bool × Repository
unfolding commit describes
record_transition t new_state expected_version r =
    let persisted = Dict.get t.agent_id r.states in
    let current_version = version_of persisted in
    let previous_state = state_of persisted in
    if not (nat_eq current_version expected_version)
    then (ok false, r)
    else if not (nat_eq new_state.administrative_version (expected_version + 1))
    then (err administrative_transition_invariant, r)
    else if not (is_legal_administrative_transition previous_state new_state.state)
    then (err administrative_transition_invariant, r)
    else if not (describes t previous_state current_version new_state)
    then (err administrative_transition_invariant, r)
    else (ok true, commit t.agent_id t new_state r)

-- The agents are saved, and the state and the ledger entry written, together or not at all.
unfoldable pub commit_registration :
    Option (Dict Agent)
    → Agent
    → AdministrativeTransition
    → AgentAdministrativeState
    → Repository
    → Result AdministrativeError (Dict Agent × Repository)
unfolding save commit
commit_registration none agent t new_state r = err administrative_state_unavailable
commit_registration (some agents) agent t new_state r =
    if is_some (Dict.get agent.agent_id agents)
    then err agent_already_registered
    else if not (is_legal_administrative_transition none new_state.state)
    then err administrative_transition_invariant
    else if not (nat_eq new_state.administrative_version 1)
    then err administrative_transition_invariant
    else ok (save agent agents, commit agent.agent_id t new_state r)
