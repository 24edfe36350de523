-- ===== src/Administrative/Ledger.antt =====
-- app/models/agent_administrative.py: the ledger as evidence: replayed from the start it gives the administrative state and version of
-- every agent, each entry taken only if it continues what the entries before it left.
use enterprise_agent_securit.Prelude.{
  ℕ, String, ◌+◌, ◌≡◌, ◌≢◌, refl, Bool, true, ◌&&◌, Option, none, some, List, [], ◌∷◌, ◌++◌, arith,
  eq_iff, ◌==◌, nat_eq, if◌then◌else◌,
}
use enterprise_agent_securit.Dict.{get-empty, get-put}
use enterprise_agent_securit.Administrative.{
  AdministrativeLifecycleState, AdministrativeTransition, AgentAdministrativeState, opt_state_eq,
  is_legal_administrative_transition,
}
use enterprise_agent_securit.Administrative.Repository.{
  Repository, empty, record_transition, commit, get_state, version_of, state_of,
}

-- what the entries of one agent amount to so far
pub data Standing : Type 0 where
  broken : Standing
  stands : Option AdministrativeLifecycleState → ℕ → Standing

-- an entry continues a standing, by a legal transition that advances the version by one
abbrev continues : Option AdministrativeLifecycleState → ℕ → AdministrativeTransition → Bool
continues state version t =
    opt_state_eq t.previous_state state
    && nat_eq t.administrative_version_before version
    && nat_eq t.administrative_version_after (version + 1)
    && is_legal_administrative_transition state t.new_state

abbrev extend : Standing → AdministrativeTransition → Standing
extend broken t = broken
extend (stands state version) t =
    if continues state version t
    then stands (some t.new_state) t.administrative_version_after
    else broken

replay_from : String → Standing → List AdministrativeTransition → Standing
replay_from agent_id l [] = l
replay_from agent_id l (t ∷ ts) =
    replay_from agent_id (if t.agent_id == agent_id then extend l t else l) ts

pub replay : String → List AdministrativeTransition → Standing
unfolding replay_from
replay agent_id ts = replay_from agent_id (stands none 0) ts

replay_from-append :
    (agent_id : String) (l : Standing) (ts : List AdministrativeTransition)
    (t : AdministrativeTransition)
    → replay_from agent_id l (ts ++ t ∷ []) ≡ (
        if t.agent_id == agent_id
        then extend (replay_from agent_id l ts) t
        else replay_from agent_id l ts)
unfolding replay_from
replay_from-append agent_id l [] t = refl
replay_from-append agent_id l (u ∷ ts) t =
    replay_from-append agent_id (if u.agent_id == agent_id then extend l u else l) ts t

replay-append :
    (agent_id : String) (ts : List AdministrativeTransition) (t : AdministrativeTransition)
    → replay agent_id (ts ++ t ∷ [])
      ≡ (if t.agent_id == agent_id then extend (replay agent_id ts) t else replay agent_id ts)
unfolding replay
replay-append agent_id ts t = replay_from-append agent_id (stands none 0) ts t

abbrev pub recorded : Option AgentAdministrativeState → Standing
recorded a = stands (state_of a) (version_of a)

-- the ledger of each agent replays to its record
abbrev pub LedgerReplays : Repository → Type 0
LedgerReplays r =
    (agent_id : String) → replay agent_id r.transitions ≡ recorded (get_state agent_id r)

-- Every call of `record_transition`, with any arguments and any outcome, keeps a repository whose
-- ledger replays, for every agent and without a broken entry, to the recorded state and version.
pub record_transition-LedgerReplays :
    (t : AdministrativeTransition) (s : AgentAdministrativeState) (e : ℕ) (r : Repository)
    → LedgerReplays r
    → LedgerReplays (record_transition t s e r).1
unfolding record_transition
record_transition-LedgerReplays t s e r h j = ground (
  arith,
  h j,
  replay-append j r.transitions t,
  get-put t.agent_id j s r.states,
  eq_iff t.agent_id j,
)

-- A first entry keeps the property for an agent with no record, if it describes the record.
pub commit-LedgerReplays :
    (agent_id : String) (t : AdministrativeTransition) (s : AgentAdministrativeState)
    (r : Repository)
    → LedgerReplays r
    → get_state agent_id r ≡ none
    → t.agent_id ≡ agent_id
    → t.previous_state ≡ none
    → is_legal_administrative_transition none t.new_state ≡ true
    → t.new_state ≡ s.state
    → t.administrative_version_before ≡ 0
    → t.administrative_version_after ≡ 1
    → s.administrative_version ≡ 1
    → LedgerReplays (commit agent_id t s r)
unfolding commit
commit-LedgerReplays agent_id t s r h fresh id prev legal new before after version j = ground (
  arith,
  h j,
  replay-append j r.transitions t,
  get-put agent_id j s r.states,
  eq_iff agent_id j,
  eq_iff t.agent_id j,
)

-- a call touches the record of its own agent alone
pub get_state-record_transition_ne :
    (t : AdministrativeTransition) (s : AgentAdministrativeState) (e : ℕ) (r : Repository)
    (j : String)
    → j ≢ t.agent_id
    → get_state j (record_transition t s e r).1 ≡ get_state j r
unfolding record_transition
get_state-record_transition_ne t s e r j h =
    ground (arith, get-put t.agent_id j s r.states, eq_iff t.agent_id j)

pub LedgerReplays-empty : LedgerReplays empty
unfolding replay
LedgerReplays-empty j = rw get-empty
