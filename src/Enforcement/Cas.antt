-- ===== src/Enforcement/Cas.antt =====
-- app/repositories/in_memory/enforcement_state_repository.py: `record_transition` as a compare-and-set
-- on the epoch, over one call and over any sequence of calls.
use enterprise_agent_securit.Prelude.{
  ℕ, String, ◌+◌, ◌≤◌, ◌≡◌, ◌≢◌, Bool, true, false, some, [], ◌∷◌, ◌++◌, Result, ok, arith, eq_iff,
  eq_refl,
}
use enterprise_agent_securit.Dict.{get-put}
use enterprise_agent_securit.Enforcement.{EnforcementTransition, AgentEnforcementState}
use enterprise_agent_securit.Enforcement.Repository.{
  Repository, EnforcementError, record_transition, get_state, current_epoch, current_generation,
}

-- What a call has done, by its result.
abbrev pub Outcome :
    EnforcementTransition
    → AgentEnforcementState
    → ℕ
    → Repository
    → Result EnforcementError Bool
    → Repository
    → Type 0
Outcome t s e r (ok true) r' =
    (current_epoch t.agent_id r ≡ e)
    × (s.epoch ≡ e + 1)
    × (current_generation t.agent_id r ≤ s.recovery_generation)
    × (s.recovery_generation ≤ current_generation t.agent_id r + 1)
    × (get_state t.agent_id r' ≡ some s)
    × (r'.transitions ≡ r.transitions ++ t ∷ [])
Outcome t s e r _ r' = r' ≡ r

pub record_transition-Outcome :
    (t : EnforcementTransition) (s : AgentEnforcementState) (e : ℕ) (r : Repository)
    → Outcome t s e r (record_transition t s e r).0 (record_transition t s e r).1
unfolding record_transition
record_transition-Outcome t s e r =
    ground (arith, get-put t.agent_id t.agent_id s r.states, eq_refl t.agent_id)

-- the other agents keep their states
pub get_state-record_transition_ne :
    (t : EnforcementTransition) (s : AgentEnforcementState) (e : ℕ) (r : Repository) (j : String)
    → j ≢ t.agent_id
    → get_state j (record_transition t s e r).1 ≡ get_state j r
unfolding record_transition
get_state-record_transition_ne t s e r j h =
    ground (arith, get-put t.agent_id j s r.states, eq_iff t.agent_id j)

-- how one call moves the epoch of an agent
pub current_epoch-record_transition :
    (t : EnforcementTransition) (s : AgentEnforcementState) (e : ℕ) (r : Repository) (j : String)
    → current_epoch j r ≤ current_epoch j (record_transition t s e r).1
unfolding record_transition current_epoch
current_epoch-record_transition t s e r j = ground (
  arith,
  get-put t.agent_id j s r.states,
  get-put t.agent_id j (e + 1) r.epochs,
  eq_iff t.agent_id j,
)

pub current_epoch-committed :
    (t : EnforcementTransition) (s : AgentEnforcementState) (e : ℕ) (r : Repository)
    → (record_transition t s e r).0 ≡ ok true
    → current_epoch t.agent_id (record_transition t s e r).1 ≡ e + 1
unfolding record_transition current_epoch
current_epoch-committed t s e r h =
    ground (arith, get-put t.agent_id t.agent_id s r.states, eq_refl t.agent_id)

-- Any caller's calls, one after another.
infix 40 ◌⟶*◌
pub data ◌⟶*◌ (r : Repository) : Repository → Type 0 where
  here : r ⟶* r
  call :
      {r' : Repository} (t : EnforcementTransition) (s : AgentEnforcementState) (e : ℕ)
      → r ⟶* r'
      → r ⟶* (record_transition t s e r').1

-- no sequence of calls moves an epoch back
⟶*-epoch : {r r' : Repository} → r ⟶* r' → (j : String) → current_epoch j r ≤ current_epoch j r'
⟶*-epoch here j = omega arith
⟶*-epoch (call {r' = m} t s e steps) j =
    omega (arith, ⟶*-epoch steps j, current_epoch-record_transition t s e m j)

epoch_mismatch_refused :
    (u : EnforcementTransition) (v : AgentEnforcementState) (k : ℕ) (r : Repository)
    → current_epoch u.agent_id r ≢ k
    → record_transition u v k r ≡ (ok false, r)
unfolding record_transition
epoch_mismatch_refused u v k r h = ground arith

-- After a call that commits at an expected epoch, and after any further calls of any callers, a
-- call for the same agent that still expects that epoch, or an earlier one, is refused: it returns
-- False and changes nothing.
pub stale_epoch_refused :
    (t u : EnforcementTransition) (s v : AgentEnforcementState) (e k : ℕ) (r r' : Repository)
    → (record_transition t s e r).0 ≡ ok true
    → (record_transition t s e r).1 ⟶* r'
    → u.agent_id ≡ t.agent_id
    → k ≤ e
    → record_transition u v k r' ≡ (ok false, r')
stale_epoch_refused t u s v e k r r' h steps same le =
    epoch_mismatch_refused u v k r'
      (rw same (omega (arith, current_epoch-committed t s e r h, ⟶*-epoch steps t.agent_id)))

-- The recovery generation of an agent never falls, whoever calls.
generation-record_transition :
    (t : EnforcementTransition) (s : AgentEnforcementState) (e : ℕ) (r : Repository) (j : String)
    → current_generation j r ≤ current_generation j (record_transition t s e r).1
unfolding record_transition current_generation
generation-record_transition t s e r j =
    ground (arith, get-put t.agent_id j s r.states, eq_iff t.agent_id j)

-- A committed recovery generation is never lost: whatever calls follow, of whatever callers, the
-- recovery generation of an agent does not fall, and neither does its epoch.
pub generation_and_epoch_monotone :
    {r r' : Repository} (j : String)
    → r ⟶* r'
    → (current_generation j r ≤ current_generation j r') × (current_epoch j r ≤ current_epoch j r')
generation_and_epoch_monotone j steps = (go steps, ⟶*-epoch steps j)
  where
    go : {r r' : Repository} → r ⟶* r' → current_generation j r ≤ current_generation j r'
    go here = omega arith
    go (call {r' = m} t s e steps) = omega (arith, go steps, generation-record_transition t s e m j)
