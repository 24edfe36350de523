-- ===== src/AgentService/Posture.antt =====
-- app/models/agent_enforcement.py: the enforcement history as evidence: what the entries of one agent amount to, an entry taken
-- only if it alternates with the entry before it.
use enterprise_agent_securit.Prelude.{
  ℕ, String, ◌+◌, ◌≡◌, refl, Bool, true, false, Option, none, some, List, [], ◌∷◌, ◌++◌, ◌==◌,
  arith, eq_iff, is_some, if◌then◌else◌,
}
use enterprise_agent_securit.Dict
use enterprise_agent_securit.Dict.{get-put}
use enterprise_agent_securit.Enforcement.Repository.{
  Repository, record_transition, get_state, or_zero,
}
use enterprise_agent_securit.Enforcement.{
  EnforcementTransition, EnforcementAction, suspend, reinstate, AgentEnforcementState,
}

-- the epoch, the recovery generation, and whether the agent is suspended
pub data Posture : Type 0 where
  broken : Posture
  posture : ℕ → ℕ → Bool → Posture

-- a suspension of an agent that is not suspended, or a reinstatement of one that is
abbrev pub follow : EnforcementAction → Posture → Posture
follow a broken = broken
follow suspend (posture epoch generation true) = broken
follow suspend (posture epoch generation false) = posture (epoch + 1) generation true
follow reinstate (posture epoch generation true) = posture (epoch + 1) (generation + 1) false
follow reinstate (posture epoch generation false) = broken

tally_from : String → Posture → List EnforcementTransition → Posture
tally_from agent_id p [] = p
tally_from agent_id p (t ∷ ts) =
    tally_from agent_id (if t.agent_id == agent_id then follow t.action p else p) ts

pub tally : String → List EnforcementTransition → Posture
unfolding tally_from
tally agent_id ts = tally_from agent_id (posture 0 0 false) ts

tally_from-append :
    (agent_id : String) (p : Posture) (ts : List EnforcementTransition) (t : EnforcementTransition)
    → tally_from agent_id p (ts ++ t ∷ []) ≡ (
        if t.agent_id == agent_id
        then follow t.action (tally_from agent_id p ts)
        else tally_from agent_id p ts)
unfolding tally_from
tally_from-append agent_id p [] t = refl
tally_from-append agent_id p (u ∷ ts) t =
    tally_from-append agent_id (if u.agent_id == agent_id then follow u.action p else p) ts t

pub tally-append :
    (agent_id : String) (ts : List EnforcementTransition) (t : EnforcementTransition)
    → tally agent_id (ts ++ t ∷ [])
      ≡ (if t.agent_id == agent_id then follow t.action (tally agent_id ts) else tally agent_id ts)
unfolding tally
tally-append agent_id ts t = tally_from-append agent_id (posture 0 0 false) ts t

-- the posture that a stored state shows
abbrev pub shown : Option AgentEnforcementState → Posture
shown none = posture 0 0 false
shown (some e) = posture e.epoch e.recovery_generation (is_some e.suspended_at)

-- A call of `record_transition` keeps the tally of every agent, if the state that it offers is the
-- one that its entry leads to.
pub record_transition-tally :
    (t : EnforcementTransition) (s : AgentEnforcementState) (e : ℕ) (r : Repository) (j : String)
    → tally j r.transitions ≡ shown (get_state j r)
    → follow t.action (shown (get_state t.agent_id r)) ≡ shown (some s)
    → tally j (record_transition t s e r).1.transitions
      ≡ shown (get_state j (record_transition t s e r).1)
unfolding record_transition
record_transition-tally t s e r j h leads =
    ground
      (arith, tally-append j r.transitions t, get-put t.agent_id j s r.states, eq_iff t.agent_id j)

-- no call leaves an agent without a state and with a counted epoch
pub record_transition-epochs :
    (t : EnforcementTransition) (s : AgentEnforcementState) (e : ℕ) (r : Repository) (j : String)
    → (get_state j r ≡ none → or_zero (Dict.get j r.epochs) ≡ 0)
    → get_state j (record_transition t s e r).1 ≡ none
    → or_zero (Dict.get j (record_transition t s e r).1.epochs) ≡ 0
unfolding record_transition
record_transition-epochs t s e r j h n = ground (
  arith,
  get-put t.agent_id j s r.states,
  get-put t.agent_id j (e + 1) r.epochs,
  eq_iff t.agent_id j,
)

pub tally-empty : (j : String) → tally j [] ≡ shown none
unfolding tally
tally-empty j = refl
