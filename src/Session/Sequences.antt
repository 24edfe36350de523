-- ===== src/Session/Sequences.antt =====
-- app/repositories/in_memory/session_repository.py: the two positions that every recorded event gets,
-- in its session and in the history of its agent.
use enterprise_agent_securit.Prelude.{
  ℕ, String, ◌≡◌, ◌≢◌, ◌⊎◌, ◌≤◌, ◌<◌, ◌+◌, sym, ap, ◌∙◌, List, Result, ok, err, Bool-cases, inl,
  inr, arith, All, eq_iff, ◌==◌, false≢true,
}
use mathlib.Core.Path.{subst}
use enterprise_agent_securit.Lists.{weaken}
use enterprise_agent_securit.Dict
use enterprise_agent_securit.Dict.{get-put, get-put_self}
use enterprise_agent_securit.Session.{SessionEvent, SessionError}
use enterprise_agent_securit.Session.Repository.{
  SessionRepository, record_event, append_event, empty_repository, or_zero,
  current_session_sequence, current_agent_sequence,
}
use enterprise_agent_securit.Session.Operations.{Operation, run_all}
use enterprise_agent_securit.Session.Recording.{record_event_cases}
use enterprise_agent_securit.Session.Counters.{Within, Advances}
use enterprise_agent_securit.Session.Advancing.{run_all-Advances}

-- The event was recorded before `r`: where they are of one session, and where they are of one agent,
-- its position there is the smaller one.
abbrev pub Earlier : SessionEvent → SessionEvent → Type 0
Earlier r g =
    ((g.session_id ≢ r.session_id) ⊎ (g.sequence_number < r.sequence_number))
    × ((g.agent_id ≢ r.agent_id) ⊎ (g.agent_sequence < r.agent_sequence))

below_next :
    (i j : String) (n : ℕ) (d d1 : Dict.Dict ℕ)
    → n ≤ or_zero (Dict.get i d)
    → or_zero (Dict.get i d) ≤ or_zero (Dict.get i d1)
    → (i ≢ j) ⊎ (n < or_zero (Dict.get j d1) + 1)
below_next i j n d d1 h k = elim (Bool-cases (i == j)) [
  | inl e ↦
      inr (subst (λ l. n < or_zero (Dict.get l d1) + 1) ((eq_iff i j).0 e) (omega (arith, h, k)))
  | inr e ↦ inl (λ same. false≢true (sym e ∙ (eq_iff i j).1 same))
]

-- the event of a call that did not raise
value_or : SessionEvent → Result SessionError SessionEvent → SessionEvent
value_or default (ok e) = e
value_or default (err x) = default

later_positions :
    (e r : SessionEvent) (s s1 : SessionRepository)
    → Advances s s1
    → All (Within s.session_sequences s.agent_sequences) s.events
    → (record_event e s1).0 ≡ ok r
    → All (Earlier r) s.events
unfolding append_event current_session_sequence current_agent_sequence value_or
later_positions e r s s1 k w recorded =
    record_event_cases (λ q. q.0 ≡ ok r → All (Earlier r) s.events) e s1 (λ x. ground arith)
      (λ x fresh active same h.
        subst (λ z. All (Earlier z) s.events) (ap (value_or r) h)
          (weaken _ (Earlier (append_event e x s1).0) s.events
            (λ g v. (
              below_next g.session_id e.session_id g.sequence_number s.session_sequences
                  s1.session_sequences v.1 (k.sessions g.session_id),
              below_next g.agent_id e.agent_id g.agent_sequence s.agent_sequences s1.agent_sequences
                  v.3 (k.agents g.agent_id),
            ))
            w))
      recorded

-- Positions are never used twice, also when events were pruned: the positions that a new event gets in
-- its session and with its agent are greater than those of every event that was recorded in the
-- session or with the agent at any time before.
pub positions_are_new :
    (before after : List Operation) (e r : SessionEvent)
    → (record_event e (run_all after (run_all before empty_repository))).0 ≡ ok r
    → All (Earlier r) (run_all before empty_repository).events
unfolding empty_repository
positions_are_new before after e r recorded =
    later_positions e r (run_all before empty_repository)
      (run_all after (run_all before empty_repository))
      (run_all-Advances after (run_all before empty_repository))
      ((run_all-Advances before empty_repository).events tt) recorded
