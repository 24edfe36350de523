-- ===== src/Session/Counters.antt =====
-- app/repositories/in_memory/session_repository.py: the counters that positions are taken from.
use enterprise_agent_securit.Prelude.{
  ℕ, String, ◌≡◌, ◌≤◌, ◌+◌, refl, ◌&&◌, Option, some, List, [], ◌∷◌, Result, ok, err, Bool-cases,
  inl, inr, arith, if◌then◌else◌, nat_eq, All, eq_iff, ◌==◌,
}
use enterprise_agent_securit.Lists.{append_one, weaken}
use enterprise_agent_securit.Dict
use enterprise_agent_securit.Dict.{get-put, get-put_self}
use enterprise_agent_securit.Authority.{Decision}
use enterprise_agent_securit.Session.{Session, SessionEvent, SessionError}
use enterprise_agent_securit.Session.Repository.{
  SessionRepository, append_event, finalize_in, may_become, or_zero, current_session_sequence,
  current_agent_sequence,
}

-- the positions of an event are at least 1 and not after what the counters have reached
abbrev pub Within : Dict.Dict ℕ → Dict.Dict ℕ → SessionEvent → Type 0
Within sessions agents e =
    (1 ≤ e.sequence_number)
    × (e.sequence_number ≤ or_zero (Dict.get e.session_id sessions))
    × (1 ≤ e.agent_sequence)
    × (e.agent_sequence ≤ or_zero (Dict.get e.agent_id agents))

-- no counter goes back
pub record Advances (s after : SessionRepository) : Type 0 where
  pub sessions :
      (i : String)
      → or_zero (Dict.get i s.session_sequences) ≤ or_zero (Dict.get i after.session_sequences)
  pub agents :
      (a : String)
      → or_zero (Dict.get a s.agent_sequences) ≤ or_zero (Dict.get a after.agent_sequences)
  pub events :
      All (Within s.session_sequences s.agent_sequences) s.events
      → All (Within after.session_sequences after.agent_sequences) after.events

pub Advances-trans : (s s1 s2 : SessionRepository) → Advances s s1 → Advances s1 s2 → Advances s s2
Advances-trans s s1 s2 h k = record {
  sessions = λ i. omega (arith, h.sessions i, k.sessions i);
  agents = λ a. omega (arith, h.agents a, k.agents a);
  events = λ w. k.events (h.events w);
}

-- the counters stay, and the events are some of those there were, up to their final decisions
pub same_counters :
    (s after : SessionRepository)
    → after.session_sequences ≡ s.session_sequences
    → after.agent_sequences ≡ s.agent_sequences
    → (All (Within s.session_sequences s.agent_sequences) s.events
        → All (Within s.session_sequences s.agent_sequences) after.events)
    → Advances s after
same_counters s after es ea kept = record {
  sessions = λ i. rw (es) (omega arith);
  agents = λ a. rw (ea) (omega arith);
  events = λ w. rw (es, ea) (kept w);
}

pub Advances-refl : (s : SessionRepository) → Advances s s
Advances-refl s = same_counters s s refl refl (λ w. w)

-- the events that `finalize_in` returns satisfy what the given ones do, if it is not about decisions
abbrev pub AllOf : (SessionEvent → Type 0) → Result SessionError (List SessionEvent) → Type 0
AllOf P (ok es) = All P es
AllOf P (err x) = Unit

pub finalize_in-kept :
    (P : SessionEvent → Type 0)
    → ((e : SessionEvent) (d : Option Decision) → P e → P (record e { final_decision = d }))
    → (i : String) (n : ℕ) (d : Decision) (es : List SessionEvent) → All P es
    → AllOf P (finalize_in i n d es)
unfolding finalize_in
finalize_in-kept P same i n d [] h = tt
finalize_in-kept P same i n d (e ∷ es) h =
    go (finalize_in i n d es) (finalize_in-kept P same i n d es h.1)
  where
    other :
        (rest : Result SessionError (List SessionEvent))
        → AllOf P rest
        → AllOf P (elim rest [ ok es1 ↦ ok (e ∷ es1) | err x ↦ err x ])
    other (ok es1) k = (h.0, k)
    other (err x) k = tt

    go :
        (rest : Result SessionError (List SessionEvent))
        → AllOf P rest
        → AllOf P (
            if e.session_id == i && nat_eq e.sequence_number n
            then (if may_become d e.final_decision
                then ok (record e { final_decision = some d } ∷ es)
                else err SessionError.value_error)
            else (elim rest [ ok es1 ↦ ok (e ∷ es1) | err x ↦ err x ]))
    go rest k = elim (Bool-cases (e.session_id == i && nat_eq e.sequence_number n)) [
      | inl e1 ↦ elim (Bool-cases (may_become d e.final_decision)) [
        | inl e2 ↦ rw (e1, e2) (same e (some d) h.0, h.1)
        | inr e2 ↦ rw (e1, e2) tt
      ]
      | inr e1 ↦ rw (e1) (other rest k)
    ]

or_zero-put :
    (k j : String) (d : Dict.Dict ℕ)
    → or_zero (Dict.get j d) ≤ or_zero (Dict.get j (Dict.put k (or_zero (Dict.get k d) + 1) d))
or_zero-put k j d = ground (arith, get-put k j (or_zero (Dict.get k d) + 1) d, eq_iff k j)

pub append_event-Advances :
    (e : SessionEvent) (x : Session) (s : SessionRepository) → Advances s (append_event e x s).1
unfolding append_event current_session_sequence current_agent_sequence
append_event-Advances e x s = record {
  sessions = λ i. or_zero-put e.session_id i s.session_sequences;
  agents = λ a. or_zero-put e.agent_id a s.agent_sequences;
  events = λ w.
      append_one _ s.events _
        (weaken _ _ s.events
          (λ g h. (
            h.0,
            omega (arith, h.1, or_zero-put e.session_id g.session_id s.session_sequences),
            h.2,
            omega (arith, h.3, or_zero-put e.agent_id g.agent_id s.agent_sequences),
          ))
          w)
        (
          omega arith,
          ground (
            arith,
            get-put_self e.session_id (or_zero (Dict.get e.session_id s.session_sequences) + 1)
                s.session_sequences,
          ),
          omega arith,
          ground (
            arith,
            get-put_self e.agent_id (or_zero (Dict.get e.agent_id s.agent_sequences) + 1)
                s.agent_sequences,
          ),
        );
}
