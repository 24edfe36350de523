-- ===== src/Session/Recording.antt =====
-- app/repositories/in_memory/session_repository.py: the branches of `record_event`.
use enterprise_agent_securit.Prelude.{
  ◌≡◌, none, some, Result, ok, err, Bool-cases, Option-cases, inl, inr, nat_eq, eq_iff, ◌==◌,
}
use enterprise_agent_securit.Dict
use enterprise_agent_securit.Dict.{get-put, get-put_self}
use enterprise_agent_securit.Session.{Session, SessionEvent, SessionError}
use enterprise_agent_securit.Session.Repository.{
  SessionRepository, record_event, record_in, append_event,
}

-- what a recorded event is, if the call did not raise
pub record_event_cases {ℓ} :
    (P : Result SessionError SessionEvent × SessionRepository → Type ℓ) (e : SessionEvent)
    (s : SessionRepository)
    → ((x : SessionError) → P (err x, s))
    → ((x : Session)
        → Dict.get e.session_id s.tombstones ≡ none
        → Dict.get e.session_id s.sessions ≡ some x
        → x.agent_id ≡ e.agent_id
        → P (ok (append_event e x s).0, (append_event e x s).1))
    → P (record_event e s)
unfolding record_event record_in
record_event_cases P e s raised appended =
    elim (Option-cases (Dict.get e.session_id s.tombstones)) [
      | inr (t, e1) ↦ rw (e1, record_event) (raised _)
      | inl e1 ↦ elim (Option-cases (Dict.get e.session_id s.sessions)) [
        | inl e2 ↦ rw (e1, e2, record_event, record_in) (raised _)
        | inr (x, e2) ↦ elim (Bool-cases (x.agent_id == e.agent_id)) [
          | inr e3 ↦ rw (e1, e2, record_event, record_in, e3) (raised _)
          | inl e3 ↦ elim (Bool-cases (nat_eq e.sequence_number 0)) [
            | inr e4 ↦ rw (e1, e2, record_event, record_in, e3, e4) (raised _)
            | inl e4 ↦ elim (Bool-cases (nat_eq e.agent_sequence 0)) [
              | inr e5 ↦ rw (e1, e2, record_event, record_in, e3, e4, e5) (raised _)
              | inl e5 ↦
                  rw (e1, e2, record_event, record_in, e3, e4, e5)
                    (appended x e1 e2 ((eq_iff x.agent_id e.agent_id).0 e3))
            ]
          ]
        ]
      ]
    ]
