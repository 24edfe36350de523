-- ===== src/Session/Advancing.antt =====
-- app/services/session_service.py: no call of the service moves a counter back.
use enterprise_agent_securit.Prelude.{
  ℕ, String, ◌+◌, refl, Option, none, some, List, [], ◌∷◌, Result, ok, err, Bool-cases,
  Option-cases, inl, inr, All, ◌==◌, leb, Bool,
}
use enterprise_agent_securit.Lists.{filter-kept}
use enterprise_agent_securit.Dict
use enterprise_agent_securit.Dict.{get-put, get-put_self}
use enterprise_agent_securit.Authority.{Decision}
use enterprise_agent_securit.Session.{
  Session, SessionEvent, SessionError, TerminalSessionTombstone, tombstone_refused,
}
use enterprise_agent_securit.Session.Repository.{
  SessionRepository, create_session, bind_or_create_session, bind_existing, terminalize_session,
  record_event, update_event_final_decision, with_events, list_sessions, prune_events, save_session,
}
use enterprise_agent_securit.Session.Service.{
  DetectionRetentionPolicy, record_and_prune, prune_after, prune_expired, end_session,
  end_session_check, end_session_commit, explicit_tombstone, expire_one, expire_each,
  expire_idle_sessions, idle_tombstone, then_rest,
}
use enterprise_agent_securit.Session.Operations.{
  Operation, create, bind, record_one, prune, finalize, end_one, expire, save, terminalize, run,
  run_all,
}
use enterprise_agent_securit.Session.Recording.{record_event_cases}
use enterprise_agent_securit.Session.Counters.{
  Within, Advances, AllOf, Advances-trans, same_counters, Advances-refl, finalize_in-kept,
  append_event-Advances,
}

record_event-Advances : (e : SessionEvent) (s : SessionRepository) → Advances s (record_event e s).1
record_event-Advances e s =
    record_event_cases (λ r. Advances s r.1) e s (λ x. Advances-refl s)
      (λ x fresh active same. append_event-Advances e x s)

prune_expired-Advances :
    (policy : Option DetectionRetentionPolicy) (now : ℕ) (s : SessionRepository)
    → Advances s (prune_expired policy now s).1
unfolding prune_expired prune_events
prune_expired-Advances none now s = Advances-refl s
prune_expired-Advances (some p) now s = same_counters s _ refl refl (filter-kept _ _ s.events)

prune_after-Advances :
    (policy : Option DetectionRetentionPolicy) (r : Result SessionError SessionEvent)
    (s : SessionRepository)
    → Advances s (prune_after policy r s)
unfolding prune_after
prune_after-Advances policy (ok e) s = prune_expired-Advances policy e.timestamp s
prune_after-Advances policy (err x) s = Advances-refl s

with_events-Advances :
    (s : SessionRepository) (r : Result SessionError (List SessionEvent))
    → (All (Within s.session_sequences s.agent_sequences) s.events
        → AllOf (Within s.session_sequences s.agent_sequences) r)
    → Advances s (with_events s r).1
with_events-Advances s (ok es) h = same_counters s (record s { events = es }) refl refl h
with_events-Advances s (err x) h = Advances-refl s

finalize-Advances :
    (i : String) (n : ℕ) (d : Decision) (s : SessionRepository)
    → Advances s (update_event_final_decision i n d s).1
unfolding update_event_final_decision
finalize-Advances i n d s = elim (Option-cases (Dict.get i s.tombstones)) [
  | inr (t, e1) ↦ rw (e1, update_event_final_decision) (Advances-refl s)
  | inl e1 ↦ elim (Option-cases (Dict.get i s.sessions)) [
    | inl e2 ↦ rw (e1, e2, update_event_final_decision) (Advances-refl s)
    | inr (x, e2) ↦
        rw (e1, e2, update_event_final_decision)
          (with_events-Advances s _ (finalize_in-kept _ (λ e d h. h) i n d s.events))
  ]
]

create_session-Advances : (x : Session) (s : SessionRepository) → Advances s (create_session x s).1
unfolding create_session
create_session-Advances x s = elim (Option-cases (Dict.get x.session_id s.tombstones)) [
  | inr (t, e) ↦ rw (e, create_session) (Advances-refl s)
  | inl e ↦ elim (Option-cases (Dict.get x.session_id s.sessions)) [
    | inr (y, e1) ↦ rw (e, e1, create_session) (Advances-refl s)
    | inl e1 ↦ rw (e, e1, create_session) (same_counters s _ refl refl (λ w. w))
  ]
]

bind_or_create_session-Advances :
    (i a : String) (now : ℕ) (s : SessionRepository)
    → Advances s (bind_or_create_session i a now s).1
unfolding bind_or_create_session bind_existing
bind_or_create_session-Advances i a now s = elim (Option-cases (Dict.get i s.tombstones)) [
  | inr (t, e) ↦ rw (e, bind_or_create_session) (Advances-refl s)
  | inl e ↦ elim (Option-cases (Dict.get i s.sessions)) [
    | inl e1 ↦
        rw (e, e1, bind_or_create_session, bind_existing) (same_counters s _ refl refl (λ w. w))
    | inr (x, e1) ↦ elim (Bool-cases (x.agent_id == a)) [
      | inr e2 ↦ rw (e, e1, bind_or_create_session, bind_existing, e2) (Advances-refl s)
      | inl e2 ↦
          rw (e, e1, bind_or_create_session, bind_existing, e2)
            (same_counters s _ refl refl (λ w. w))
    ]
  ]
]

terminalize_session-Advances :
    (i : String) (t : TerminalSessionTombstone) (s : SessionRepository)
    → Advances s (terminalize_session i t s).1
unfolding terminalize_session
terminalize_session-Advances i t s = elim (Option-cases (Dict.get i s.sessions)) [
  | inl n ↦ rw (n, terminalize_session) (Advances-refl s)
  | inr (x, n) ↦ elim (Option-cases (Dict.get i s.tombstones)) [
    | inr (u, m) ↦ rw (n, m, terminalize_session) (Advances-refl s)
    | inl m ↦ rw (n, m, terminalize_session) (same_counters s _ refl refl (λ w. w))
  ]
]

end_session_commit-Advances :
    (i a : String) (now : ℕ) (s : SessionRepository) → Advances s (end_session_commit i a now s).1
unfolding end_session_commit
end_session_commit-Advances i a now s = elim (Bool-cases (tombstone_refused i a)) [
  | inl e ↦ rw (e, end_session_commit) (Advances-refl s)
  | inr e ↦
      rw (e, end_session_commit) (terminalize_session-Advances i (explicit_tombstone i a now) s)
]

end_session-Advances :
    (i a : String) (now : ℕ) (s : SessionRepository) → Advances s (end_session i a now s).1
unfolding end_session
end_session-Advances i a now s = elim (Option-cases (end_session_check i a s)) [
  | inr (r, e) ↦ rw (e, end_session) (Advances-refl s)
  | inl e ↦ rw (e, end_session) (end_session_commit-Advances i a now s)
]

expire_one-Advances :
    (threshold now : ℕ) (x : Session) (s : SessionRepository)
    → Advances s (expire_one threshold now x s).1
unfolding expire_one
expire_one-Advances threshold now x s =
    elim (Bool-cases (leb (x.last_activity_at + threshold) now)) [
      | inr e1 ↦ rw (e1, expire_one) (Advances-refl s)
      | inl e1 ↦ elim (Bool-cases (tombstone_refused x.session_id x.agent_id)) [
        | inl e2 ↦ rw (e1, e2, expire_one) (Advances-refl s)
        | inr e2 ↦
            rw (e1, e2, expire_one)
              (terminalize_session-Advances x.session_id (idle_tombstone x now) s)
      ]
    ]

then_rest-Advances :
    (r : Result SessionError Bool) (i : String) (s s1 : SessionRepository)
    (rest : Result SessionError (List String) × SessionRepository)
    → Advances s s1
    → Advances s1 rest.1
    → Advances s (then_rest r i s1 rest).1
then_rest-Advances (err x) i s s1 rest h k = h
then_rest-Advances (ok b) i s s1 rest h k = Advances-trans s s1 rest.1 h k

expire_each-Advances :
    (threshold now : ℕ) (xs : List Session) (s : SessionRepository)
    → Advances s (expire_each threshold now xs s).1
unfolding expire_each
expire_each-Advances threshold now [] s = Advances-refl s
expire_each-Advances threshold now (x ∷ xs) s =
    then_rest-Advances (expire_one threshold now x s).0 x.session_id s
      (expire_one threshold now x s).1 _ (expire_one-Advances threshold now x s)
      (expire_each-Advances threshold now xs (expire_one threshold now x s).1)

expire_idle_sessions-Advances :
    (threshold now : ℕ) (s : SessionRepository)
    → Advances s (expire_idle_sessions threshold now s).1
unfolding expire_idle_sessions
expire_idle_sessions-Advances threshold now s = elim (Bool-cases (leb threshold 0)) [
  | inl e ↦ rw (e) (Advances-refl s)
  | inr e ↦ rw (e) (expire_each-Advances threshold now (list_sessions s) s)
]

run-Advances : (op : Operation) (s : SessionRepository) → Advances s (run op s)
unfolding run record_and_prune save_session
run-Advances (create x) s = create_session-Advances x s
run-Advances (bind i a now) s = bind_or_create_session-Advances i a now s
run-Advances (record_one policy e) s =
    Advances-trans s (record_event e s).1 _ (record_event-Advances e s)
      (prune_after-Advances policy (record_event e s).0 (record_event e s).1)
run-Advances (prune policy now) s = prune_expired-Advances policy now s
run-Advances (finalize i n d) s = finalize-Advances i n d s
run-Advances (end_one i a now) s = end_session-Advances i a now s
run-Advances (expire threshold now) s = expire_idle_sessions-Advances threshold now s
run-Advances (save x) s = same_counters s _ refl refl (λ w. w)
run-Advances (terminalize i t) s = terminalize_session-Advances i t s

pub run_all-Advances : (ops : List Operation) (s : SessionRepository) → Advances s (run_all ops s)
unfolding run_all
run_all-Advances [] s = Advances-refl s
run_all-Advances (op ∷ ops) s =
    Advances-trans s (run op s) _ (run-Advances op s) (run_all-Advances ops (run op s))
