-- ===== src/Session/Traces.antt =====
-- app/services/session_service.py: what the calls that read before they write keep, and any sequence
-- of calls.
use enterprise_agent_securit.Prelude.{
  ℕ, String, ◌≡◌, refl, sym, ◌∙◌, ap, Option, none, some, List, [], ◌∷◌, Result, ok, err,
  Option-cases, Bool-cases, inl, inr, eq_iff, ◌==◌, All, leb, ◌+◌, Bool,
}
use mathlib.Core.Path.{subst}
use mathlib.Core.Option.{none-ne-some, some-ne-none}
use enterprise_agent_securit.Dict
use enterprise_agent_securit.Dict.{get-put, get-put_self, get-remove, get-remove_self, get-empty}
use enterprise_agent_securit.Dict.Unique.{get-All}
use enterprise_agent_securit.Session.{
  Session, SessionEvent, SessionError, tombstone_refused, TerminalSessionTombstone,
}
use enterprise_agent_securit.Session.Repository.{
  SessionRepository, terminalize_session, record_event, list_sessions, get_tombstone, get_session,
  save_session,
}
use enterprise_agent_securit.Session.Service.{
  record_and_prune, DetectionRetentionPolicy, prune_after, end_session, end_session_commit,
  end_session_check, expire_one, expire_each, expire_idle_sessions, explicit_tombstone,
  idle_tombstone, then_rest,
}
use enterprise_agent_securit.Session.Operations.{
  Operation, create, bind, record_one, prune, finalize, end_one, expire, save, terminalize, run,
  run_all, Orderly, AllOrderly,
}
use enterprise_agent_securit.Session.Ownership.{
  IsSound, Keeps, owner, agent_in, Keeps-refl, Keeps-trans, terminalize_session-Keeps,
  written-Keeps,
}
use enterprise_agent_securit.Session.Preservation.{
  create_session-Keeps, bind_or_create_session-Keeps, record_event-Keeps, prune_expired-Keeps,
  update_event_final_decision-Keeps,
}

-- what the check has seen, where `end_session` goes on
pub end_session_check-owner :
    (i a : String) (s : SessionRepository) → end_session_check i a s ≡ none → owner i s ≡ some a
unfolding end_session_check owner get_tombstone get_session
end_session_check-owner i a s e = elim (Option-cases (Dict.get i s.tombstones)) [
  | inr (t, m) ↦ absurd (some-ne-none _ (rw (end_session_check, get_tombstone, m) at e))
  | inl m ↦ elim (Option-cases (Dict.get i s.sessions)) [
    | inl n ↦
        absurd (some-ne-none _ (rw (end_session_check, get_tombstone, m, get_session, n) at e))
    | inr (x, n) ↦ elim (Bool-cases (x.agent_id == a)) [
      | inl same ↦ rw (m, n) (ap some ((eq_iff x.agent_id a).0 same))
      | inr apart ↦
          absurd
            (some-ne-none _ (rw (end_session_check, get_tombstone, m, get_session, n, apart) at e))
    ]
  ]
]

module _ (s : SessionRepository) (h : IsSound s) where
  end_session_commit-Keeps :
      (i a : String) (now : ℕ) → owner i s ≡ some a → Keeps s (end_session_commit i a now s).1
  unfolding end_session_commit
  end_session_commit-Keeps i a now e = elim (Bool-cases (tombstone_refused i a)) [
    | inl e1 ↦ rw (e1, end_session_commit) (Keeps-refl s h)
    | inr e1 ↦
        rw (e1, end_session_commit) (terminalize_session-Keeps i (explicit_tombstone i a now) s h e)
  ]

  end_session-Keeps : (i a : String) (now : ℕ) → Keeps s (end_session i a now s).1
  unfolding end_session
  end_session-Keeps i a now = elim (Option-cases (end_session_check i a s)) [
    | inr (r, e) ↦ rw (e, end_session) (Keeps-refl s h)
    | inl e ↦
        rw (e, end_session) (end_session_commit-Keeps i a now (end_session_check-owner i a s e))
  ]

expire_one-Keeps :
    (threshold now : ℕ) (x : Session) (s : SessionRepository)
    → IsSound s
    → owner x.session_id s ≡ some x.agent_id
    → Keeps s (expire_one threshold now x s).1
unfolding expire_one
expire_one-Keeps threshold now x s h e =
    elim (Bool-cases (leb (x.last_activity_at + threshold) now)) [
      | inr e1 ↦ rw (e1, expire_one) (Keeps-refl s h)
      | inl e1 ↦ elim (Bool-cases (tombstone_refused x.session_id x.agent_id)) [
        | inl e2 ↦ rw (e1, e2, expire_one) (Keeps-refl s h)
        | inr e2 ↦
            rw (e1, e2, expire_one)
              (terminalize_session-Keeps x.session_id (idle_tombstone x now) s h e)
      ]
    ]

-- the sessions belong to their agents
abbrev Listed : List Session → SessionRepository → Type 0
Listed xs s = All (λ x. owner x.session_id s ≡ some x.agent_id) xs

Listed-Keeps :
    (xs : List Session) (s after : SessionRepository)
    → Keeps s after
    → Listed xs s
    → Listed xs after
Listed-Keeps [] s after k h = tt
Listed-Keeps (x ∷ xs) s after k h =
    (k.owners x.session_id x.agent_id h.0, Listed-Keeps xs s after k h.1)

then_rest-Keeps :
    (r : Result SessionError Bool) (i : String) (s s1 : SessionRepository)
    (rest : Result SessionError (List String) × SessionRepository)
    → Keeps s s1
    → (IsSound s1 → Keeps s1 rest.1)
    → Keeps s (then_rest r i s1 rest).1
then_rest-Keeps (err x) i s s1 rest h k = h
then_rest-Keeps (ok b) i s s1 rest h k = Keeps-trans s s1 rest.1 h k

expire_each-Keeps :
    (threshold now : ℕ) (xs : List Session) (s : SessionRepository)
    → IsSound s
    → Listed xs s
    → Keeps s (expire_each threshold now xs s).1
unfolding expire_each
expire_each-Keeps threshold now [] s h l = Keeps-refl s h
expire_each-Keeps threshold now (x ∷ xs) s h l =
    let k = expire_one-Keeps threshold now x s h l.0 in
    then_rest-Keeps (expire_one threshold now x s).0 x.session_id s (expire_one threshold now x s).1
      _ k
      (λ h1.
        expire_each-Keeps threshold now xs (expire_one threshold now x s).1 h1
          (Listed-Keeps xs s (expire_one threshold now x s).1 k l.1))

list_sessions-Listed : (s : SessionRepository) → IsSound s → Listed (list_sessions s) s
unfolding list_sessions owner
list_sessions-Listed s h =
    get-All (λ x. owner x.session_id s ≡ some x.agent_id) s.sessions h.unique
      (λ i x e. subst (λ k. owner k s ≡ some x.agent_id) (sym (h.keyed i x e)) (active i x e))
  where
    active :
        (i : String) (x : Session)
        → Dict.get i s.sessions ≡ some x
        → agent_in (Dict.get i s.tombstones) (Dict.get i s.sessions) ≡ some x.agent_id
    active i x e = elim (Option-cases (Dict.get i s.tombstones)) [
      | inl m ↦ rw (m, e) refl
      | inr (t, m) ↦ absurd (none-ne-some x (sym (h.exclusive i t m) ∙ e))
    ]

expire_idle_sessions-Keeps :
    (threshold now : ℕ) (s : SessionRepository)
    → IsSound s
    → Keeps s (expire_idle_sessions threshold now s).1
unfolding expire_idle_sessions
expire_idle_sessions-Keeps threshold now s h = elim (Bool-cases (leb threshold 0)) [
  | inl e ↦ rw (e) (Keeps-refl s h)
  | inr e ↦
      rw (e) (expire_each-Keeps threshold now (list_sessions s) s h (list_sessions-Listed s h))
]

prune_after-Keeps :
    (policy : Option DetectionRetentionPolicy) (r : Result SessionError SessionEvent)
    (s : SessionRepository)
    → IsSound s
    → Keeps s (prune_after policy r s)
unfolding prune_after
prune_after-Keeps policy (ok e) s h = prune_expired-Keeps s h policy e.timestamp
prune_after-Keeps policy (err x) s h = Keeps-refl s h

save_session-Keeps :
    (x : Session) (s : SessionRepository)
    → IsSound s
    → Orderly (save x) s
    → Keeps s (save_session x s)
unfolding save_session get_tombstone get_session
save_session-Keeps x s h o =
    written-Keeps x.session_id x s s.events s.session_sequences s.agent_sequences h refl o.0 o.1

direct-Keeps :
    (i : String) (t : TerminalSessionTombstone) (s : SessionRepository)
    → IsSound s
    → Orderly (terminalize i t) s
    → Keeps s (terminalize_session i t s).1
unfolding get_session terminalize_session owner
direct-Keeps i t s h o = elim (Option-cases (Dict.get i s.sessions)) [
  | inl n ↦ rw (n, terminalize_session) (Keeps-refl s h)
  | inr (x, n) ↦ elim (Option-cases (Dict.get i s.tombstones)) [
    | inr (u, m) ↦ rw (n, m, terminalize_session) (Keeps-refl s h)
    | inl m ↦ terminalize_session-Keeps i t s h (rw (owner, m, n) (ap some (o x n)))
  ]
]

run-Keeps : (op : Operation) (s : SessionRepository) → Orderly op s → IsSound s → Keeps s (run op s)
unfolding run record_and_prune
run-Keeps (create x) s o h = create_session-Keeps s h x
run-Keeps (bind i a now) s o h = bind_or_create_session-Keeps s h i a now
run-Keeps (record_one policy e) s o h =
    Keeps-trans s (record_event e s).1 _ (record_event-Keeps s h e)
      (prune_after-Keeps policy (record_event e s).0 (record_event e s).1)
run-Keeps (prune policy now) s o h = prune_expired-Keeps s h policy now
run-Keeps (finalize i n d) s o h = update_event_final_decision-Keeps s h i n d
run-Keeps (end_one i a now) s o h = end_session-Keeps s h i a now
run-Keeps (expire threshold now) s o h = expire_idle_sessions-Keeps threshold now s h
run-Keeps (save x) s o h = save_session-Keeps x s h o
run-Keeps (terminalize i t) s o h = direct-Keeps i t s h o

pub run_all-Keeps :
    (ops : List Operation) (s : SessionRepository)
    → AllOrderly ops s
    → IsSound s
    → Keeps s (run_all ops s)
unfolding run_all
run_all-Keeps [] s o h = Keeps-refl s h
run_all-Keeps (op ∷ ops) s o h =
    Keeps-trans s (run op s) _ (run-Keeps op s o.0 h) (run_all-Keeps ops (run op s) o.1)
