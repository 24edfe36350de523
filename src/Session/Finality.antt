-- ===== src/Session/Finality.antt =====
-- app/services/session_service.py: terminal finality and ownership over any sequence of calls.
use enterprise_agent_securit.Prelude.{
  ℕ, String, ◌≡◌, ◌≢◌, ◌⊎◌, refl, true, false, Option, none, some, List, ok, err, Option-cases,
  Bool-cases, inl, inr, eq_iff, eq_refl, ◌==◌,
}
use mathlib.Core.Option.{none-ne-some, some-injective}
use enterprise_agent_securit.Dict
use enterprise_agent_securit.Dict.{get-put, get-put_self, get-remove, get-remove_self, get-empty}
use enterprise_agent_securit.Session.{
  Session, SessionEvent, SessionError, session_terminal, session_binding, TerminalSessionTombstone,
  validation_error, tombstone_refused,
}
use enterprise_agent_securit.Session.Repository.{
  SessionRepository, create_session, bind_or_create_session, bind_existing, terminalize_session,
  record_event, record_in, empty_repository, get_tombstone, get_session,
}
use enterprise_agent_securit.Session.Service.{end_session_commit, end_session_check, is_terminal}
use enterprise_agent_securit.Session.Operations.{Operation, run_all, AllOrderly}
use enterprise_agent_securit.Session.Ownership.{owner, IsSound}
use enterprise_agent_securit.Session.Preservation.{empty_repository-IsSound}
use enterprise_agent_securit.Session.Traces.{run_all-Keeps, end_session_check-owner}

-- After any calls of the service on a new repository, and any further ones, a session that had ended
-- has the same tombstone and is not active, and no agent can bind it, create it or record an event in
-- it: each of these calls raises the error of a terminal session with its owner and changes nothing.
-- Direct calls of the repository's `save_session` and `terminalize_session`, which check no agent, may
-- be made in between, as long as none writes an ended session, and each names the agent of the active
-- session that it writes or ends, if there is one.
pub ended_session_stays_ended :
    (before after : List Operation) (i a : String) (now : ℕ) (t : TerminalSessionTombstone)
    (x : Session) (e : SessionEvent)
    → AllOrderly before empty_repository
    → AllOrderly after (run_all before empty_repository)
    → get_tombstone i (run_all before empty_repository) ≡ some t
    → x.session_id ≡ i
    → e.session_id ≡ i
    → let s = run_all after (run_all before empty_repository) in
      (get_tombstone i s ≡ some t)
      × (get_session i s ≡ none)
      × (bind_or_create_session i a now s ≡ (err (session_terminal i t.agent_id a), s))
      × (create_session x s ≡ (err (session_terminal i t.agent_id x.agent_id), s))
      × (record_event e s ≡ (err (session_terminal i t.agent_id e.agent_id), s))
unfolding get_tombstone get_session bind_or_create_session create_session record_event
ended_session_stays_ended before after i a now t x e fits later ended ex ee =
    let first = run_all-Keeps before empty_repository fits empty_repository-IsSound in
    let k = run_all-Keeps after (run_all before empty_repository) later first.sound in
    let h = k.tombstones i t ended in
    (
      h,
      k.sound.exclusive i t h,
      rw (bind_or_create_session, h) refl,
      rw (create_session, ex, h, ex) refl,
      rw (record_event, ee, h, ee) refl,
    )

-- the agent of a tombstone or of an active session, by the owner
owner-tombstone :
    (i a : String) (t : TerminalSessionTombstone) (s : SessionRepository)
    → owner i s ≡ some a
    → Dict.get i s.tombstones ≡ some t
    → t.agent_id ≡ a
unfolding owner
owner-tombstone i a t s e m =
    let e1 : some t.agent_id ≡ some a = rw (owner, m) at e in some-injective t.agent_id a e1

owner-active :
    (i a : String) (x : Session) (s : SessionRepository)
    → owner i s ≡ some a
    → Dict.get i s.tombstones ≡ none
    → Dict.get i s.sessions ≡ some x
    → x.agent_id ≡ a
unfolding owner
owner-active i a x s e m n =
    let e1 : some x.agent_id ≡ some a = rw (owner, m, n) at e in some-injective x.agent_id a e1

-- an owned session is active where it has not ended
owner-cases {ℓ} :
    (P : Type ℓ) (i a : String) (s : SessionRepository)
    → owner i s ≡ some a
    → ((t : TerminalSessionTombstone) → Dict.get i s.tombstones ≡ some t → t.agent_id ≡ a → P)
    → ((x : Session)
        → Dict.get i s.tombstones ≡ none
        → Dict.get i s.sessions ≡ some x
        → x.agent_id ≡ a
        → P)
    → P
unfolding owner
owner-cases P i a s e ended active = elim (Option-cases (Dict.get i s.tombstones)) [
  | inr (t, m) ↦ ended t m (owner-tombstone i a t s e m)
  | inl m ↦ elim (Option-cases (Dict.get i s.sessions)) [
    | inr (x, n) ↦ active x m n (owner-active i a x s e m n)
    | inl n ↦
        let e1 : ◌≡◌ {A = Option String} none (some a) = rw (owner, m, n) at e in
        absurd (none-ne-some a e1)
  ]
]

apart_false : (a b : String) → a ≢ b → (a == b) ≡ false
apart_false a b h = elim (Bool-cases (a == b)) [ inl e ↦ absurd (h ((eq_iff a b).0 e)) | inr e ↦ e ]

-- Once a session has an owner, active or ended, it keeps that owner through any calls of the service,
-- and a call of another agent that binds it, or records an event in it, raises an error and changes
-- nothing. Direct calls of the repository's `save_session` and `terminalize_session`, which check no
-- agent, may be made in between, as long as none writes an ended session, and each names the agent
-- of the active session that it writes or ends, if there is one.
pub owner_is_kept :
    (before after : List Operation) (i a b : String) (now : ℕ) (e : SessionEvent)
    → AllOrderly before empty_repository
    → AllOrderly after (run_all before empty_repository)
    → owner i (run_all before empty_repository) ≡ some a
    → a ≢ b
    → e.session_id ≡ i
    → e.agent_id ≡ b
    → let s = run_all after (run_all before empty_repository) in
      (owner i s ≡ some a)
      × ((x : SessionError) × (bind_or_create_session i b now s ≡ (err x, s)))
      × ((x : SessionError) × (record_event e s ≡ (err x, s)))
unfolding bind_or_create_session bind_existing record_event record_in
owner_is_kept before after i a b now e fits later own other ei eb =
    let first = run_all-Keeps before empty_repository fits empty_repository-IsSound in
    let k = run_all-Keeps after (run_all before empty_repository) later first.sound in
    let h = k.owners i a own in
    owner-cases _ i a (run_all after (run_all before empty_repository)) h
      (λ t m same. (
        h,
        (session_terminal i t.agent_id b, rw (bind_or_create_session, m) refl),
        (session_terminal i t.agent_id b, rw (record_event, ei, m, ei, eb) refl),
      ))
      (λ x m n same. (
        h,
        (
          session_binding i a b,
          rw (bind_or_create_session, m, n, bind_existing, same, apart_false a b other) refl,
        ),
        (
          session_binding i a b,
          rw (record_event, ei, m, ei, n, record_in, ei, eb, same, apart_false a b other) refl,
        ),
      ))

-- the second step on an owned session, where the tombstone is accepted
committed :
    (i a : String) (now : ℕ) (s : SessionRepository)
    → IsSound s
    → owner i s ≡ some a
    → tombstone_refused i a ≡ false
    → let (answer, after) = end_session_commit i a now s in
      (answer ≡ ok tt)
      × (is_terminal i after ≡ true)
      × (owner i after ≡ some a)
      × (get_session i after ≡ none)
unfolding end_session_commit terminalize_session get_tombstone get_session is_terminal owner
committed i a now s sound h accepted =
    owner-cases _ i a s h
      (λ t m same.
        let n = sound.exclusive i t m in
        rw (accepted, terminalize_session, n, get_tombstone, m, same, eq_refl a)
          (refl, refl, refl, n))
      (λ x m n same.
        rw (accepted, terminalize_session, n, m, get-put_self)
          (refl, refl, refl, get-remove_self i s.sessions))

-- Whatever calls of the service other threads make between the two steps of `end_session`: if the
-- first step goes on for an agent, the second succeeds, and leaves the session ended, not active, with
-- a tombstone of that agent, provided neither identifier is empty; where one is, the second raises
-- the error of the validation and changes nothing. Direct calls of the repository's `save_session` and
-- `terminalize_session` may be made in between, as long as none writes an ended session, and each
-- names the agent of the active session that it writes or ends, if there is one.
pub end_session_interleaved :
    (before between : List Operation) (i a : String) (now : ℕ)
    → AllOrderly before empty_repository
    → AllOrderly between (run_all before empty_repository)
    → end_session_check i a (run_all before empty_repository) ≡ none
    → let s = run_all between (run_all before empty_repository) in
      let (answer, after) = end_session_commit i a now s in
      ((tombstone_refused i a ≡ true) × (answer ≡ err validation_error) × (after ≡ s))
      ⊎ ((tombstone_refused i a ≡ false)
          × (answer ≡ ok tt)
          × (is_terminal i after ≡ true)
          × (owner i after ≡ some a)
          × (get_session i after ≡ none))
unfolding end_session_commit
end_session_interleaved before between i a now fits later checked =
    let first = run_all-Keeps before empty_repository fits empty_repository-IsSound in
    let k = run_all-Keeps between (run_all before empty_repository) later first.sound in
    let h = k.owners i a (end_session_check-owner i a (run_all before empty_repository) checked) in
    elim (Bool-cases (tombstone_refused i a)) [
      | inl e ↦ inl (e, rw (e, end_session_commit) refl, rw (e, end_session_commit) refl)
      | inr e ↦
          let c =
            committed i a now (run_all between (run_all before empty_repository)) k.sound h e in
          inr (e, c.0, c.1, c.2, c.3)
    ]
