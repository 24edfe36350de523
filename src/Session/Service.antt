-- ===== src/Session/Service.antt =====
-- app/services/session_service.py: the service over the repository of sessions. A method that calls
-- the repository twice is two functions, one for each call, since other threads may run in between,
-- and their composition.
use enterprise_agent_securit.Prelude.{
  ℕ, String, ◌+◌, ◌-◌, Bool, false, not, Option, none, some, List, [], ◌∷◌, Result, ok, err, leb,
  is_some, if◌then◌else◌, ◌==◌,
}
use enterprise_agent_securit.Session.{
  Session, SessionEvent, SessionError, session_not_found, session_binding, TerminalSessionTombstone,
  explicit_end, idle_timeout, value_error, validation_error, tombstone_refused,
}
use enterprise_agent_securit.Session.Repository.{
  SessionRepository, get_session, get_tombstone, list_sessions, terminalize_session, record_event,
  prune_events,
}

-- `DetectionRetentionPolicy` of app/models/detection_retention.py
pub record DetectionRetentionPolicy : Type 0 where
  pub retention_window_seconds : ℕ
  pub late_arrival_grace_seconds : ℕ

abbrev pub total_retention_seconds : DetectionRetentionPolicy → ℕ
total_retention_seconds p = p.retention_window_seconds + p.late_arrival_grace_seconds

-- a tombstone answers: the owner may end the session again
abbrev pub ended_by : String → String → TerminalSessionTombstone → Result SessionError (Unit {0})
ended_by session_id agent_id t =
    if not (t.agent_id == agent_id)
    then err (session_binding session_id t.agent_id agent_id)
    else ok tt

-- the answer of `end_session` before it changes anything, or none if it goes on
unfoldable pub end_session_check :
    String → String → SessionRepository → Option (Result SessionError (Unit {0}))
unfolding get_tombstone get_session
end_session_check session_id agent_id s = elim (get_tombstone session_id s) [
  | some t ↦ some (ended_by session_id agent_id t)
  | none ↦ elim (get_session session_id s) [
    | none ↦ some (err (session_not_found session_id))
    | some existing ↦
        if not (existing.agent_id == agent_id)
        then some (err (session_binding session_id existing.agent_id agent_id))
        else none
  ]
]

-- the answer where `terminalize_session` refused
abbrev pub recheck :
    String → String → Option TerminalSessionTombstone → Result SessionError (Unit {0})
recheck session_id agent_id none = err (session_not_found session_id)
recheck session_id agent_id (some t) = ended_by session_id agent_id t

-- the tombstone that `end_session` writes
abbrev pub explicit_tombstone : String → String → ℕ → TerminalSessionTombstone
explicit_tombstone session_id agent_id now = record {
  session_id = session_id;
  agent_id = agent_id;
  terminated_at = now;
  terminal_reason = explicit_end;
}

unfoldable pub end_session_commit :
    String → String → ℕ → SessionRepository → Result SessionError (Unit {0}) × SessionRepository
unfolding terminalize_session get_tombstone
end_session_commit session_id agent_id now s =
    if tombstone_refused session_id agent_id
    then (err validation_error, s)
    else let (done, after) =
        terminalize_session session_id (explicit_tombstone session_id agent_id now) s in
      (if done then ok tt else recheck session_id agent_id (get_tombstone session_id after), after)

unfoldable pub end_session :
    String → String → ℕ → SessionRepository → Result SessionError (Unit {0}) × SessionRepository
unfolding end_session_check end_session_commit
end_session session_id agent_id now s = elim (end_session_check session_id agent_id s) [
  | some answer ↦ (answer, s)
  | none ↦ end_session_commit session_id agent_id now s
]

-- the tombstone that `expire_idle_sessions` writes
abbrev pub idle_tombstone : Session → ℕ → TerminalSessionTombstone
idle_tombstone x now = record {
  session_id = x.session_id;
  agent_id = x.agent_id;
  terminated_at = now;
  terminal_reason = idle_timeout;
}

-- a session of the list is ended if it was idle; the test reads `now - last_activity_at`, which is
-- negative where the activity is later. A tombstone that is refused raises out of the loop.
unfoldable pub expire_one :
    ℕ → ℕ → Session → SessionRepository → Result SessionError Bool × SessionRepository
unfolding terminalize_session
expire_one idle_threshold_seconds now x s =
    if not (leb (x.last_activity_at + idle_threshold_seconds) now)
    then (ok false, s)
    else if tombstone_refused x.session_id x.agent_id
    then (err validation_error, s)
    else let (done, after) = terminalize_session x.session_id (idle_tombstone x now) s in
      (ok done, after)

-- the identifiers that the loop returns, with the one of the session that has expired before them
abbrev pub with_expired :
    Bool → String → Result SessionError (List String) → Result SessionError (List String)
with_expired expired session_id (ok ids) = ok (if expired then session_id ∷ ids else ids)
with_expired expired session_id (err x) = err x

-- the loop goes on after a session, or an error ends it with the state as it is then
abbrev pub then_rest :
    Result SessionError Bool
    → String
    → SessionRepository
    → Result SessionError (List String) × SessionRepository
    → Result SessionError (List String) × SessionRepository
then_rest (err x) session_id s rest = (err x, s)
then_rest (ok expired) session_id s rest = (with_expired expired session_id rest.0, rest.1)

unfoldable pub expire_each :
    ℕ → ℕ → List Session → SessionRepository → Result SessionError (List String) × SessionRepository
unfolding expire_one
expire_each idle_threshold_seconds now [] s = (ok [], s)
expire_each idle_threshold_seconds now (x ∷ xs) s =
    let (expired, s1) = expire_one idle_threshold_seconds now x s in
    then_rest expired x.session_id s1 (expire_each idle_threshold_seconds now xs s1)

unfoldable pub expire_idle_sessions :
    ℕ → ℕ → SessionRepository → Result SessionError (List String) × SessionRepository
unfolding expire_each list_sessions
expire_idle_sessions idle_threshold_seconds now s =
    if leb idle_threshold_seconds 0
    then (err value_error, s)
    else expire_each idle_threshold_seconds now (list_sessions s) s

unfoldable pub is_terminal : String → SessionRepository → Bool
unfolding get_tombstone
is_terminal session_id s = is_some (get_tombstone session_id s)

-- `_prune_events`
unfoldable pub prune_expired :
    Option DetectionRetentionPolicy → ℕ → SessionRepository → ℕ × SessionRepository
unfolding prune_events
prune_expired none now s = (0, s)
prune_expired (some p) now s = prune_events (now - total_retention_seconds p) s

-- the second call of the service's `record_event`, unless the first raised
unfoldable pub prune_after :
    Option DetectionRetentionPolicy
    → Result SessionError SessionEvent
    → SessionRepository
    → SessionRepository
unfolding prune_expired
prune_after policy (ok recorded) s = (prune_expired policy recorded.timestamp s).1
prune_after policy (err x) s = s

-- the service's `record_event`
unfoldable pub record_and_prune :
    Option DetectionRetentionPolicy
    → SessionEvent
    → SessionRepository
    → Result SessionError SessionEvent × SessionRepository
unfolding record_event prune_after
record_and_prune policy e s =
    let (recorded, s1) = record_event e s in (recorded, prune_after policy recorded s1)
