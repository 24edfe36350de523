-- ===== src/Session/Operations.antt =====
-- app/services/session_service.py: the calls of the service as values, and the direct calls of the
-- repository's `save_session`, which the service never makes, and `terminalize_session`.
use enterprise_agent_securit.Prelude.{ℕ, String, ◌≡◌, Option, none, some, List, [], ◌∷◌}
use enterprise_agent_securit.Authority.{Decision}
use enterprise_agent_securit.Session.{Session, SessionEvent, TerminalSessionTombstone}
use enterprise_agent_securit.Session.Repository.{
  SessionRepository, create_session, bind_or_create_session, update_event_final_decision,
  save_session, get_session, get_tombstone, terminalize_session,
}
use enterprise_agent_securit.Session.Service.{
  DetectionRetentionPolicy, record_and_prune, prune_expired, end_session, expire_idle_sessions,
}

pub data Operation : Type 0 where
  create : Session → Operation
  bind : String → String → ℕ → Operation
  record_one : Option DetectionRetentionPolicy → SessionEvent → Operation
  prune : Option DetectionRetentionPolicy → ℕ → Operation
  finalize : String → ℕ → Decision → Operation
  end_one : String → String → ℕ → Operation
  expire : ℕ → ℕ → Operation
  save : Session → Operation
  terminalize : String → TerminalSessionTombstone → Operation

unfoldable pub run : Operation → SessionRepository → SessionRepository
run (create x) s = (create_session x s).1
run (bind i a now) s = (bind_or_create_session i a now s).1
run (record_one policy e) s = (record_and_prune policy e s).1
run (prune policy now) s = (prune_expired policy now s).1
run (finalize i n d) s = (update_event_final_decision i n d s).1
run (end_one i a now) s = (end_session i a now s).1
run (expire threshold now) s = (expire_idle_sessions threshold now s).1
run (save x) s = save_session x s
run (terminalize i t) s = (terminalize_session i t s).1

unfoldable pub run_all : List Operation → SessionRepository → SessionRepository
run_all [] s = s
run_all (op ∷ ops) s = run_all ops (run op s)

-- `save_session` and `terminalize_session` trust the agent they are given. A direct call of theirs must
-- name the agent of the active session that it writes or ends, if there is one, and must not write a
-- session that has ended.
abbrev pub Orderly : Operation → SessionRepository → Type 0
Orderly (save x) s =
    (get_tombstone x.session_id s ≡ none)
    × ((y : Session) → get_session x.session_id s ≡ some y → y.agent_id ≡ x.agent_id)
Orderly (terminalize i t) s = (y : Session) → get_session i s ≡ some y → y.agent_id ≡ t.agent_id
Orderly _ s = Unit

-- every direct call of the sequence is such a one, where it is made
abbrev pub AllOrderly : List Operation → SessionRepository → Type 0
AllOrderly [] s = Unit
AllOrderly (op ∷ ops) s = Orderly op s × AllOrderly ops (run op s)
