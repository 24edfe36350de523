-- ===== src/Session/Repository.antt =====
-- app/repositories/in_memory/session_repository.py: the sessions, their tombstones and their events.
-- Each method runs under the lock of the repository and is one step. The entities that are stored and
-- returned are deep copies, so the only change of a stored one is what a method writes here.
use enterprise_agent_securit.Prelude.{
  ℕ, String, ◌+◌, ◌-◌, Bool, true, false, not, ◌&&◌, Option, none, some, List, [], ◌∷◌, ◌++◌,
  Result, ok, err, leb, ltb, nat_eq, is_some, filter, length, if◌then◌else◌, ◌==◌, opt_eq,
}
use enterprise_agent_securit.Dict
use enterprise_agent_securit.Dict.{Dict}
use enterprise_agent_securit.Sorting.{sorted}
use enterprise_agent_securit.Authority.{Decision, allow, deny, approval_required}
use enterprise_agent_securit.Session.{
  Session, SessionEvent, SessionError, session_already_exists, session_not_found, session_binding,
  session_terminal, value_error, TerminalSessionTombstone, HorizonQuery, AggregationScope,
}

pub record SessionRepository : Type 0 where
  pub sessions : Dict Session
  pub tombstones : Dict TerminalSessionTombstone
  pub events : List SessionEvent
  pub session_sequences : Dict ℕ
  pub agent_sequences : Dict ℕ

unfoldable pub empty_repository : SessionRepository
empty_repository = record {
  sessions = [];
  tombstones = [];
  events = [];
  session_sequences = [];
  agent_sequences = [];
}

unfoldable pub get_session : String → SessionRepository → Option Session
get_session session_id s = Dict.get session_id s.sessions

unfoldable pub get_tombstone : String → SessionRepository → Option TerminalSessionTombstone
get_tombstone session_id s = Dict.get session_id s.tombstones

unfoldable pub list_sessions : SessionRepository → List Session
list_sessions s = Dict.values s.sessions

abbrev pub set_session : Session → SessionRepository → SessionRepository
set_session x s = record s { sessions = Dict.put x.session_id x s.sessions }

unfoldable pub save_session : Session → SessionRepository → SessionRepository
save_session x s = set_session x s

unfoldable pub create_session :
    Session → SessionRepository → Result SessionError Session × SessionRepository
create_session x s = elim (Dict.get x.session_id s.tombstones) [
  | some tombstone ↦ (err (session_terminal x.session_id tombstone.agent_id x.agent_id), s)
  | none ↦
      if is_some (Dict.get x.session_id s.sessions)
      then (err (session_already_exists x.session_id), s)
      else (ok x, set_session x s)
]

-- the session is new, or owned by the agent that asks and touched, or owned by another
unfoldable pub bind_existing :
    String
    → String
    → ℕ
    → Option Session
    → SessionRepository
    → Result SessionError Session × SessionRepository
bind_existing session_id agent_id now none s =
    let x : Session = record {
      session_id = session_id;
      agent_id = agent_id;
      started_at = now;
      last_activity_at = now;
    } in
    (ok x, record s { sessions = Dict.put session_id x s.sessions })
bind_existing session_id agent_id now (some x) s =
    let touched = record x { last_activity_at = now } in
    if not (x.agent_id == agent_id)
    then (err (session_binding session_id x.agent_id agent_id), s)
    else (ok touched, record s { sessions = Dict.put session_id touched s.sessions })

unfoldable pub bind_or_create_session :
    String → String → ℕ → SessionRepository → Result SessionError Session × SessionRepository
unfolding bind_existing
bind_or_create_session session_id agent_id now s = elim (Dict.get session_id s.tombstones) [
  | some tombstone ↦ (err (session_terminal session_id tombstone.agent_id agent_id), s)
  | none ↦ bind_existing session_id agent_id now (Dict.get session_id s.sessions) s
]

unfoldable pub terminalize_session :
    String → TerminalSessionTombstone → SessionRepository → Bool × SessionRepository
terminalize_session session_id tombstone s =
    if not (is_some (Dict.get session_id s.sessions))
    then (false, s)
    else if is_some (Dict.get session_id s.tombstones)
    then (false, s)
    else (
      true,
      record s {
        sessions = Dict.remove session_id s.sessions;
        tombstones = Dict.put session_id tombstone s.tombstones;
      },
    )

-- `d.get(k, 0)`
abbrev pub or_zero : Option ℕ → ℕ
or_zero none = 0
or_zero (some n) = n

unfoldable pub current_session_sequence : String → SessionRepository → ℕ
current_session_sequence session_id s = or_zero (Dict.get session_id s.session_sequences)

unfoldable pub current_agent_sequence : String → SessionRepository → ℕ
current_agent_sequence agent_id s = or_zero (Dict.get agent_id s.agent_sequences)

-- both positions, the touched session and the appended event
unfoldable pub append_event :
    SessionEvent → Session → SessionRepository → SessionEvent × SessionRepository
unfolding current_session_sequence current_agent_sequence
append_event e active s =
    let next_seq = current_session_sequence e.session_id s + 1 in
    let next_agent_seq = current_agent_sequence e.agent_id s + 1 in
    let persisted = record e { sequence_number = next_seq; agent_sequence = next_agent_seq } in
    (
      persisted,
      record s {
        sessions =
            Dict.put e.session_id (record active { last_activity_at = e.timestamp }) s.sessions;
        events = s.events ++ persisted ∷ [];
        session_sequences = Dict.put e.session_id next_seq s.session_sequences;
        agent_sequences = Dict.put e.agent_id next_agent_seq s.agent_sequences;
      },
    )

-- the checks and the step for an event of a session that is not ended
unfoldable pub record_in :
    SessionEvent
    → Option Session
    → SessionRepository
    → Result SessionError SessionEvent × SessionRepository
unfolding append_event
record_in e none s = (err (session_not_found e.session_id), s)
record_in e (some active) s =
    if not (active.agent_id == e.agent_id)
    then (err (session_binding e.session_id active.agent_id e.agent_id), s)
    else if not (nat_eq e.sequence_number 0)
    then (err value_error, s)
    else if not (nat_eq e.agent_sequence 0)
    then (err value_error, s)
    else let r = append_event e active s in (ok r.0, r.1)

unfoldable pub record_event :
    SessionEvent → SessionRepository → Result SessionError SessionEvent × SessionRepository
unfolding record_in
record_event e s = elim (Dict.get e.session_id s.tombstones) [
  | some tombstone ↦ (err (session_terminal e.session_id tombstone.agent_id e.agent_id), s)
  | none ↦ record_in e (Dict.get e.session_id s.sessions) s
]

-- what the loop of `list_eligible_events` keeps; before the first moment, the cutoff is 0
unfoldable pub is_eligible : HorizonQuery → SessionEvent → Bool
is_eligible q e =
    e.agent_id == q.agent_id
    && (elim q.scope [
      | AggregationScope.session ↦ opt_eq (some e.session_id) q.session_id
      | AggregationScope.agent ↦ true
    ])
    && not (leb e.agent_sequence q.baseline_agent_sequence)
    && not (ltb e.timestamp (q.evaluation_time - q.window_seconds))
    && not (ltb q.evaluation_time e.timestamp)

-- the key of the order
abbrev pub position : AggregationScope → SessionEvent → ℕ
position AggregationScope.agent e = e.agent_sequence
position AggregationScope.session e = e.sequence_number

unfoldable pub list_eligible_events : HorizonQuery → SessionRepository → List SessionEvent
unfolding is_eligible sorted
list_eligible_events q s = sorted (position q.scope) (filter (is_eligible q) s.events)

-- in the order of `(timestamp, sequence_number)`: by the number, then by the moment, since `sorted`
-- keeps the order of equal keys
unfoldable pub list_events : String → SessionRepository → List SessionEvent
unfolding sorted
list_events session_id s =
    sorted (λ e. e.timestamp)
      (sorted (λ e. e.sequence_number) (filter (λ e. e.session_id == session_id) s.events))

unfoldable pub prune_events : ℕ → SessionRepository → ℕ × SessionRepository
prune_events cutoff s =
    let kept = filter (λ e. leb cutoff e.timestamp) s.events in
    (length s.events - length kept, record s { events = kept })

abbrev pub decision_eq : Decision → Decision → Bool
decision_eq allow allow = true
decision_eq deny deny = true
decision_eq approval_required approval_required = true
decision_eq _ _ = false

-- an event whose final decision may become `decision`
abbrev pub may_become : Decision → Option Decision → Bool
may_become decision none = true
may_become decision (some d) = decision_eq d decision

-- the loop over the events: the first that matches is finalized or refused
unfoldable pub finalize_in :
    String → ℕ → Decision → List SessionEvent → Result SessionError (List SessionEvent)
finalize_in session_id sequence_number decision [] = err value_error
finalize_in session_id sequence_number decision (e ∷ es) =
    let rest = finalize_in session_id sequence_number decision es in
    if e.session_id == session_id && nat_eq e.sequence_number sequence_number
    then (if may_become decision e.final_decision
        then ok (record e { final_decision = some decision } ∷ es)
        else err value_error)
    else (elim rest [ ok es1 ↦ ok (e ∷ es1) | err x ↦ err x ])

abbrev pub with_events :
    SessionRepository
    → Result SessionError (List SessionEvent)
    → Result SessionError (Unit {0}) × SessionRepository
with_events s (ok es) = (ok tt, record s { events = es })
with_events s (err x) = (err x, s)

unfoldable pub update_event_final_decision :
    String → ℕ → Decision → SessionRepository → Result SessionError (Unit {0}) × SessionRepository
unfolding finalize_in
update_event_final_decision session_id sequence_number decision s =
    elim (Dict.get session_id s.tombstones) [
      | some tombstone ↦
          (err (session_terminal session_id tombstone.agent_id tombstone.agent_id), s)
      | none ↦
          if is_some (Dict.get session_id s.sessions)
          then with_events s (finalize_in session_id sequence_number decision s.events)
          else (err (session_not_found session_id), s)
    ]
