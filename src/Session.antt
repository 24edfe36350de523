-- ===== src/Session.antt =====
-- app/models/session.py and app/models/session_event.py: sessions, the tombstones of ended sessions,
-- the recorded events and the query for those that a detection rule may use. Moments and durations
-- are numbers of one unit of time; `timestamp` has the value that the caller gave or the present one.
use enterprise_agent_securit.Prelude.{
  ℕ, String, Bool, true, false, not, ◌||◌, Option, none, some, is_some,
}
use enterprise_agent_securit.Text.{is_empty}
use enterprise_agent_securit.Authority.{Decision}
pub mod Repository
pub mod Service
pub mod Operations
pub mod Ownership
pub mod Recording
pub mod Preservation
pub mod Traces
pub mod Finality
pub mod Horizon
pub mod Counters
pub mod Advancing
pub mod Sequences

pub data TerminalReason : Type 0 where
  explicit_end idle_timeout : TerminalReason

pub record TerminalSessionTombstone : Type 0 where
  pub session_id : String
  pub agent_id : String
  pub terminated_at : ℕ
  pub terminal_reason : TerminalReason

pub record Session : Type 0 where
  pub session_id : String
  pub agent_id : String
  pub started_at : ℕ
  pub last_activity_at : ℕ

-- `SessionTerminalError` and `SessionBindingError` carry the session, its owner and the agent that
-- asked; the texts of the messages are left out. `validation_error` is pydantic's `ValidationError`.
pub data SessionError : Type 0 where
  session_already_exists : String → SessionError
  session_not_found : String → SessionError
  session_binding : String → String → String → SessionError
  session_terminal : String → String → String → SessionError
  value_error : SessionError
  validation_error : SessionError

-- the fields of `TerminalSessionTombstone` that are refused: both identifiers have `min_length=1`
abbrev pub tombstone_refused : String → String → Bool
tombstone_refused session_id agent_id = is_empty session_id || is_empty agent_id

-- `unassigned_sequence` of an event that is not recorded is 0
pub record SessionEvent : Type 0 where
  pub session_id : String
  pub agent_id : String
  pub tool_id : String
  pub tool_version : Option String
  pub decision : Decision
  pub sequence_number : ℕ
  pub agent_sequence : ℕ
  pub final_decision : Option Decision
  pub timestamp : ℕ

pub data AggregationScope : Type 0 where
  session agent : AggregationScope

pub record HorizonQuery : Type 0 where
  pub agent_id : String
  pub scope : AggregationScope
  pub session_id : Option String
  pub window_seconds : ℕ
  pub evaluation_time : ℕ
  pub baseline_agent_sequence : ℕ

-- `not self.session_id`
abbrev pub missing : Option String → Bool
missing none = true
missing (some s) = is_empty s

-- whether `validate_scope_parameters` accepts the query
abbrev pub scope_parameters_agree : HorizonQuery → Bool
scope_parameters_agree q = elim q.scope [
  | session ↦ not (missing q.session_id)
  | agent ↦ not (is_some q.session_id)
]
