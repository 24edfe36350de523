-- ===== src/Approval.antt =====
-- app/models/approval_continuation.py and
-- app/repositories/in_memory/approval_continuation_repository.py: durable approvals that await a
-- single claim. `create_continuation` and `transition_continuation` each run under the repository's
-- lock; the checks before the lock read the arguments alone. A parameter value is its text.
pub mod Lifecycle
use enterprise_agent_securit.Prelude.{
  ℕ, String, Bool, true, false, not, ◌||◌, Option, none, some, List, Result, ok, err, if◌then◌else◌,
  is_some,
}
use enterprise_agent_securit.Dict
use enterprise_agent_securit.Dict.{Dict}
use enterprise_agent_securit.Text.{is_blank}

pub data ContinuationState : Type 0 where
  pending approved rejected expired consumed : ContinuationState

abbrev pub state_eq : ContinuationState → ContinuationState → Bool
state_eq pending pending = true
state_eq approved approved = true
state_eq rejected rejected = true
state_eq expired expired = true
state_eq consumed consumed = true
state_eq _ _ = false

-- `(from_state, to_state) in ALLOWED_CONTINUATION_TRANSITIONS`
unfoldable pub allowed_continuation_transitions : ContinuationState → ContinuationState → Bool
allowed_continuation_transitions pending approved = true
allowed_continuation_transitions pending rejected = true
allowed_continuation_transitions pending expired = true
allowed_continuation_transitions approved consumed = true
allowed_continuation_transitions _ _ = false

pub record ApprovalContinuation : Type 0 where
  pub grant_id : String
  pub session_id : String
  pub agent_id : String
  pub tool_id : String
  pub tool_version : String
  pub execution_parameters : List (String × String)
  pub originating_audit_event_id : String
  pub risk_score : ℕ
  pub required_response : String
  pub enforcement_epoch : ℕ
  pub state : ContinuationState
  pub created_at : ℕ
  pub expires_at : ℕ
  pub approved_by : Option String
  pub consumed_at : Option ℕ
  pub capability_profile_id : Option String
  pub capability_digest : Option String

-- `InvalidContinuationTransitionError`
pub data ContinuationError : Type 0 where
  invalid_continuation_transition : ContinuationError

-- `not approved_by or not approved_by.strip()`
abbrev pub is_unnamed : Option String → Bool
is_unnamed none = true
is_unnamed (some operator) = is_blank operator

-- the checks of the arguments that belong to the target state: whether one fails
unfoldable pub metadata_invalid : ContinuationState → Option ℕ → Option String → Bool
metadata_invalid pending consumed_at approved_by = false
metadata_invalid approved consumed_at approved_by = is_unnamed approved_by || is_some consumed_at
metadata_invalid rejected consumed_at approved_by = is_some consumed_at
metadata_invalid expired consumed_at approved_by = is_some approved_by || is_some consumed_at
metadata_invalid consumed consumed_at approved_by = not (is_some consumed_at)

abbrev pub or_kept : Option String → Option String → Option String
or_kept none kept = kept
or_kept (some operator) kept = some operator

-- `grant.model_copy(update=update_fields)`
unfoldable pub update_fields :
    ContinuationState → Option ℕ → Option String → ApprovalContinuation → ApprovalContinuation
update_fields pending consumed_at approved_by g = record g { state = pending }
update_fields approved consumed_at approved_by g = record g {
  state = approved;
  approved_by = approved_by;
}
update_fields rejected consumed_at approved_by g = record g {
  state = rejected;
  approved_by = or_kept approved_by g.approved_by;
}
update_fields expired consumed_at approved_by g = record g { state = expired }
update_fields consumed consumed_at approved_by g = record g {
  state = consumed;
  consumed_at = consumed_at;
}

-- `_grants`
abbrev pub Continuations : Type 0
Continuations = Dict ApprovalContinuation

unfoldable pub create_continuation : ApprovalContinuation → Continuations → Continuations
create_continuation g s = Dict.put g.grant_id g s

abbrev pub get_continuation : String → Continuations → Option ApprovalContinuation
get_continuation grant_id s = Dict.get grant_id s

-- the part under the lock: compare-and-set on the state
unfoldable pub commit_transition :
    String
    → ContinuationState
    → ContinuationState
    → Option ℕ
    → Option String
    → Continuations
    → Result ContinuationError Bool × Continuations
unfolding update_fields
commit_transition grant_id from_state to_state consumed_at approved_by s =
    elim (Dict.get grant_id s) [
      | none ↦ (ok false, s)
      | some g ↦
          if not (state_eq g.state from_state)
          then (ok false, s)
          else (ok true, Dict.put grant_id (update_fields to_state consumed_at approved_by g) s)
    ]

unfoldable pub transition_continuation :
    String
    → ContinuationState
    → ContinuationState
    → Option ℕ
    → Option String
    → Continuations
    → Result ContinuationError Bool × Continuations
unfolding commit_transition
transition_continuation grant_id from_state to_state consumed_at approved_by s =
    if not (allowed_continuation_transitions from_state to_state)
    then (err invalid_continuation_transition, s)
    else if metadata_invalid to_state consumed_at approved_by
    then (err invalid_continuation_transition, s)
    else commit_transition grant_id from_state to_state consumed_at approved_by s
