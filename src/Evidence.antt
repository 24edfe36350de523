-- ===== src/Evidence.antt =====
-- app/models/execution_receipt.py: the receipt of an execution. The digest of an output is computed
-- before a receipt is written and is an argument here. Moments and durations are numbers.
use enterprise_agent_securit.Prelude.{
  ℕ, String, Bool, true, false, ◌||◌, Option, none, some, nat_eq,
}
use enterprise_agent_securit.Text.{is_empty}
pub mod Service
pub mod Reconciler
pub mod Steps
pub mod Operations
pub mod Writes
pub mod Bounds
pub mod Retention
pub mod Deadlines

pub data ExecutionStatus : Type 0 where
  started succeeded failed timeout interrupted unknown : ExecutionStatus

pub data ReconciliationReason : Type 0 where
  process_restart execution_timeout worker_lost evidence_unavailable : ReconciliationReason

pub record ExecutionReceipt : Type 0 where
  pub receipt_id : String
  pub grant_id : String
  pub session_id : String
  pub agent_id : String
  pub request_id : String
  pub tool_id : String
  pub tool_version : String
  pub implementation_id : String
  pub binding_hash : String
  pub capability_profile_id : String
  pub capability_digest : String
  pub declared_timeout_seconds : ℕ
  pub status : ExecutionStatus
  pub started_at : ℕ
  pub completed_at : Option ℕ
  pub reconciled_at : Option ℕ
  pub duration_ms : Option ℕ
  pub error_type : Option String
  pub error_code : Option String
  pub reconciliation_reason : Option ReconciliationReason
  pub output_digest : Option String

-- `status == ExecutionStatus.STARTED`
abbrev pub is_started : ExecutionStatus → Bool
is_started started = true
is_started _ = false

-- `status in ALLOWED_TERMINAL_STATUSES`
abbrev pub is_allowed_terminal : ExecutionStatus → Bool
is_allowed_terminal started = false
is_allowed_terminal unknown = false
is_allowed_terminal _ = true

-- whether the fields refuse the receipt: `min_length=1` and `gt=0`
unfoldable pub is_malformed : ExecutionReceipt → Bool
is_malformed r =
    is_empty r.receipt_id
    || is_empty r.grant_id
    || is_empty r.session_id
    || is_empty r.agent_id
    || is_empty r.request_id
    || is_empty r.tool_id
    || is_empty r.tool_version
    || is_empty r.implementation_id
    || is_empty r.binding_hash
    || is_empty r.capability_profile_id
    || is_empty r.capability_digest
    || nat_eq r.declared_timeout_seconds 0
