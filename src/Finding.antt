-- ===== src/Finding.antt =====
-- app/models/finding.py: a finding, its severity, category and status. The default of `rule_id`, which
-- the validator takes from `rule_name`, is applied before a finding exists.
use enterprise_agent_securit.Prelude.{ℕ, String, Bool, true, false, Option, none, some, List}

pub data Severity : Type 0 where
  low medium high critical : Severity

pub data FindingCategory : Type 0 where
  prompt_injection data_exfiltration privilege_escalation unauthorized_tool : FindingCategory
  sensitive_file_access browser_abuse secret_leakage multi_step_attack unknown : FindingCategory

pub data FindingStatus : Type 0 where
  open_finding acknowledged resolved false_positive : FindingStatus

pub record Finding : Type 0 where
  pub finding_id : String
  pub session_id : String
  pub agent_id : String
  pub rule_id : String
  pub rule_name : String
  pub severity : Severity
  pub category : FindingCategory
  pub status : FindingStatus
  pub description : String
  pub created_at : ℕ
  pub recorded_at : Option ℕ
  pub evidence_event_sequences : List ℕ
  pub recovery_generation : ℕ
  pub evidence_sequence : ℕ

-- `finding.recorded_at`, or `finding.created_at` where it is None
abbrev pub recorded_or_created : Finding → ℕ
recorded_or_created f = elim f.recorded_at [ none ↦ f.created_at | some at ↦ at ]

-- `finding.status in ACTIVE_STATUSES`
abbrev pub is_active : FindingStatus → Bool
is_active open_finding = true
is_active acknowledged = true
is_active resolved = false
is_active false_positive = false
