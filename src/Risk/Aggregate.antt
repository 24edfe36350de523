-- ===== src/Risk/Aggregate.antt =====
-- app/services/agent_risk_aggregate.py: the materialized risk projection of one agent. Each method
-- runs under the aggregate's lock and is one step; `datetime.now()` is an argument. What was written
-- before an exception stays written, so the state comes back beside an error.
use enterprise_agent_securit.Prelude.{
  ℕ, String, ◌+◌, ◌*◌, Bool, true, false, not, ◌&&◌, ◌||◌, Option, none, some, List, [], ◌∷◌,
  Result, ok, err, leb, ltb, if◌then◌else◌, ◌==◌,
}
use enterprise_agent_securit.Dict
use enterprise_agent_securit.Dict.{Dict}
use enterprise_agent_securit.Text.{is_empty}
use enterprise_agent_securit.Watermark.{BaselineWatermark, unassigned_sequence}
use enterprise_agent_securit.Enforcement.{RiskLevel}
use enterprise_agent_securit.Finding.{Severity, Finding, recorded_or_created, is_active}
use enterprise_agent_securit.Risk.{severity_weights, level_for_score}

pub data PostureState : Type 0 where
  uninitialized healthy stale : PostureState

-- `ValueError` for another agent's or an unassigned finding, and `ProjectionInvariantError`
pub data ProjectionError : Type 0 where
  agent_mismatch unassigned_finding projection_invariant : ProjectionError

-- `counts_by_severity`: a dict with exactly the four severities as keys
pub record SeverityCounts : Type 0 where
  pub low : ℕ
  pub medium : ℕ
  pub high : ℕ
  pub critical : ℕ

-- the three counters that findings contribute to
pub record Counts : Type 0 where
  pub counts_by_severity : SeverityCounts
  pub counts_by_rule : Dict ℕ
  pub finding_count : ℕ

abbrev pub zero_counts : Counts
zero_counts = record {
  counts_by_severity = record { low = 0; medium = 0; high = 0; critical = 0 };
  counts_by_rule = [];
  finding_count = 0;
}

pub record AgentRiskAggregate : Type 0 where
  pub agent_id : String
  pub baseline_at : Option ℕ
  pub baseline_evidence_sequence : ℕ
  pub last_applied_sequence : ℕ
  pub rule_vocabulary : List String
  pub counts : Counts
  pub risk_score : ℕ
  pub risk_level : RiskLevel
  pub state : PostureState
  pub posture_version : ℕ
  pub assessed_at : ℕ

abbrev pub or_now : Option ℕ → ℕ → ℕ
or_now none now = now
or_now (some at) now = at

unfoldable pub init : BaselineWatermark → List String → ℕ → AgentRiskAggregate
init w rule_vocabulary now = record {
  agent_id = w.agent_id;
  baseline_at = w.baseline_at;
  baseline_evidence_sequence = w.baseline_evidence_sequence;
  last_applied_sequence = w.baseline_evidence_sequence;
  rule_vocabulary = rule_vocabulary;
  counts = zero_counts;
  risk_score = 0;
  risk_level = RiskLevel.low;
  state = healthy;
  posture_version = 1;
  assessed_at = or_now w.baseline_at now;
}

-- `_assert_cursor_invariant`: whether it raises
abbrev pub cursor_violated : AgentRiskAggregate → Bool
cursor_violated a = ltb a.last_applied_sequence a.baseline_evidence_sequence

unfoldable pub increment : Severity → SeverityCounts → SeverityCounts
increment Severity.low c = record c { low = c.low + 1 }
increment Severity.medium c = record c { medium = c.medium + 1 }
increment Severity.high c = record c { high = c.high + 1 }
increment Severity.critical c = record c { critical = c.critical + 1 }

abbrev pub text_in : String → List String → Bool
text_in s [] = false
text_in s (t ∷ ts) = s == t || text_in s ts

abbrev pub count_of : Option ℕ → ℕ
count_of none = 0
count_of (some n) = n

-- The contribution of one finding, if its status is active.
unfoldable pub contribute : List String → Counts → Finding → Counts
unfolding increment
contribute vocabulary c f =
    if is_active f.status
    then (record {
      counts_by_severity = increment f.severity c.counts_by_severity;
      counts_by_rule =
          if not (is_empty f.rule_id) && text_in f.rule_id vocabulary
          then Dict.put f.rule_id (count_of (Dict.get f.rule_id c.counts_by_rule) + 1)
              c.counts_by_rule
          else c.counts_by_rule;
      finding_count = c.finding_count + 1;
    })
    else c

-- the sum of `_recalculate_score_and_level`
unfoldable pub weighted : SeverityCounts → ℕ
weighted c =
    c.low * severity_weights Severity.low
    + c.medium * severity_weights Severity.medium
    + c.high * severity_weights Severity.high
    + c.critical * severity_weights Severity.critical

-- `_recalculate_score_and_level`
unfoldable pub recalculate : AgentRiskAggregate → AgentRiskAggregate
unfolding weighted level_for_score
recalculate a = record a {
  risk_score = weighted a.counts.counts_by_severity;
  risk_level = level_for_score (weighted a.counts.counts_by_severity);
}

abbrev pub at_or_before : ℕ → Option ℕ → Bool
at_or_before time none = false
at_or_before time (some baseline) = leb time baseline

-- the steps of `apply_finding` that follow the acceptance of a finding
unfoldable pub accept :
    Finding → ℕ → AgentRiskAggregate → Result ProjectionError Bool × AgentRiskAggregate
unfolding contribute recalculate
accept f now a =
    let moved = record a { last_applied_sequence = f.evidence_sequence } in
    let counted =
      if is_active f.status
      then recalculate (record moved { counts = contribute a.rule_vocabulary a.counts f })
      else moved in
    if cursor_violated moved
    then (err projection_invariant, moved)
    else (ok true, record counted { posture_version = a.posture_version + 1; assessed_at = now })

unfoldable pub apply_finding :
    Finding → ℕ → AgentRiskAggregate → Result ProjectionError Bool × AgentRiskAggregate
unfolding accept
apply_finding f now a =
    if not (f.agent_id == a.agent_id)
    then (err agent_mismatch, a)
    else if leb f.evidence_sequence unassigned_sequence
    then (err unassigned_finding, a)
    else if leb f.evidence_sequence a.baseline_evidence_sequence
    then (ok false, a)
    else if leb f.evidence_sequence a.last_applied_sequence
    then (ok false, a)
    else if at_or_before (recorded_or_created f) a.baseline_at
    then (ok false, record a { state = stale; assessed_at = now })
    else if ltb (a.last_applied_sequence + 1) f.evidence_sequence
    then (ok false, record a { state = stale; assessed_at = now })
    else accept f now a

-- the filter of `rebuild_from_findings`
abbrev pub is_post_baseline : String → BaselineWatermark → Finding → Bool
is_post_baseline agent_id w f =
    f.agent_id == agent_id
    && not (leb f.evidence_sequence w.baseline_evidence_sequence)
    && not (at_or_before (recorded_or_created f) w.baseline_at)

-- `max(f.evidence_sequence for f in findings)`, or the given number if there is none
unfoldable pub max_sequence : ℕ → List Finding → ℕ
max_sequence least [] = least
max_sequence least (f ∷ fs) =
    max_sequence (if ltb least f.evidence_sequence then f.evidence_sequence else least) fs

unfoldable pub contribute_all : List String → Counts → List Finding → Counts
contribute_all vocabulary c [] = c
contribute_all vocabulary c (f ∷ fs) = contribute_all vocabulary (contribute vocabulary c f) fs
