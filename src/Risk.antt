-- ===== src/Risk.antt =====
-- app/services/risk_service.py: the weights of the severities, the score of a list of findings and
-- the level of a score.
pub mod Aggregate
pub mod Rebuild
pub mod Projection
pub mod Equivalence
pub mod Counting
pub mod Aggregator
pub mod Operations
pub mod Staleness
pub mod Completeness
use enterprise_agent_securit.Prelude.{ℕ, ◌+◌, List, [], ◌∷◌, leb, if◌then◌else◌}
use enterprise_agent_securit.Enforcement.{RiskLevel}
use enterprise_agent_securit.Finding.{Severity, Finding}

-- `SEVERITY_WEIGHTS`
abbrev pub severity_weights : Severity → ℕ
severity_weights Severity.low = 10
severity_weights Severity.medium = 25
severity_weights Severity.high = 50
severity_weights Severity.critical = 100

unfoldable pub score_findings : List Finding → ℕ
score_findings [] = 0
score_findings (f ∷ fs) = severity_weights f.severity + score_findings fs

unfoldable pub level_for_score : ℕ → RiskLevel
level_for_score risk_score =
    if leb 100 risk_score
    then RiskLevel.critical
    else if leb 50 risk_score
    then RiskLevel.high
    else if leb 25 risk_score
    then RiskLevel.medium
    else RiskLevel.low
