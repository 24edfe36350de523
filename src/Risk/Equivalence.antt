-- ===== src/Risk/Equivalence.antt =====
-- app/services/agent_risk_aggregate.py: what any sequence of deliveries leaves of the projection,
-- against its reconstruction.
use enterprise_agent_securit.Prelude.{
  ℕ, String, ◌+◌, ◌≤◌, ◌<◌, ◌≡◌, refl, true, false, List, [], ◌∷◌, ok, arith, eq_iff, ltb, length,
}
use enterprise_agent_securit.Watermark.{BaselineWatermark}
use enterprise_agent_securit.Finding.{Finding}
use enterprise_agent_securit.Risk.Aggregate.{
  AgentRiskAggregate, init, apply_finding, accept, max_sequence, recalculate, healthy,
}
use enterprise_agent_securit.Risk.Rebuild.{rebuild_from_findings}
use enterprise_agent_securit.Risk.Projection.{
  Reflects, accepted, Contiguous, apply_finding_cases, apply_finding-Reflects, init-Reflects,
  filter-All, le-max_sequence,
}

-- The projection and the accepted findings, after a sequence of deliveries, each with its time.
unfoldable pub deliver :
    List (Finding × ℕ) → AgentRiskAggregate → List Finding → AgentRiskAggregate × List Finding
deliver [] a fs = (a, fs)
deliver ((f, now) ∷ deliveries) a fs =
    deliver deliveries (apply_finding f now a).1 (accepted (apply_finding f now a).0 f fs)

pub deliver-Reflects :
    (w : BaselineWatermark) (ds : List (Finding × ℕ)) (a : AgentRiskAggregate) (fs : List Finding)
    → Reflects w a fs
    → Reflects w (deliver ds a fs).0 (deliver ds a fs).1
unfolding deliver
deliver-Reflects w [] a fs h = h
deliver-Reflects w ((f, now) ∷ ds) a fs h =
    deliver-Reflects w ds (apply_finding f now a).1 (accepted (apply_finding f now a).0 f fs)
      (apply_finding-Reflects w f now a fs h)

Reflects-rebuild :
    (w : BaselineWatermark) (now : ℕ) (a : AgentRiskAggregate) (fs : List Finding)
    → Reflects w a fs
    → rebuild_from_findings fs w now a ≡ (
      ok tt,
      record a { state = healthy; posture_version = a.posture_version + 1; assessed_at = now },
    )
unfolding rebuild_from_findings recalculate
Reflects-rebuild w now a fs h =
    rw
      (
        h.agent,
        filter-All _ fs h.evidence,
        h.score,
        h.level,
        h.counted,
        h.cursor,
        h.since,
        h.baseline,
        no_violation,
        rebuild_from_findings,
      )
      refl
  where
    no_violation :
        ltb (max_sequence w.baseline_evidence_sequence fs) w.baseline_evidence_sequence ≡ false
    no_violation = ground (arith, le-max_sequence w.baseline_evidence_sequence fs)

-- However findings are delivered to a fresh projection (again, out of order, of another agent, or
-- with gaps), reconstructing it from exactly the findings it accepted succeeds and changes nothing
-- but the state, which is healthy, the version and the time: counts, score, level and cursor are
-- those of the reconstruction.
pub projection_equivalence :
    (w : BaselineWatermark) (v : List String) (created now : ℕ) (ds : List (Finding × ℕ))
    → let (a, fs) = deliver ds (init w v created) [] in
      rebuild_from_findings fs w now a ≡ (
        ok tt,
        record a { state = healthy; posture_version = a.posture_version + 1; assessed_at = now },
      )
projection_equivalence w v created now ds =
    Reflects-rebuild w now _ _
      (deliver-Reflects w ds (init w v created) [] (init-Reflects w v created))

-- The findings that a fresh projection accepts, however findings are delivered to it, carry the
-- sequence numbers that follow the baseline's, without a gap and in order, and the cursor is the
-- last of them.
pub accepted-Contiguous :
    (w : BaselineWatermark) (v : List String) (created : ℕ) (ds : List (Finding × ℕ))
    → let (a, fs) = deliver ds (init w v created) [] in
      Contiguous w.baseline_evidence_sequence fs
      × (a.last_applied_sequence ≡ w.baseline_evidence_sequence + length fs)
accepted-Contiguous w v created ds =
    let r = deliver-Reflects w ds (init w v created) [] (init-Reflects w v created) in
    (r.contiguous, r.position)

applied-ignored :
    (f : Finding) (now : ℕ) (a : AgentRiskAggregate)
    → f.agent_id ≡ a.agent_id
    → a.baseline_evidence_sequence < f.evidence_sequence
    → f.evidence_sequence ≤ a.last_applied_sequence
    → apply_finding f now a ≡ (ok false, a)
unfolding apply_finding
applied-ignored f now a same past applied = ground (arith, eq_iff f.agent_id a.agent_id)

accept-ignored :
    (f : Finding) (now later : ℕ) (a : AgentRiskAggregate)
    → f.agent_id ≡ a.agent_id
    → a.baseline_evidence_sequence < f.evidence_sequence
    → apply_finding f later (accept f now a).1 ≡ (ok false, (accept f now a).1)
unfolding accept recalculate
accept-ignored f now later a same past =
    applied-ignored f later (accept f now a).1 (ground (arith, same)) (ground arith) (ground arith)

-- A finding that the projection accepted is ignored when it is delivered again: the call returns
-- False and changes nothing.
pub redelivery_ignored :
    (f : Finding) (now later : ℕ) (a : AgentRiskAggregate)
    → (apply_finding f now a).0 ≡ ok true
    → apply_finding f later (apply_finding f now a).1 ≡ (ok false, (apply_finding f now a).1)
redelivery_ignored f now later a =
    apply_finding_cases (λ r. r.0 ≡ ok true → apply_finding f later r.1 ≡ (ok false, r.1)) f now a
      (ground arith) (ground arith) (ground arith) (ground arith)
      (λ same past next after e. accept-ignored f now later a same past)
