-- ===== src/Risk/Operations.antt =====
-- app/services/risk_aggregator.py: the operations of the aggregator as values, and what keeps a
-- property of every projection.
use enterprise_agent_securit.Prelude.{
  ℕ, String, ◌≡◌, sym, ◌∙◌, Bool, true, false, Option, none, some, List, [], ◌∷◌, eq_iff, ◌==◌,
  Bool-cases, Option-cases, false≢true, inl, inr,
}
use enterprise_agent_securit.Dict
use enterprise_agent_securit.Dict.{get-put, get-put_self}
use enterprise_agent_securit.Watermark.{BaselineWatermark}
use enterprise_agent_securit.Finding.{Finding}
use enterprise_agent_securit.Risk.Aggregate.{AgentRiskAggregate, apply_finding}
use enterprise_agent_securit.Risk.Rebuild
use enterprise_agent_securit.Risk.Aggregator.{
  RiskAggregator, ingest_finding, mark_stale, reconcile_agent, reset_to_baseline, clear, or_created,
  stale_if_raised, set_projection,
}

pub data Operation : Type 0 where
  ingest : Finding → ℕ → Operation
  mark : String → ℕ → Operation
  reconcile : String → List Finding → BaselineWatermark → ℕ → Operation
  reset : BaselineWatermark → ℕ → Operation
  clear_all : Operation

unfoldable pub run : Operation → RiskAggregator → RiskAggregator
run (ingest f now) s = (ingest_finding f now s).1
run (mark agent_id now) s = mark_stale agent_id now s
run (reconcile agent_id fs w now) s = (reconcile_agent agent_id fs w now s).1
run (reset w now) s = (reset_to_baseline w now s).1
run clear_all s = clear s

unfoldable pub run_all : List Operation → RiskAggregator → RiskAggregator
run_all [] s = s
run_all (op ∷ ops) s = run_all ops (run op s)

-- whether an operation recovers the projection of an agent, or drops it
abbrev pub recovers : String → Operation → Bool
recovers agent_id (ingest f now) = false
recovers agent_id (mark _ now) = false
recovers agent_id (reconcile target fs w now) = target == agent_id
recovers agent_id (reset w now) = w.agent_id == agent_id
recovers agent_id clear_all = true

-- To keep a property of the projection of one agent, or of its absence.
module _ (Q : Option AgentRiskAggregate → Type 0) (agent_id : String)
    (applied : (f : Finding) (now : ℕ) (a : AgentRiskAggregate)
      → Q (some a)
      → Q (some (stale_if_raised now (apply_finding f now a)).1))
    (marked : (now : ℕ) (a : AgentRiskAggregate)
      → Q (some a)
      → Q (some (Rebuild.mark_stale now a))) where
  set_projection-keeps :
      (k : String) (a : AgentRiskAggregate) (s : RiskAggregator)
      → (k ≡ agent_id → Q (some a))
      → Q (Dict.get agent_id s.projections)
      → Q (Dict.get agent_id (set_projection k a s).projections)
  set_projection-keeps k a s p h = elim (Bool-cases (k == agent_id)) [
    | inl e ↦ rw (get-put k agent_id a s.projections, e) (p ((eq_iff k agent_id).0 e))
    | inr e ↦ rw (get-put k agent_id a s.projections, e) h
  ]

  ingest_finding-keeps :
      (f : Finding) (now : ℕ) (s : RiskAggregator)
      → Q (Dict.get agent_id s.projections)
      → Q (Dict.get agent_id (ingest_finding f now s).1.projections)
  unfolding ingest_finding
  ingest_finding-keeps f now s h = elim (Option-cases (Dict.get f.agent_id s.projections)) [
    | inl e ↦ rw (e, ingest_finding) h
    | inr (a, e) ↦
        rw (e, ingest_finding)
          (set_projection-keeps f.agent_id (stale_if_raised now (apply_finding f now a)).1 s
            (λ same. applied f now a (rw (sym e, same) h)) h)
  ]

  mark_stale-keeps :
      (k : String) (now : ℕ) (s : RiskAggregator)
      → Q (Dict.get agent_id s.projections)
      → Q (Dict.get agent_id (mark_stale k now s).projections)
  unfolding mark_stale
  mark_stale-keeps k now s h = elim (Option-cases (Dict.get k s.projections)) [
    | inl e ↦ rw (e, mark_stale) h
    | inr (a, e) ↦
        rw (e, mark_stale)
          (set_projection-keeps k (Rebuild.mark_stale now a) s
            (λ same. marked now a (rw (sym e, same) h)) h)
  ]

  -- without a recovery of that agent
  pub run-keeps_unrecovered :
      (op : Operation) (s : RiskAggregator)
      → recovers agent_id op ≡ false
      → Q (Dict.get agent_id s.projections)
      → Q (Dict.get agent_id (run op s).projections)
  unfolding run reconcile_agent reset_to_baseline
  run-keeps_unrecovered (ingest f now) s e h = ingest_finding-keeps f now s h
  run-keeps_unrecovered (mark k now) s e h = mark_stale-keeps k now s h
  run-keeps_unrecovered (reconcile k fs w now) s e h =
      set_projection-keeps k _ s (λ same. absurd (false≢true (sym e ∙ (eq_iff k agent_id).1 same)))
        h
  run-keeps_unrecovered (reset w now) s e h =
      set_projection-keeps w.agent_id _ s
        (λ same. absurd (false≢true (sym e ∙ (eq_iff w.agent_id agent_id).1 same))) h
  run-keeps_unrecovered clear_all s e h = absurd (false≢true (sym e))

  -- with any operation, if a recovery establishes the property
  pub run-keeps :
      ((fs : List Finding) (w : BaselineWatermark) (now : ℕ) (a : AgentRiskAggregate)
        → Q (some (Rebuild.rebuild_from_findings fs w now a).1))
      → ((w : BaselineWatermark) (now : ℕ) (a : AgentRiskAggregate)
          → Q (some (Rebuild.reset_to_baseline w now a).1))
      → Q none
      → (op : Operation) (s : RiskAggregator) → Q (Dict.get agent_id s.projections)
      → Q (Dict.get agent_id (run op s).projections)
  unfolding run reconcile_agent reset_to_baseline clear Dict.get
  run-keeps rebuilt was_reset cleared (ingest f now) s h = ingest_finding-keeps f now s h
  run-keeps rebuilt was_reset cleared (mark k now) s h = mark_stale-keeps k now s h
  run-keeps rebuilt was_reset cleared (reconcile k fs w now) s h =
      set_projection-keeps k _ s
        (λ _. rebuilt fs w now (or_created (Dict.get k s.projections) w s.rule_vocabulary now)) h
  run-keeps rebuilt was_reset cleared (reset w now) s h =
      set_projection-keeps w.agent_id _ s
        (λ _.
          was_reset w now (or_created (Dict.get w.agent_id s.projections) w s.rule_vocabulary now))
        h
  run-keeps rebuilt was_reset cleared clear_all s h = cleared
