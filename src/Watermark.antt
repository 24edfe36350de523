-- ===== src/Watermark.antt =====
-- app/models/watermark.py: the boundary of an enforcement epoch.
use enterprise_agent_securit.Prelude.{ℕ, String, Option}

abbrev pub unassigned_sequence : ℕ
unassigned_sequence = 0

pub record BaselineWatermark : Type 0 where
  pub agent_id : String
  pub baseline_at : Option ℕ
  pub baseline_evidence_sequence : ℕ
  pub baseline_agent_sequence : ℕ
