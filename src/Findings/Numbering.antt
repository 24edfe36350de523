-- ===== src/Findings/Numbering.antt =====
-- app/services/findings_service.py: the numbers that the store gives to the findings of an agent.
use enterprise_agent_securit.Prelude.{ℕ, String, ◌≤◌, ◌≡◌, sym, ap, ◌∙◌, false, some, arith, ◌==◌}
use mathlib.Core.Path.{subst}
use enterprise_agent_securit.Dict
use enterprise_agent_securit.Dict.{put_cases, get-put, get-put_self, get-empty}
use enterprise_agent_securit.Finding.{Finding}
use enterprise_agent_securit.Findings.{FindingsService, get_agent_sequence}

-- Every stored finding stands under its identifier, has a number between 1 and the sequence of its
-- agent and the recording time of the store, and no two findings of an agent share a number.
pub record IsNumbered (s : FindingsService) : Type 0 where
  pub keyed : (i : String) (f : Finding) → Dict.get i s.findings ≡ some f → f.finding_id ≡ i
  pub assigned :
      (i : String) (f : Finding) → Dict.get i s.findings ≡ some f → 1 ≤ f.evidence_sequence
  pub bounded :
      (i : String) (f : Finding)
      → Dict.get i s.findings ≡ some f
      → f.evidence_sequence ≤ get_agent_sequence f.agent_id s
  pub timed :
      (i : String) (f : Finding)
      → Dict.get i s.findings ≡ some f
      → Dict.get i s.recorded_at ≡ f.recorded_at
  pub unique :
      (i j : String) (f g : Finding)
      → Dict.get i s.findings ≡ some f
      → Dict.get j s.findings ≡ some g
      → f.agent_id ≡ g.agent_id
      → f.evidence_sequence ≡ g.evidence_sequence
      → i ≡ j

-- The store after one finding is written under its identifier.
module _ (s : FindingsService) (k : String) (g0 : Finding) where
  pub written_cases {ℓ} :
      (P : Type ℓ) (i : String) (g : Finding)
      → Dict.get i (Dict.put k g0 s.findings) ≡ some g
      → (k ≡ i → g0 ≡ g → P)
      → ((k == i) ≡ false → Dict.get i s.findings ≡ some g → P)
      → P
  written_cases P i g = put_cases P k i g0 g s.findings

  module _ (recorded sequences : Dict.Dict ℕ) (h : IsNumbered s) where
    abbrev pub written : FindingsService
    written = record {
      findings = Dict.put k g0 s.findings;
      recorded_at = recorded;
      agent_sequences = sequences;
    }

    pub written-IsNumbered :
        g0.finding_id ≡ k
        → 1 ≤ g0.evidence_sequence
        → g0.evidence_sequence ≤ get_agent_sequence g0.agent_id written
        → ((a : String) → get_agent_sequence a s ≤ get_agent_sequence a written)
        → Dict.get k recorded ≡ g0.recorded_at
        → ((i : String) → (k == i) ≡ false → Dict.get i recorded ≡ Dict.get i s.recorded_at)
        → ((j : String) (g : Finding)
            → Dict.get j s.findings ≡ some g
            → g.agent_id ≡ g0.agent_id
            → g.evidence_sequence ≡ g0.evidence_sequence
            → j ≡ k)
        → IsNumbered written
    written-IsNumbered named positive within grown timed_here timed_there alone = record {
      keyed = λ i f e.
          written_cases (f.finding_id ≡ i) i f e
            (λ same eq. sym (ap (λ x. x.finding_id) eq) ∙ named ∙ same)
            (λ apart old. h.keyed i f old);
      assigned = λ i f e.
          written_cases (1 ≤ f.evidence_sequence) i f e
            (λ same eq. rw (ap (λ x. x.evidence_sequence) (sym eq)) positive)
            (λ apart old. h.assigned i f old);
      bounded = λ i f e.
          written_cases (f.evidence_sequence ≤ get_agent_sequence f.agent_id written) i f e
            (λ same eq.
              subst (λ x. x.evidence_sequence ≤ get_agent_sequence x.agent_id written) eq within)
            (λ apart old. ground (arith, h.bounded i f old, grown f.agent_id));
      timed = λ i f e.
          written_cases (Dict.get i recorded ≡ f.recorded_at) i f e
            (λ same eq.
              ap (λ j. Dict.get j recorded) (sym same) ∙ timed_here ∙ ap (λ x. x.recorded_at) eq)
            (λ apart old. timed_there i apart ∙ h.timed i f old);
      unique = λ i j f g ei ej agents numbers.
          written_cases (i ≡ j) i f ei
            (λ same eq.
              written_cases (i ≡ j) j g ej (λ same' eq'. sym same ∙ same')
                (λ apart old.
                  sym same
                  ∙ sym (
                      alone j g old (sym agents ∙ ap (λ x. x.agent_id) (sym eq))
                        (sym numbers ∙ ap (λ x. x.evidence_sequence) (sym eq)))))
            (λ apart old.
              written_cases (i ≡ j) j g ej
                (λ same' eq'.
                  alone i f old (agents ∙ ap (λ x. x.agent_id) (sym eq'))
                    (numbers ∙ ap (λ x. x.evidence_sequence) (sym eq'))
                  ∙ same')
                (λ apart' old'. h.unique i j f g old old' agents numbers));
    }
