-- ===== src/Findings/Batches.antt =====
-- app/services/findings_service.py: the numbers that `record_new_findings` gives to the findings of
-- one agent.
use enterprise_agent_securit.Prelude.{
  ℕ, String, ◌≡◌, ◌+◌, refl, ap, Option, none, some, List, [], ◌∷◌, arith, Option-cases, inl, inr,
  All, length,
}
use mathlib.Core.Path.{subst}
use enterprise_agent_securit.Dict
use enterprise_agent_securit.Dict.{get-put_self}
use enterprise_agent_securit.Finding.{Finding}
use enterprise_agent_securit.Findings.{
  FindingsService, get_agent_sequence, assign, cons_some, record_finding, record_fresh,
  record_if_new, record_new_findings, next_sequence_for_agent,
}
use enterprise_agent_securit.Risk.Projection.{Contiguous}

-- the findings as the store returns them: of the agent, and recorded at `now`
abbrev pub RecordedAt : String → ℕ → List Finding → Type 0
RecordedAt agent_id now fs = All (λ f. (f.agent_id ≡ agent_id) × (f.recorded_at ≡ some now)) fs

record_fresh-next :
    (f : Finding) (now : ℕ) (s : FindingsService)
    → (record_fresh f now s).0 ≡ assign f (get_agent_sequence f.agent_id s + 1) now
unfolding record_fresh next_sequence_for_agent
record_fresh-next f now s = refl

get_agent_sequence-fresh :
    (f : Finding) (now : ℕ) (s : FindingsService)
    → get_agent_sequence f.agent_id (record_fresh f now s).1 ≡ get_agent_sequence f.agent_id s + 1
unfolding record_fresh next_sequence_for_agent get_agent_sequence
get_agent_sequence-fresh f now s =
    ground (arith, get-put_self f.agent_id (get_agent_sequence f.agent_id s + 1) s.agent_sequences)

-- What the loop does with a finding: nothing, or the finding gets the next number of its agent.
record_if_new-cases {ℓ} :
    (P : Option Finding × FindingsService → Type ℓ) (f : Finding) (now : ℕ) (s : FindingsService)
    → P (none, s)
    → P (some (record_fresh f now s).0, (record_fresh f now s).1)
    → P (record_if_new f now s)
unfolding record_if_new record_finding
record_if_new-cases P f now s kept fresh = elim (Option-cases (Dict.get f.finding_id s.findings)) [
  | inl e ↦ rw (record_if_new, e, record_finding, e) fresh
  | inr (existing, e) ↦ rw (record_if_new, e) kept
]

-- What `record_new_findings` returns for findings of one agent.
pub record NumbersOn (agent_id : String) (now : ℕ) (s after : FindingsService) (fs : List Finding)
    : Type 0 where
  pub contiguous : Contiguous (get_agent_sequence agent_id s) fs
  pub recorded : RecordedAt agent_id now fs
  pub advanced : get_agent_sequence agent_id after ≡ get_agent_sequence agent_id s + length fs

NumbersOn-cons :
    (agent_id : String) (now : ℕ) (s after last : FindingsService) (f : Finding) (fs : List Finding)
    → f.agent_id ≡ agent_id
    → f.recorded_at ≡ some now
    → f.evidence_sequence ≡ get_agent_sequence agent_id s + 1
    → get_agent_sequence agent_id after ≡ get_agent_sequence agent_id s + 1
    → NumbersOn agent_id now after last fs
    → NumbersOn agent_id now s last (f ∷ fs)
NumbersOn-cons agent_id now s after last f fs same at number next h = record {
  contiguous = (number, subst (λ n. Contiguous n fs) next h.contiguous);
  recorded = ((same, at), h.recorded);
  advanced = omega (arith, next, h.advanced);
}

pub record_new_findings-NumbersOn :
    (agent_id : String) (fs : List Finding) (now : ℕ) (s : FindingsService)
    → All (λ f. f.agent_id ≡ agent_id) fs
    → NumbersOn agent_id now s (record_new_findings fs now s).1 (record_new_findings fs now s).0
unfolding record_new_findings
record_new_findings-NumbersOn agent_id [] now s h = record {
  contiguous = tt;
  recorded = tt;
  advanced = omega arith;
}
record_new_findings-NumbersOn agent_id (f ∷ fs) now s h =
    record_if_new-cases
      (λ r.
        NumbersOn agent_id now r.1 (record_new_findings fs now r.1).1
          (record_new_findings fs now r.1).0
        → NumbersOn agent_id now s (record_new_findings fs now r.1).1
            (cons_some r.0 (record_new_findings fs now r.1).0))
      f now s (λ ih. ih)
      (λ ih. rw (record_fresh-next f now s) (
        NumbersOn-cons agent_id now s _ _ _ _ h.0 refl (ap (λ a. get_agent_sequence a s + 1) h.0)
          (subst (λ a. get_agent_sequence a (record_fresh f now s).1 ≡ get_agent_sequence a s + 1)
            h.0 (get_agent_sequence-fresh f now s))
          ih))
      (record_new_findings-NumbersOn agent_id fs now (record_if_new f now s).1 h.1)
