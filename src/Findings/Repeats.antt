-- ===== src/Findings/Repeats.antt =====
-- app/services/findings_service.py: findings that are derived again.
use enterprise_agent_securit.Prelude.{
  ℕ, String, ◌≡◌, ◌≤◌, is_some, true, refl, List, [], ◌∷◌, Option-cases, inl, inr, All, arith,
  count, Bool-cases, ◌==◌, eq_iff,
}
use mathlib.Core.Path.{subst}
use enterprise_agent_securit.Dict
use enterprise_agent_securit.Dict.{get-put, get-put_self, get-empty}
use enterprise_agent_securit.Finding.{Finding}
use enterprise_agent_securit.Findings.{
  FindingsService, record_finding, record_new_findings, record_if_new,
}
use enterprise_agent_securit.Findings.Recording.{record_finding-stored}

-- an identifier that is stored
abbrev pub Known : String → FindingsService → Type 0
Known i s = is_some (Dict.get i s.findings) ≡ true

record_finding-Known :
    (f : Finding) (now : ℕ) (s : FindingsService) (i : String)
    → Known i s
    → Known i (record_finding f now s).1
record_finding-Known f now s i h =
    rw ((record_finding-stored f now s).0)
      (ground (arith, get-put f.finding_id i (record_finding f now s).0 s.findings, h))

record_if_new-Known :
    (f : Finding) (now : ℕ) (s : FindingsService) (i : String)
    → Known i s
    → Known i (record_if_new f now s).1
unfolding record_if_new
record_if_new-Known f now s i h = elim (Option-cases (Dict.get f.finding_id s.findings)) [
  | inl e ↦ rw (record_if_new, e) (record_finding-Known f now s i h)
  | inr (existing, e) ↦ rw (record_if_new, e) h
]

record_if_new-Known_self :
    (f : Finding) (now : ℕ) (s : FindingsService) → Known f.finding_id (record_if_new f now s).1
unfolding record_if_new
record_if_new-Known_self f now s = elim (Option-cases (Dict.get f.finding_id s.findings)) [
  | inl e ↦
      rw
        (
          record_if_new,
          e,
          (record_finding-stored f now s).0,
          get-put_self f.finding_id (record_finding f now s).0 s.findings,
        )
        refl
  | inr (existing, e) ↦ rw (record_if_new, e, e) refl
]

record_new_findings-kept :
    (fs : List Finding) (now : ℕ) (s : FindingsService) (i : String)
    → Known i s
    → Known i (record_new_findings fs now s).1
unfolding record_new_findings
record_new_findings-kept [] now s i h = h
record_new_findings-kept (f ∷ fs) now s i h =
    record_new_findings-kept fs now (record_if_new f now s).1 i (record_if_new-Known f now s i h)

-- one of the findings has the identifier
abbrev pub Has : List Finding → String → Type 0
Has fs i = 1 ≤ count (λ f. f.finding_id == i) fs

record_new_findings-Known :
    (fs : List Finding) (now : ℕ) (s : FindingsService) (i : String)
    → Has fs i
    → Known i (record_new_findings fs now s).1
unfolding record_new_findings
record_new_findings-Known [] now s i h = ground arith
record_new_findings-Known (f ∷ fs) now s i h = elim (Bool-cases (f.finding_id == i)) [
  | inl e ↦ record_new_findings-kept fs now (record_if_new f now s).1 i (
      subst (λ k. Known k (record_if_new f now s).1) ((eq_iff f.finding_id i).0 e)
        (record_if_new-Known_self f now s))
  | inr e ↦ record_new_findings-Known fs now (record_if_new f now s).1 i (ground (arith, h))
]

all_Known :
    (fs gs : List Finding) (now : ℕ) (s : FindingsService)
    → All (λ g. Has fs g.finding_id) gs
    → All (λ g. Known g.finding_id (record_new_findings fs now s).1) gs
all_Known fs [] now s h = tt
all_Known fs (g ∷ gs) now s h =
    (record_new_findings-Known fs now s g.finding_id h.0, all_Known fs gs now s h.1)

record_new_findings-ignored :
    (fs : List Finding) (now : ℕ) (s : FindingsService)
    → All (λ f. Known f.finding_id s) fs
    → record_new_findings fs now s ≡ ([], s)
unfolding record_new_findings record_if_new
record_new_findings-ignored [] now s h = refl
record_new_findings-ignored (f ∷ fs) now s h =
    elim (Option-cases (Dict.get f.finding_id s.findings)) [
      | inl e ↦ ground (arith, h.0, e)
      | inr (existing, e) ↦
          rw (record_new_findings, record_if_new, e, record_new_findings-ignored fs now s h.1) refl
    ]

-- A detection that is derived again is no second piece of evidence: once findings were passed to
-- `record_new_findings`, passing findings with identifiers among theirs records nothing, returns the
-- empty list and leaves the store as it was.
pub record_new_findings_twice :
    (fs gs : List Finding) (now later : ℕ) (s : FindingsService)
    → All (λ g. Has fs g.finding_id) gs
    → record_new_findings gs later (record_new_findings fs now s).1
      ≡ ([], (record_new_findings fs now s).1)
record_new_findings_twice fs gs now later s h =
    record_new_findings-ignored gs later (record_new_findings fs now s).1 (all_Known fs gs now s h)
