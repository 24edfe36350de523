-- ===== src/Findings/Recording.antt =====
-- app/services/findings_service.py: what each recording keeps of the numbering.
use enterprise_agent_securit.Prelude.{
  ℕ, String, ◌+◌, ◌≤◌, ◌≡◌, refl, sym, ap, ◌∙◌, true, some, arith, eq_iff, eq_refl, ◌==◌,
  Bool-cases, Option-cases, inl, inr, if◌then◌else◌, ltb,
}
use enterprise_agent_securit.Dict
use enterprise_agent_securit.Dict.{get-put, get-put_self, get-empty}
use enterprise_agent_securit.Finding.{Finding}
use enterprise_agent_securit.Findings.{
  FindingsService, or_default, get_agent_sequence, next_sequence_for_agent, record_finding,
  record_fresh, record_again, get_finding, assign, set_default,
}
use enterprise_agent_securit.Findings.Numbering.{IsNumbered, written_cases, written-IsNumbered}

pub get_agent_sequence-next :
    (agent other : String) (s : FindingsService)
    → get_agent_sequence other (next_sequence_for_agent agent s).1
      ≡ (if agent == other then get_agent_sequence other s + 1 else get_agent_sequence other s)
unfolding next_sequence_for_agent get_agent_sequence
get_agent_sequence-next agent other s = ground (
  arith,
  eq_iff agent other,
  get-put agent other (get_agent_sequence agent s + 1) s.agent_sequences,
)

-- A stored finding that has a number keeps it.
pub record_again_lem :
    (existing f : Finding) (now : ℕ) (s : FindingsService)
    → 1 ≤ existing.evidence_sequence
    → record_again existing f now s ≡ (
      assign f existing.evidence_sequence
          (or_default now (Dict.get existing.finding_id s.recorded_at)),
      record s {
        findings =
            Dict.put f.finding_id
              (assign f existing.evidence_sequence
                (or_default now (Dict.get existing.finding_id s.recorded_at)))
              s.findings;
        recorded_at = set_default f.finding_id now s.recorded_at;
      },
    )
unfolding record_again
record_again_lem existing f now s numbered = rw (ltb_true, record_again) refl
  where
    ltb_true : ltb 0 existing.evidence_sequence ≡ true
    ltb_true = ground (arith, numbered)

get-set_default :
    (k j : String) (now : ℕ) (d : Dict.Dict ℕ)
    → Dict.get j (set_default k now d)
      ≡ (if k == j then some (or_default now (Dict.get k d)) else Dict.get j d)
get-set_default k j now d = elim (Option-cases (Dict.get k d)) [
  | inl e ↦ ground (arith, get-put k j now d)
  | inr (v, e) ↦ ground (arith, eq_iff k j)
]

module _ (f : Finding) (now : ℕ) (s : FindingsService) (h : IsNumbered s) where
  pub record_fresh-IsNumbered : IsNumbered (record_fresh f now s).1
  unfolding record_fresh next_sequence_for_agent get_agent_sequence
  record_fresh-IsNumbered =
      written-IsNumbered s f.finding_id (assign f (get_agent_sequence f.agent_id s + 1) now)
        (Dict.put f.finding_id now s.recorded_at)
        (Dict.put f.agent_id (get_agent_sequence f.agent_id s + 1) s.agent_sequences) h refl
        (omega arith)
        (ground
          (arith, get-put_self f.agent_id (get_agent_sequence f.agent_id s + 1) s.agent_sequences))
        (λ a. ground (arith, get_agent_sequence-next f.agent_id a s))
        (get-put_self f.finding_id now s.recorded_at)
        (λ i apart. rw (get-put f.finding_id i now s.recorded_at, apart) refl)
        (λ j g e agents numbers. ground (arith, h.bounded j g e))

  -- the finding that is stored under the identifier, of the same agent
  module _ (existing : Finding) (stored : get_finding f.finding_id s ≡ some existing)
      (same : existing.agent_id ≡ f.agent_id) where
    pub record_again-IsNumbered : IsNumbered (record_again existing f now s).1
    unfolding get_finding get_agent_sequence
    record_again-IsNumbered = rw (record_again_lem existing f now s positive) (
        written-IsNumbered s f.finding_id
          (assign f existing.evidence_sequence
            (or_default now (Dict.get existing.finding_id s.recorded_at)))
          (set_default f.finding_id now s.recorded_at) s.agent_sequences h refl positive
          (ground (arith, h.bounded f.finding_id existing stored)) (λ a. omega arith)
          (rw
            (
              get-set_default f.finding_id f.finding_id now s.recorded_at,
              eq_refl f.finding_id,
              h.keyed f.finding_id existing stored,
            )
            refl)
          (λ i apart. rw (get-set_default f.finding_id i now s.recorded_at, apart) refl)
          (λ j g e agents numbers.
            h.unique j f.finding_id g existing e stored (agents ∙ sym same) numbers))
      where
        positive : 1 ≤ existing.evidence_sequence
        positive = h.assigned f.finding_id existing stored

-- Each stored finding belongs to the agent that `owner` gives for its identifier.
abbrev pub IsOwned : (String → String) → FindingsService → Type 0
IsOwned owner s = (i : String) (f : Finding) → Dict.get i s.findings ≡ some f → f.agent_id ≡ owner i

-- The finding that is returned is the one that is stored, and it is the given one but for its number
-- and its recording time.
pub record_finding-stored :
    (f : Finding) (now : ℕ) (s : FindingsService)
    → let (assigned, after) = record_finding f now s in
      (after.findings ≡ Dict.put f.finding_id assigned s.findings)
      × (assigned.finding_id ≡ f.finding_id)
      × (assigned.agent_id ≡ f.agent_id)
unfolding record_finding record_fresh record_again next_sequence_for_agent
record_finding-stored f now s = elim (Option-cases (Dict.get f.finding_id s.findings)) [
  | inl e ↦ rw (e, record_finding) (refl, refl, refl)
  | inr (existing, e) ↦ elim (Bool-cases (ltb 0 existing.evidence_sequence)) [
    | inl e1 ↦ rw (e, record_finding, e1) (refl, refl, refl)
    | inr e1 ↦ rw (e, record_finding, e1) (refl, refl, refl)
  ]
]

module _ (owner : String → String) (f : Finding) (now : ℕ) (s : FindingsService)
    (of_owner : f.agent_id ≡ owner f.finding_id) (owned : IsOwned owner s) where
  pub record_finding-IsOwned : IsOwned owner (record_finding f now s).1
  record_finding-IsOwned i g e =
      let stored = record_finding-stored f now s in
      let e1 : Dict.get i (Dict.put f.finding_id (record_finding f now s).0 s.findings) ≡ some g =
        ap (Dict.get i) (sym stored.0) ∙ e in
      written_cases s f.finding_id (record_finding f now s).0 (g.agent_id ≡ owner i) i g e1
        (λ same eq. ap (λ x. x.agent_id) (sym eq) ∙ stored.2 ∙ of_owner ∙ ap owner same)
        (λ apart old. owned i g old)

  pub record_finding-IsNumbered : IsNumbered s → IsNumbered (record_finding f now s).1
  unfolding record_finding get_finding
  record_finding-IsNumbered h = elim (Option-cases (get_finding f.finding_id s)) [
    | inl e ↦ rw (e, record_finding) (record_fresh-IsNumbered f now s h)
    | inr (existing, e) ↦
        rw (e, record_finding)
          (record_again-IsNumbered f now s h existing e
            (owned f.finding_id existing e ∙ sym of_owner))
  ]
