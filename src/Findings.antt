-- ===== src/Findings.antt =====
-- app/services/findings_service.py: the store of findings, which allocates their sequence numbers.
-- Each method runs under the lock of the store and is one step; `datetime.now()` is an argument.
use enterprise_agent_securit.Prelude.{
  ℕ, String, ◌+◌, Bool, true, false, ◌&&◌, Option, none, some, List, [], ◌∷◌, leb, ltb, is_some,
  filter, if◌then◌else◌, ◌==◌,
}
use enterprise_agent_securit.Dict
use enterprise_agent_securit.Dict.{Dict}
use enterprise_agent_securit.Watermark.{unassigned_sequence}
use enterprise_agent_securit.Finding.{Finding}
pub mod Numbering
pub mod Recording
pub mod Operations
pub mod Repeats
pub mod Batches
pub mod Delivery

pub record FindingsService : Type 0 where
  pub findings : Dict Finding
  pub recorded_at : Dict ℕ
  pub agent_sequences : Dict ℕ

-- `d.get(k, default)` on a dict of numbers
abbrev pub or_default : ℕ → Option ℕ → ℕ
or_default default none = default
or_default default (some n) = n

unfoldable pub get_agent_sequence : String → FindingsService → ℕ
get_agent_sequence agent_id s = or_default 0 (Dict.get agent_id s.agent_sequences)

unfoldable pub next_sequence_for_agent : String → FindingsService → ℕ × FindingsService
unfolding get_agent_sequence
next_sequence_for_agent agent_id s =
    let seq = get_agent_sequence agent_id s + 1 in
    (seq, record s { agent_sequences = Dict.put agent_id seq s.agent_sequences })

-- `finding.model_copy(update={"evidence_sequence": …, "recorded_at": …})`
abbrev pub assign : Finding → ℕ → ℕ → Finding
assign f seq at = record f { evidence_sequence = seq; recorded_at = some at }

-- `self._recorded_at.setdefault(finding_id, now)`
abbrev pub set_default : String → ℕ → Dict ℕ → Dict ℕ
set_default k now d = if is_some (Dict.get k d) then d else Dict.put k now d

-- a finding whose identifier is not stored
unfoldable pub record_fresh : Finding → ℕ → FindingsService → Finding × FindingsService
unfolding next_sequence_for_agent
record_fresh f now s =
    let (seq, numbered) = next_sequence_for_agent f.agent_id s in
    let assigned = assign f seq now in
    (
      assigned,
      record numbered {
        findings = Dict.put f.finding_id assigned s.findings;
        recorded_at = Dict.put f.finding_id now s.recorded_at;
      },
    )

-- a finding whose identifier is stored: it keeps its number and its recording time
unfoldable pub record_again : Finding → Finding → ℕ → FindingsService → Finding × FindingsService
unfolding next_sequence_for_agent
record_again existing f now s =
    let (seq, numbered) =
      if ltb unassigned_sequence existing.evidence_sequence
      then (existing.evidence_sequence, s)
      else next_sequence_for_agent f.agent_id s in
    let assigned = assign f seq (or_default now (Dict.get existing.finding_id s.recorded_at)) in
    (
      assigned,
      record numbered {
        findings = Dict.put f.finding_id assigned s.findings;
        recorded_at = set_default f.finding_id now s.recorded_at;
      },
    )

unfoldable pub record_finding : Finding → ℕ → FindingsService → Finding × FindingsService
unfolding record_fresh record_again
record_finding f now s = elim (Dict.get f.finding_id s.findings) [
  | none ↦ record_fresh f now s
  | some existing ↦ record_again existing f now s
]

unfoldable pub record_findings : List Finding → ℕ → FindingsService → List Finding × FindingsService
unfolding record_finding
record_findings [] now s = ([], s)
record_findings (f ∷ fs) now s =
    let (assigned, s1) = record_finding f now s in
    let (rest, s2) = record_findings fs now s1 in (assigned ∷ rest, s2)

-- a finding of the list that `record_new_findings` is given, and what the loop has recorded after it
unfoldable pub record_if_new : Finding → ℕ → FindingsService → Option Finding × FindingsService
unfolding record_finding
record_if_new f now s = elim (Dict.get f.finding_id s.findings) [
  | none ↦ let (assigned, s1) = record_finding f now s in (some assigned, s1)
  | some existing ↦ (none, s)
]

abbrev pub cons_some {ℓ} : {A : Type ℓ} → Option A → List A → List A
cons_some none xs = xs
cons_some (some x) xs = x ∷ xs

unfoldable pub record_new_findings :
    List Finding → ℕ → FindingsService → List Finding × FindingsService
unfolding record_if_new
record_new_findings [] now s = ([], s)
record_new_findings (f ∷ fs) now s =
    let (recorded, s1) = record_if_new f now s in
    let (rest, s2) = record_new_findings fs now s1 in (cons_some recorded rest, s2)

unfoldable pub get_finding : String → FindingsService → Option Finding
get_finding finding_id s = Dict.get finding_id s.findings

-- `max(seqs) if seqs else 0` over the findings of the agent that were recorded by `at`
unfoldable pub highest_by : String → ℕ → Dict ℕ → List Finding → ℕ
highest_by agent_id at recorded [] = 0
highest_by agent_id at recorded (f ∷ fs) =
    let rest = highest_by agent_id at recorded fs in
    if f.agent_id == agent_id
      && leb (or_default at (Dict.get f.finding_id recorded)) at
      && ltb rest f.evidence_sequence
    then f.evidence_sequence
    else rest

-- `baseline_at` is the moment given, or the present one where none is given
unfoldable pub capture_evidence_baseline_sequence : String → ℕ → FindingsService → ℕ
unfolding highest_by
capture_evidence_baseline_sequence agent_id at s =
    highest_by agent_id at s.recorded_at (Dict.values s.findings)

unfoldable pub clear : FindingsService → FindingsService
clear s = record { findings = []; recorded_at = []; agent_sequences = [] }
