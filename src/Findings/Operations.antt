-- ===== src/Findings/Operations.antt =====
-- app/services/findings_service.py: the calls of the store as values, and what holds after any
-- sequence of them.
use enterprise_agent_securit.Prelude.{
  ℕ, String, ◌≡◌, ◌≤◌, some, List, [], ◌∷◌, Option-cases, inl, inr, All, ◌∙◌, sym,
}
use mathlib.Core.Option.{none-ne-some}
use enterprise_agent_securit.Dict
use enterprise_agent_securit.Dict.{get-put, get-put_self, get-empty}
use enterprise_agent_securit.Finding.{Finding}
use enterprise_agent_securit.Findings.{
  FindingsService, clear, record_finding, record_findings, record_new_findings, record_if_new,
}
use enterprise_agent_securit.Findings.Numbering.{IsNumbered}
use enterprise_agent_securit.Findings.Recording.{
  IsOwned, record_finding-IsNumbered, record_finding-IsOwned,
}

pub data Operation : Type 0 where
  record_one : Finding → ℕ → Operation
  record_many : List Finding → ℕ → Operation
  record_new : List Finding → ℕ → Operation
  clear_all : Operation

unfoldable pub run : Operation → FindingsService → FindingsService
run (record_one f now) s = (record_finding f now s).1
run (record_many fs now) s = (record_findings fs now s).1
run (record_new fs now) s = (record_new_findings fs now s).1
run clear_all s = clear s

unfoldable pub run_all : List Operation → FindingsService → FindingsService
run_all [] s = s
run_all (op ∷ ops) s = run_all ops (run op s)

-- the findings that an operation is given
abbrev pub given : Operation → List Finding
given (record_one f now) = f ∷ []
given (record_many fs now) = fs
given (record_new fs now) = fs
given clear_all = []

-- Every identifier has one agent, in all the findings that are given: `owner` of the identifier.
abbrev pub Respects : (String → String) → List Operation → Type 0
Respects owner ops = All (λ op. All (λ f. f.agent_id ≡ owner f.finding_id) (given op)) ops

module _ (owner : String → String) where
  abbrev IsSound : FindingsService → Type 0
  IsSound s = IsNumbered s × IsOwned owner s

  record_finding-IsSound :
      (f : Finding) (now : ℕ) (s : FindingsService)
      → f.agent_id ≡ owner f.finding_id
      → IsSound s
      → IsSound (record_finding f now s).1
  record_finding-IsSound f now s e h = (
    record_finding-IsNumbered owner f now s e h.1 h.0,
    record_finding-IsOwned owner f now s e h.1,
  )

  record_findings-IsSound :
      (fs : List Finding) (now : ℕ) (s : FindingsService)
      → All (λ f. f.agent_id ≡ owner f.finding_id) fs
      → IsSound s
      → IsSound (record_findings fs now s).1
  unfolding record_findings
  record_findings-IsSound [] now s e h = h
  record_findings-IsSound (f ∷ fs) now s e h =
      record_findings-IsSound fs now (record_finding f now s).1 e.1
        (record_finding-IsSound f now s e.0 h)

  record_if_new-IsSound :
      (f : Finding) (now : ℕ) (s : FindingsService)
      → f.agent_id ≡ owner f.finding_id
      → IsSound s
      → IsSound (record_if_new f now s).1
  unfolding record_if_new
  record_if_new-IsSound f now s e h = elim (Option-cases (Dict.get f.finding_id s.findings)) [
    | inl e1 ↦ rw (record_if_new, e1) (record_finding-IsSound f now s e h)
    | inr (existing, e1) ↦ rw (record_if_new, e1) h
  ]

  record_new_findings-IsSound :
      (fs : List Finding) (now : ℕ) (s : FindingsService)
      → All (λ f. f.agent_id ≡ owner f.finding_id) fs
      → IsSound s
      → IsSound (record_new_findings fs now s).1
  unfolding record_new_findings
  record_new_findings-IsSound [] now s e h = h
  record_new_findings-IsSound (f ∷ fs) now s e h =
      record_new_findings-IsSound fs now (record_if_new f now s).1 e.1
        (record_if_new-IsSound f now s e.0 h)

  none_stored {ℓ} : (P : Type ℓ) (i : String) (f : Finding) → Dict.get i [] ≡ some f → P
  none_stored P i f e = absurd (none-ne-some f (sym (get-empty i) ∙ e))

  clear-IsSound : (s : FindingsService) → IsSound (clear s)
  unfolding clear
  clear-IsSound s = (
    record {
      keyed = λ i f e. none_stored (f.finding_id ≡ i) i f e;
      assigned = λ i f e. none_stored (1 ≤ f.evidence_sequence) i f e;
      bounded = λ i f e. none_stored _ i f e;
      timed = λ i f e. none_stored _ i f e;
      unique = λ i j f g e. none_stored _ i f e;
    },
    λ i f e. none_stored (f.agent_id ≡ owner i) i f e,
  )

  run-IsSound :
      (op : Operation) (s : FindingsService)
      → All (λ f. f.agent_id ≡ owner f.finding_id) (given op)
      → IsSound s
      → IsSound (run op s)
  unfolding run
  run-IsSound (record_one f now) s e h = record_finding-IsSound f now s e.0 h
  run-IsSound (record_many fs now) s e h = record_findings-IsSound fs now s e h
  run-IsSound (record_new fs now) s e h = record_new_findings-IsSound fs now s e h
  run-IsSound clear_all s e h = clear-IsSound s

  run_all-IsSound :
      (ops : List Operation) (s : FindingsService)
      → Respects owner ops
      → IsSound s
      → IsSound (run_all ops s)
  unfolding run_all
  run_all-IsSound [] s e h = h
  run_all-IsSound (op ∷ ops) s e h = run_all-IsSound ops (run op s) e.1 (run-IsSound op s e.0 h)

-- After any sequence of calls on a new store, in which every finding identifier goes with one agent,
-- every stored finding stands under its own identifier with a number between 1 and the sequence of
-- its agent and with the recording time that the store keeps for it, and no two findings of an
-- agent have the same number.
pub run_all-IsNumbered :
    (owner : String → String) (ops : List Operation) (s : FindingsService)
    → Respects owner ops
    → IsNumbered (run_all ops (clear s))
run_all-IsNumbered owner ops s e = (run_all-IsSound owner ops (clear s) e (clear-IsSound owner s)).0
