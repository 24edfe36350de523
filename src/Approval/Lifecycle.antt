-- ===== src/Approval/Lifecycle.antt =====
-- app/repositories/in_memory/approval_continuation_repository.py: one continuation through any calls
-- of the repository.
use enterprise_agent_securit.Prelude.{
  ℕ, String, ◌≡◌, ◌≢◌, ◌≤◌, ◌<◌, ◌∙◌, ap, refl, true, false, ◌==◌, Option, none, some, ok, arith,
  eq_iff, is_some, Option-cases, Bool-cases, inl, inr,
}
use enterprise_agent_securit.Dict
use enterprise_agent_securit.Dict.{get-put, get-put_self}
use enterprise_agent_securit.Approval.{
  ContinuationState, pending, approved, rejected, expired, consumed, state_eq, ApprovalContinuation,
  Continuations, allowed_continuation_transitions, metadata_invalid, is_unnamed, update_fields,
  create_continuation, commit_transition, transition_continuation,
}

-- One call; `grant_id` is not created again.
pub data Step (grant_id : String) (s : Continuations) : Continuations → Type 0 where
  creating :
      (g : ApprovalContinuation) → g.grant_id ≢ grant_id → Step grant_id s (create_continuation g s)
  moving :
      (id : String) (from_state to_state : ContinuationState) (consumed_at : Option ℕ)
      (approved_by : Option String)
      → Step grant_id s (transition_continuation id from_state to_state consumed_at approved_by s).1

pub data Reach (grant_id : String) (s : Continuations) : Continuations → Type 0 where
  here : Reach grant_id s s
  next : {t u : Continuations} → Reach grant_id s t → Step grant_id t u → Reach grant_id s u

-- a continuation without what its transitions write
abbrev pub frozen : ApprovalContinuation → ApprovalContinuation
frozen g = record g { state = pending; approved_by = none; consumed_at = none }

abbrev pub rank : ContinuationState → ℕ
rank pending = 0
rank approved = 1
rank rejected = 2
rank expired = 2
rank consumed = 2

-- what the fields of a continuation say in each state
abbrev pub Fits : ContinuationState → Option String → Option ℕ → Type 0
Fits pending approved_by consumed_at = (approved_by ≡ none) × (consumed_at ≡ none)
Fits approved approved_by consumed_at = (is_unnamed approved_by ≡ false) × (consumed_at ≡ none)
Fits rejected approved_by consumed_at = consumed_at ≡ none
Fits expired approved_by consumed_at = (approved_by ≡ none) × (consumed_at ≡ none)
Fits consumed approved_by consumed_at =
    (is_unnamed approved_by ≡ false) × (is_some consumed_at ≡ true)

abbrev pub WellFormed : ApprovalContinuation → Type 0
WellFormed g = Fits g.state g.approved_by g.consumed_at

state_eq_lem : (a b : ContinuationState) → state_eq a b ≡ true → a ≡ b
state_eq_lem a b e = ground arith

-- what one call can make of a continuation: nothing, or an allowed transition with valid arguments
module _ (P : Option ApprovalContinuation → Type 0) (j : String) where
  pub transition_continuation_cases :
      (id : String) (from_state to_state : ContinuationState) (consumed_at : Option ℕ)
      (approved_by : Option String) (s : Continuations)
      → P (Dict.get j s)
      → ((g : ApprovalContinuation)
          → Dict.get j s ≡ some g
          → allowed_continuation_transitions g.state to_state ≡ true
          → metadata_invalid to_state consumed_at approved_by ≡ false
          → P (some (update_fields to_state consumed_at approved_by g)))
      → P (Dict.get j (transition_continuation id from_state to_state consumed_at approved_by s).1)
  unfolding transition_continuation commit_transition
  transition_continuation_cases id from to ca ab s kept moved =
      elim (Bool-cases (allowed_continuation_transitions from to)) [
        | inr e ↦ rw (transition_continuation, e) kept
        | inl legal ↦ elim (Bool-cases (metadata_invalid to ca ab)) [
          | inl e ↦ rw (transition_continuation, legal, e) kept
          | inr valid ↦ elim (Option-cases (Dict.get id s)) [
            | inl e ↦ rw (transition_continuation, legal, valid, commit_transition, e) kept
            | inr (g, e) ↦ elim (Bool-cases (state_eq g.state from)) [
              | inr f ↦ rw (transition_continuation, legal, valid, commit_transition, e, f) kept
              | inl f ↦
                  rw (transition_continuation, legal, valid, commit_transition, e, f)
                    (elim (Bool-cases (id == j)) [
                      | inr o ↦ rw (get-put id j (update_fields to ca ab g) s, o) kept
                      | inl o ↦
                          rw (get-put id j (update_fields to ca ab g) s, o)
                            (moved g (rw ((eq_iff id j).0 o) at e)
                              (rw (state_eq_lem g.state from f) legal) valid)
                    ])
            ]
          ]
        ]
      ]

update_fields-WellFormed :
    (to_state : ContinuationState) (consumed_at : Option ℕ) (approved_by : Option String)
    (g : ApprovalContinuation)
    → allowed_continuation_transitions g.state to_state ≡ true
    → metadata_invalid to_state consumed_at approved_by ≡ false
    → WellFormed g
    → WellFormed (update_fields to_state consumed_at approved_by g)
unfolding allowed_continuation_transitions metadata_invalid update_fields
update_fields-WellFormed to_state ca ab g legal valid h = ground arith

update_fields-frozen :
    (to_state : ContinuationState) (consumed_at : Option ℕ) (approved_by : Option String)
    (g : ApprovalContinuation)
    → frozen (update_fields to_state consumed_at approved_by g) ≡ frozen g
unfolding update_fields
update_fields-frozen pending ca ab g = refl
update_fields-frozen approved ca ab g = refl
update_fields-frozen rejected ca ab g = refl
update_fields-frozen expired ca ab g = refl
update_fields-frozen consumed ca ab g = refl

update_fields-rank :
    (to_state : ContinuationState) (consumed_at : Option ℕ) (approved_by : Option String)
    (g : ApprovalContinuation)
    → allowed_continuation_transitions g.state to_state ≡ true
    → rank g.state < rank (update_fields to_state consumed_at approved_by g).state
unfolding allowed_continuation_transitions update_fields
update_fields-rank to_state ca ab g legal = ground arith

-- what a continuation has become: the same decision, at or past the same state, with fields that fit
abbrev pub Continues : ApprovalContinuation → Option ApprovalContinuation → Type 0
Continues g o =
    (h : ApprovalContinuation) × (o ≡ some h)
    × (frozen h ≡ frozen g)
    × (rank g.state ≤ rank h.state)
    × WellFormed h

Step-Continues :
    {j : String} {s t : Continuations} (g : ApprovalContinuation)
    → Step j s t
    → Continues g (Dict.get j s)
    → Continues g (Dict.get j t)
unfolding create_continuation
Step-Continues {j} {s} g (creating new fresh) c =
    ground (arith, get-put new.grant_id j new s, eq_iff new.grant_id j)
Step-Continues {j} {s} g (moving id from to ca ab) (h, found, same, later, fits) =
    transition_continuation_cases (Continues g) j id from to ca ab s (h, found, same, later, fits)
      λ h' found' legal valid.
        let e : h' ≡ h = cc in
        (
          update_fields to ca ab h',
          refl,
          update_fields-frozen to ca ab h' ∙ ap frozen e ∙ same,
          omega (arith, later, ap (λ x. rank x.state) e, update_fields-rank to ca ab h' legal),
          update_fields-WellFormed to ca ab h' legal valid (rw e fits),
        )

-- A well-formed continuation, through any calls of the repository that do not create its identifier
-- again, stays in the repository with every field of the frozen decision as it was, its state never
-- goes back, and its remaining fields fit the state: in particular, where it is approved or consumed
-- it names the operator who approved it.
pub approval_continues :
    {j : String} {s t : Continuations} (g : ApprovalContinuation)
    → Dict.get j s ≡ some g
    → WellFormed g
    → Reach j s t
    → (h : ApprovalContinuation) × (Dict.get j t ≡ some h)
      × (frozen h ≡ frozen g)
      × (rank g.state ≤ rank h.state)
      × WellFormed h
approval_continues g found fits here = (g, found, refl, omega arith, fits)
approval_continues g found fits (next steps step) =
    Step-Continues g step (approval_continues g found fits steps)

abbrev IsConsumed : Option ApprovalContinuation → Type 0
IsConsumed none = ⊥
IsConsumed (some g) = g.state ≡ consumed

Step-IsConsumed :
    {j : String} {s t : Continuations}
    → Step j s t
    → IsConsumed (Dict.get j s)
    → IsConsumed (Dict.get j t)
unfolding create_continuation allowed_continuation_transitions
Step-IsConsumed {j} {s} (creating new fresh) c =
    ground (arith, get-put new.grant_id j new s, eq_iff new.grant_id j)
Step-IsConsumed {j} {s} (moving id from to ca ab) c =
    transition_continuation_cases IsConsumed j id from to ca ab s c
      λ g found legal valid. absurd (ground (arith, found))

Reach-IsConsumed :
    {j : String} {s t : Continuations}
    → Reach j s t
    → IsConsumed (Dict.get j s)
    → IsConsumed (Dict.get j t)
Reach-IsConsumed here c = c
Reach-IsConsumed (next steps step) c = Step-IsConsumed step (Reach-IsConsumed steps c)

committed-IsConsumed :
    (j : String) (from : ContinuationState) (ca : Option ℕ) (ab : Option String) (s : Continuations)
    → (transition_continuation j from consumed ca ab s).0 ≡ ok true
    → IsConsumed (Dict.get j (transition_continuation j from consumed ca ab s).1)
unfolding transition_continuation commit_transition update_fields
committed-IsConsumed j from ca ab s h = elim (Option-cases (Dict.get j s)) [
  | inl e ↦ ground (arith, e)
  | inr (g, e) ↦ ground (arith, e, get-put_self j (update_fields consumed ca ab g) s)
]

consumed_refused :
    (j : String) (from : ContinuationState) (ca : Option ℕ) (ab : Option String) (s : Continuations)
    → IsConsumed (Dict.get j s)
    → (transition_continuation j from consumed ca ab s).0 ≢ ok true
unfolding transition_continuation commit_transition allowed_continuation_transitions
consumed_refused j from ca ab s h = ground arith

-- A continuation is consumed at most once: after a call that consumes it, and after any calls that do
-- not create its identifier again, no call that consumes it returns True.
pub consumed_once :
    (j : String) (from from' : ContinuationState) (at at' : Option ℕ) (by by' : Option String)
    (s t : Continuations)
    → (transition_continuation j from consumed at by s).0 ≡ ok true
    → Reach j (transition_continuation j from consumed at by s).1 t
    → (transition_continuation j from' consumed at' by' t).0 ≢ ok true
consumed_once j from from' at at' by by' s t done steps =
    consumed_refused j from' at' by' t
      (Reach-IsConsumed steps (committed-IsConsumed j from at by s done))
