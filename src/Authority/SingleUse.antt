-- ===== src/Authority/SingleUse.antt =====
-- app/runtime/execution_authority.py: the calls of the authority as a step relation, and the grants
-- that are no longer outstanding.
use enterprise_agent_securit.Prelude.{
  ℕ, String, ◌+◌, ◌≡◌, ◌≢◌, Option, none, some, Result, ok, err, arith, eq_iff, eq_refl,
}
use enterprise_agent_securit.Dict
use enterprise_agent_securit.Dict.{
  get-put, get-remove, get-remove_self, get-drop_where, get-copy_where,
}
use enterprise_agent_securit.Text.{◌⧺◌}
use enterprise_agent_securit.Enforcement.Repository as EnforcementRepository
use enterprise_agent_securit.Authority.{
  Decision, ExecutionBinding, RuntimeExecutionGrant, OutstandingGrant, IssuancePlane,
  ExecutionAuthority, ExecutionRefusalReason, prune, is_past,
}
use enterprise_agent_securit.Authority.Signing.{Payload}
use enterprise_agent_securit.Authority.Issue.{
  issue, suspend_issuance, resume_issuance, consume_grant, outstanding_grant_count, belongs_to,
  entry,
}
use enterprise_agent_securit.Authority.Claim.{
  Presented, grant, verify_authenticity, require_claimable_locked, verify_grant, claim_grant,
  claim_checked, verify_checked,
}

-- the grant is not among the outstanding ones
abbrev pub IsSpent : String → ExecutionAuthority → Type 0
IsSpent id s = Dict.get id s.outstanding ≡ none

prune-IsSpent :
    (id : String) (now : ℕ) (s : ExecutionAuthority) → IsSpent id s → IsSpent id (prune now s)
unfolding prune
prune-IsSpent id now s h = ground (arith, get-drop_where (is_past now) id s.outstanding)

locked-IsSpent :
    (id : String) (g : RuntimeExecutionGrant) (requested : ExecutionBinding) (now : ℕ)
    (s : ExecutionAuthority)
    → IsSpent id s
    → IsSpent id (require_claimable_locked g requested now s).1
unfolding require_claimable_locked
locked-IsSpent id g requested now s h =
    ground (arith, prune-IsSpent id now s, get-remove g.grant_id id (prune now s).outstanding)

suspend-IsSpent :
    (id agent_id : String) (plane : IssuancePlane) (s : ExecutionAuthority)
    → IsSpent id s
    → IsSpent id (suspend_issuance agent_id plane s).1
unfolding suspend_issuance
suspend-IsSpent id agent_id plane s h =
    ground (arith, get-drop_where (belongs_to agent_id) id s.outstanding)

resume-outstanding :
    (agent_id : String) (plane : IssuancePlane) (s : ExecutionAuthority)
    → (resume_issuance agent_id plane s).outstanding ≡ s.outstanding
unfolding resume_issuance
resume-outstanding agent_id plane s = ground arith

checked-IsSpent :
    (id : String) (r : Result ExecutionRefusalReason RuntimeExecutionGrant)
    (requested : ExecutionBinding) (now : ℕ) (s : ExecutionAuthority)
    → IsSpent id s
    → IsSpent id (claim_checked r requested now s).1
      × IsSpent id (verify_checked r requested now s).1
unfolding claim_checked verify_checked
checked-IsSpent id (err reason) requested now s h = (h, h)
checked-IsSpent id (ok g) requested now s h = ground (
  arith,
  locked-IsSpent id g requested now s,
  get-remove g.grant_id id (require_claimable_locked g requested now s).1.outstanding,
)

module _ (canonical_json : ExecutionBinding → String) (mac : Payload → String) where
  issue-IsSpent :
      (id : String) (repository : Option EnforcementRepository.Repository)
      (binding : ExecutionBinding) (decision : Decision) (agent_id session_id : String)
      (expected_epoch : Option ℕ) (profile digest : Option String) (now : ℕ) (uuid : String)
      (s : ExecutionAuthority)
      → "grant-" ⧺ uuid ≢ id
      → IsSpent id s
      → IsSpent id
          (issue canonical_json mac repository binding decision agent_id session_id expected_epoch
            profile digest now uuid s).1
  unfolding issue
  issue-IsSpent id repository binding decision agent_id session_id expected_epoch profile digest now
        uuid s fresh h =
      ground (
        arith,
        prune-IsSpent id now s,
        get-put ("grant-" ⧺ uuid) id (entry (now + s.ttl) agent_id session_id)
            (prune now s).outstanding,
        eq_iff ("grant-" ⧺ uuid) id,
      )

  -- One call of the authority that issues no grant under the identifier `id`.
  pub data Step (id : String) (s : ExecutionAuthority) : ExecutionAuthority → Type 0 where
    issuing :
        (repository : Option EnforcementRepository.Repository) (binding : ExecutionBinding)
        (decision : Decision) (agent_id session_id : String) (expected_epoch : Option ℕ)
        (profile digest : Option String) (now : ℕ) (uuid : String)
        → "grant-" ⧺ uuid ≢ id
        → Step id s
            (issue canonical_json mac repository binding decision agent_id session_id expected_epoch
              profile digest now uuid s).1
    verifying :
        (presented : Presented) (requested : ExecutionBinding) (now : ℕ)
        → Step id s (verify_grant canonical_json mac presented requested now s).1
    claiming :
        (presented : Presented) (requested : ExecutionBinding) (now : ℕ)
        → Step id s (claim_grant canonical_json mac presented requested now s).1
    consuming : (g : RuntimeExecutionGrant) → Step id s (consume_grant g s)
    suspending :
        (agent_id : String) (plane : IssuancePlane)
        → Step id s (suspend_issuance agent_id plane s).1
    resuming :
        (agent_id : String) (plane : IssuancePlane) → Step id s (resume_issuance agent_id plane s)
    counting : (now : ℕ) → Step id s (outstanding_grant_count now s).1

  pub data Reach (id : String) (s : ExecutionAuthority) : ExecutionAuthority → Type 0 where
    here : Reach id s s
    next : {t u : ExecutionAuthority} → Reach id s t → Step id t u → Reach id s u

  Step-IsSpent :
      {id : String} {s t : ExecutionAuthority} → Step id s t → IsSpent id s → IsSpent id t
  unfolding verify_grant claim_grant outstanding_grant_count consume_grant
  Step-IsSpent {id} {s} (issuing repository binding decision a b e p d now uuid fresh) h =
      issue-IsSpent id repository binding decision a b e p d now uuid s fresh h
  Step-IsSpent {id} {s} (verifying presented requested now) h =
      (checked-IsSpent id (verify_authenticity canonical_json mac presented s) requested now s h).1
  Step-IsSpent {id} {s} (claiming presented requested now) h =
      (checked-IsSpent id (verify_authenticity canonical_json mac presented s) requested now s h).0
  Step-IsSpent {id} {s} (consuming g) h = ground (arith, get-remove g.grant_id id s.outstanding)
  Step-IsSpent {id} {s} (suspending agent_id plane) h = suspend-IsSpent id agent_id plane s h
  Step-IsSpent {id} {s} (resuming agent_id plane) h = rw (resume-outstanding agent_id plane s) h
  Step-IsSpent {id} {s} (counting now) h = prune-IsSpent id now s h

  Reach-IsSpent :
      {id : String} {s t : ExecutionAuthority} → Reach id s t → IsSpent id s → IsSpent id t
  Reach-IsSpent here h = h
  Reach-IsSpent (next steps step) h = Step-IsSpent step (Reach-IsSpent steps h)

  -- a grant that is not outstanding is refused
  spent_refused :
      (g : RuntimeExecutionGrant) (requested : ExecutionBinding) (now : ℕ) (s : ExecutionAuthority)
      → IsSpent g.grant_id s
      → (claim_grant canonical_json mac (grant g) requested now s).0 ≢ ok tt
  unfolding claim_grant verify_authenticity require_claimable_locked
  spent_refused g requested now s h = ground (arith, prune-IsSpent g.grant_id now s h)

  claimed-IsSpent :
      (g : RuntimeExecutionGrant) (requested : ExecutionBinding) (now : ℕ) (s : ExecutionAuthority)
      → (claim_grant canonical_json mac (grant g) requested now s).0 ≡ ok tt
      → IsSpent g.grant_id (claim_grant canonical_json mac (grant g) requested now s).1
  unfolding claim_grant verify_authenticity require_claimable_locked
  claimed-IsSpent g requested now s h =
      ground (arith, get-remove g.grant_id g.grant_id (prune now s).outstanding, eq_refl g.grant_id)

  -- After a successful claim, and after any calls of the authority that issue no grant under the
  -- same identifier, every claim of a grant with that identifier is refused, at any time and for any
  -- requested operation.
  pub claim_at_most_once :
      (g g' : RuntimeExecutionGrant) (requested requested' : ExecutionBinding) (now now' : ℕ)
      (s t : ExecutionAuthority)
      → (claim_grant canonical_json mac (grant g) requested now s).0 ≡ ok tt
      → Reach g.grant_id (claim_grant canonical_json mac (grant g) requested now s).1 t
      → g'.grant_id ≡ g.grant_id
      → (claim_grant canonical_json mac (grant g') requested' now' t).0 ≢ ok tt
  claim_at_most_once g g' requested requested' now now' s t claimed steps same =
      spent_refused g' requested' now' t
        (rw same (Reach-IsSpent steps (claimed-IsSpent g requested now s claimed)))

  -- A suspension revokes every outstanding grant of the agent: the grant's expiry is entered in the
  -- revoked table, and after any calls that issue no grant under its identifier, reopening issuance
  -- included, every claim of it is refused.
  pub suspension_revokes :
      (agent_id : String) (plane : IssuancePlane) (g : RuntimeExecutionGrant) (o : OutstandingGrant)
      (requested : ExecutionBinding) (now : ℕ) (s t : ExecutionAuthority)
      → Dict.get g.grant_id s.outstanding ≡ some o
      → o.agent_id ≡ agent_id
      → Reach g.grant_id (suspend_issuance agent_id plane s).1 t
      → (Dict.get g.grant_id (suspend_issuance agent_id plane s).1.revoked ≡ some o.expires_at)
        × ((claim_grant canonical_json mac (grant g) requested now t).0 ≢ ok tt)
  unfolding suspend_issuance
  suspension_revokes agent_id plane g o requested now s t out own steps = (
    ground (
      arith,
      eq_iff o.agent_id agent_id,
      get-copy_where (belongs_to agent_id) (λ (r : OutstandingGrant). r.expires_at) s.outstanding
          g.grant_id s.revoked,
    ),
    spent_refused g requested now t (
        Reach-IsSpent steps (
          ground (
            arith,
            eq_iff o.agent_id agent_id,
            get-drop_where (belongs_to agent_id) g.grant_id s.outstanding,
          ))),
  )
