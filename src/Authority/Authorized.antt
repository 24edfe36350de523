-- ===== src/Authority/Authorized.antt =====
-- app/runtime/execution_authority.py: `issue`, the claims that follow it, and the planes of issuance.
use enterprise_agent_securit.Prelude.{
  ℕ, String, ◌+◌, ◌*◌, ◌≤◌, ◌<◌, ◌≡◌, ◌↔◌, ◌⊎◌, Bool, refl, true, false, Option, none, some, ok,
  err, Result, ◌≢◌, eq_iff, arith, eq_refl, is_some, leb,
}
use enterprise_agent_securit.Dict
use enterprise_agent_securit.Dict.{get-put, get-put_self, get-remove, get-drop_where}
use enterprise_agent_securit.Text.{◌⧺◌}
use enterprise_agent_securit.Enforcement.Repository as EnforcementRepository
use enterprise_agent_securit.Enforcement.Repository.{epoch_of}
use enterprise_agent_securit.Authority.{
  Decision, allow, ExecutionBinding, RuntimeExecutionGrant, administrative, enforcement,
  IssuancePlane, Planes, ExecutionAuthority, prune, is_past,
}
use enterprise_agent_securit.Authority.Signing.{Payload, payload, grant_payload}
use enterprise_agent_securit.Authority.Issue.{
  GrantError, validation_error, init, issue, create_grant, issuance_suspended, resume_issuance,
  issuance_closed_planes, discard, planes_or_none, entry, epoch_current, max_grant_ttl_seconds,
}
use enterprise_agent_securit.Authority.Claim.{
  grant, verify_authenticity, require_claimable_locked, claim_grant,
}
use enterprise_agent_securit.Authority.Soundness.{require_exact_match_iff}

-- `__init__` accepts exactly the times to live above zero and up to the ceiling of 30 seconds.
pub init_bounds :
    (ticks : ℕ) (authority_id : String) (ttl : ℕ)
    → (is_some (init ticks authority_id ttl) ≡ true)
      ↔ ((0 < ttl) × (ttl ≤ max_grant_ttl_seconds * ticks))
unfolding init
init_bounds ticks authority_id ttl = (λ h. (ground arith, ground arith), λ h. ground arith)

-- whether the call returned a grant
abbrev pub is_issued : Result GrantError (Option RuntimeExecutionGrant) → Bool
is_issued (ok (some g)) = true
is_issued _ = false

module _ (canonical_json : ExecutionBinding → String) (mac : Payload → String)
    (repository : Option EnforcementRepository.Repository) (binding : ExecutionBinding)
    (decision : Decision) (agent_id session_id : String) (expected_epoch : Option ℕ)
    (profile digest : Option String) (now : ℕ) (uuid : String) (s : ExecutionAuthority) where
  abbrev issued : Result GrantError (Option RuntimeExecutionGrant) × ExecutionAuthority
  issued =
      issue canonical_json mac repository binding decision agent_id session_id expected_epoch
        profile digest now uuid s

  -- A grant is issued exactly when the decision is ALLOW, neither plane has closed the agent's
  -- issuance, the expected epoch, where one is given and a repository is composed, is the persisted
  -- one, and neither the agent nor the session is empty. The call raises the error of the validation
  -- exactly when the first three of these hold and the agent or the session is empty. Where it returns
  -- no grant the authority is as it was; where it issues or raises, an outstanding entry is written.
  pub issue_iff :
      ((is_issued issued.0 ≡ true) ↔ (
        (decision ≡ allow)
        × (issuance_suspended agent_id s ≡ false)
        × (epoch_current expected_epoch repository agent_id ≡ true)
        × (agent_id ≢ "")
        × (session_id ≢ "")))
      × ((issued.0 ≡ err validation_error) ↔ (
          (decision ≡ allow)
          × (issuance_suspended agent_id s ≡ false)
          × (epoch_current expected_epoch repository agent_id ≡ true)
          × ((agent_id ≡ "") ⊎ (session_id ≡ ""))))
      × (((issued.0 ≡ ok none) × (issued.1 ≡ s))
          ⊎ ((issued.0 ≢ ok none)
              × (Dict.get ("grant-" ⧺ uuid) issued.1.outstanding
                  ≡ some (entry (now + s.ttl) agent_id session_id))))
  unfolding issue create_grant
  issue_iff = (
    (
      λ h. (
        ground arith,
        ground arith,
        ground arith,
        ground (arith, eq_iff agent_id ""),
        ground (arith, eq_iff session_id ""),
      ),
      λ h. ground (arith, eq_iff agent_id "", eq_iff session_id ""),
    ),
    (
      λ h. (
        ground arith,
        ground arith,
        ground arith,
        ground (arith, eq_iff agent_id "", eq_iff session_id ""),
      ),
      λ h. ground (arith, eq_iff agent_id "", eq_iff session_id ""),
    ),
    ground (
      arith,
      get-put_self ("grant-" ⧺ uuid) (entry (now + s.ttl) agent_id session_id)
          (prune now s).outstanding,
    ),
  )

  abbrev created : Result GrantError RuntimeExecutionGrant × ExecutionAuthority
  created = create_grant canonical_json mac binding agent_id session_id profile digest now uuid s

  issued-created :
      (g : RuntimeExecutionGrant)
      → issued.0 ≡ ok (some g)
      → (created.0 ≡ ok g) × (issued.1 ≡ created.1)
  unfolding issue
  issued-created g e = (ground arith, ground arith)

  -- the grant that is signed and entered
  abbrev made : RuntimeExecutionGrant
  made = record {
    grant_id = "grant-" ⧺ uuid;
    authority_id = s.authority_id;
    agent_id = agent_id;
    session_id = session_id;
    binding = binding;
    issued_at = now;
    expires_at = now + s.ttl;
    signature = mac (
        payload canonical_json ("grant-" ⧺ uuid) s.authority_id binding now (now + s.ttl) agent_id
          session_id profile digest);
    capability_profile_id = profile;
    capability_digest = digest;
  }

  created-made : (g : RuntimeExecutionGrant) → created.0 ≡ ok g → g ≡ made
  unfolding create_grant
  created-made g e = ground arith

  made_claims :
      (later : ℕ)
      → now ≤ later
      → later < now + s.ttl
      → Dict.get ("grant-" ⧺ uuid) s.revoked ≡ none
      → (claim_grant canonical_json mac (grant made) binding later created.1).0 ≡ ok tt
  unfolding create_grant claim_grant verify_authenticity require_claimable_locked prune
      grant_payload
  made_claims later from until clear = ground (
    arith,
    eq_refl s.authority_id,
    eq_refl (
        mac (
          payload canonical_json ("grant-" ⧺ uuid) s.authority_id binding now (now + s.ttl) agent_id
            session_id profile digest)),
    get-drop_where (is_past later) ("grant-" ⧺ uuid) (
        Dict.put ("grant-" ⧺ uuid) (entry (now + s.ttl) agent_id session_id)
          (Dict.drop_where (is_past now) s.outstanding)),
    get-put_self ("grant-" ⧺ uuid) (entry (now + s.ttl) agent_id session_id)
        (Dict.drop_where (is_past now) s.outstanding),
    get-drop_where (λ (x : ℕ). leb x later) ("grant-" ⧺ uuid)
        (Dict.drop_where (λ (x : ℕ). leb x now) s.revoked),
    get-drop_where (λ (x : ℕ). leb x now) ("grant-" ⧺ uuid) s.revoked,
    eq_refl agent_id,
    eq_refl session_id,
    (require_exact_match_iff binding binding).1 refl,
  )

  created_claims :
      (g : RuntimeExecutionGrant) (later : ℕ)
      → created.0 ≡ ok g
      → now ≤ later
      → later < now + s.ttl
      → Dict.get g.grant_id s.revoked ≡ none
      → (claim_grant canonical_json mac (grant g) binding later created.1).0 ≡ ok tt
  created_claims g later e from until clear =
      let same = created-made g e in rw (same) (made_claims later from until (rw (same) at clear))

  -- An issued grant can be claimed for its own binding at any time from its issue until its expiry,
  -- which is one time to live later, provided its identifier is not in the revoked table.
  pub issue_then_claim :
      (g : RuntimeExecutionGrant) (later : ℕ)
      → issued.0 ≡ ok (some g)
      → now ≤ later
      → later < now + s.ttl
      → Dict.get g.grant_id s.revoked ≡ none
      → (claim_grant canonical_json mac (grant g) binding later issued.1).0 ≡ ok tt
  issue_then_claim g later e from until clear =
      let (made, left) = issued-created g e in
      rw (left) (created_claims g later made from until clear)

abbrev pub other : IssuancePlane → IssuancePlane
other administrative = enforcement
other enforcement = administrative

abbrev pub closed_by : IssuancePlane → Planes → Bool
closed_by administrative p = p.administrative
closed_by enforcement p = p.enforcement

-- Reopening one plane does not reopen issuance that the other plane has closed.
pub resume_other_plane :
    (agent_id : String) (plane : IssuancePlane) (s : ExecutionAuthority)
    → closed_by (other plane) (issuance_closed_planes agent_id s) ≡ true
    → issuance_suspended agent_id (resume_issuance agent_id plane s) ≡ true
unfolding issuance_suspended resume_issuance issuance_closed_planes
resume_other_plane agent_id administrative s h = ground (
  arith,
  get-put_self agent_id
      (discard administrative (planes_or_none (Dict.get agent_id s.issuance_closed)))
      s.issuance_closed,
)
resume_other_plane agent_id enforcement s h = ground (
  arith,
  get-put_self agent_id (discard enforcement (planes_or_none (Dict.get agent_id s.issuance_closed)))
      s.issuance_closed,
)
