-- ===== src/Examples/Grants.antt =====
-- app/runtime/execution_authority.py: a grant that is issued, claimed, and revoked, with a signature
-- that joins the texts of the payload.
use enterprise_agent_securit.Prelude.{
  String, ◌≡◌, ◌≢◌, ◌<◌, ◌↔◌, ◌⊎◌, refl, true, false, Option, none, some, [], ◌∷◌, arith, ok, err,
  Result,
}
use enterprise_agent_securit.Dict
use enterprise_agent_securit.Text.{◌⧺◌}
use enterprise_agent_securit.Authority.{
  allow, ExecutionBinding, RuntimeExecutionGrant, OutstandingGrant, administrative, enforcement,
  ExecutionAuthority, prune,
}
use enterprise_agent_securit.Authority.Signing.{
  Payload, JsonValue, text, number, payload, grant_payload,
}
use enterprise_agent_securit.Authority.Issue.{
  GrantError, validation_error, issue, create_grant, issuance_suspended, suspend_issuance,
  resume_issuance, epoch_current, issuance_closed_planes, entry,
}
use enterprise_agent_securit.Authority.Claim.{
  grant, claim_grant, claim_checked, verify_authenticity, require_claimable_locked,
  require_exact_match,
}
use enterprise_agent_securit.Authority.SingleUse.{
  resuming, here, next, claim_at_most_once, suspension_revokes,
}
use enterprise_agent_securit.Authority.Soundness.{claim_sound}
use enterprise_agent_securit.Authority.Authorized.{
  issue_iff, is_issued, issue_then_claim, closed_by,
}

abbrev joined : JsonValue → String
joined (text s) = s
joined (number n) = "n"

-- a concrete signature
abbrev sign : Payload → String
sign [] = "sig"
sign ((key, value) ∷ fields) = key ⧺ joined value ⧺ sign fields

-- a concrete canonical text
abbrev canonical : ExecutionBinding → String
canonical b = b.tool_id ⧺ b.tool_version

abbrev authority : ExecutionAuthority
authority = record {
  authority_id = "auth";
  ttl = 10;
  outstanding = [];
  revoked = [];
  issuance_closed = [];
}

abbrev reading : ExecutionBinding
reading = record {
  tool_id = "read_file";
  tool_version = "1";
  resource = some "a.txt";
  parameters = ("path", "a.txt") ∷ [];
}

abbrev signed_grant : RuntimeExecutionGrant
signed_grant = record {
  grant_id = "grant-1";
  authority_id = "auth";
  agent_id = "a1";
  session_id = "s1";
  binding = reading;
  issued_at = 100;
  expires_at = 110;
  signature = sign (payload canonical "grant-1" "auth" reading 100 110 "a1" "s1" none none);
  capability_profile_id = none;
  capability_digest = none;
}

abbrev issued_state : ExecutionAuthority
issued_state = record authority { outstanding = ("grant-1", entry 110 "a1" "s1") ∷ [] }

abbrev issuing : Result GrantError (Option RuntimeExecutionGrant) × ExecutionAuthority
issuing = issue canonical sign none reading allow "a1" "s1" none none none 100 "1" authority

issues : issuing.0 ≡ ok (some signed_grant)
unfolding issue create_grant issuance_suspended prune Dict.get Dict.put Dict.drop_where
issues = refl

claims : (claim_grant canonical sign (grant signed_grant) reading 105 issued_state).0 ≡ ok tt
unfolding claim_grant claim_checked verify_authenticity require_claimable_locked require_exact_match
    prune Dict.get Dict.drop_where Dict.remove payload grant_payload
claims = refl

outstanding_grant : Dict.get "grant-1" issued_state.outstanding ≡ some (entry 110 "a1" "s1")
unfolding Dict.get
outstanding_grant = refl

abbrev claimed_state : ExecutionAuthority
claimed_state = (claim_grant canonical sign (grant signed_grant) reading 105 issued_state).1

claim_at_most_once_example :
    (claim_grant canonical sign
      (grant signed_grant)
      reading
      106
      (resume_issuance "a1" enforcement claimed_state)).0
    ≢ ok tt
claim_at_most_once_example =
    claim_at_most_once canonical sign signed_grant signed_grant reading reading 105 106 issued_state
      (resume_issuance "a1" enforcement claimed_state) claims
      (next here (resuming "a1" enforcement)) refl

abbrev revoked_state : ExecutionAuthority
revoked_state = (suspend_issuance "a1" enforcement issued_state).1

suspension_revokes_example :
    (Dict.get "grant-1" revoked_state.revoked ≡ some 110)
    × ((claim_grant canonical sign
          (grant signed_grant)
          reading
          105
          (resume_issuance "a1" enforcement revoked_state)).0
        ≢ ok tt)
suspension_revokes_example =
    suspension_revokes canonical sign "a1" enforcement signed_grant (entry 110 "a1" "s1") reading
      105 issued_state (resume_issuance "a1" enforcement revoked_state) outstanding_grant refl
      (next here (resuming "a1" enforcement))

claim_sound_example :
    (o : OutstandingGrant) × (Dict.get "grant-1" issued_state.outstanding ≡ some o)
    × (o.agent_id ≡ signed_grant.agent_id)
    × (o.session_id ≡ signed_grant.session_id)
    × (signed_grant.authority_id ≡ issued_state.authority_id)
    × (signed_grant.signature ≡ sign (grant_payload canonical signed_grant))
    × (105 < signed_grant.expires_at)
    × (reading ≡ signed_grant.binding)
claim_sound_example = claim_sound canonical sign signed_grant reading 105 issued_state claims

issue_iff_example :
    ((is_issued issuing.0 ≡ true) ↔ (
      (allow ≡ allow)
      × (issuance_suspended "a1" authority ≡ false)
      × (epoch_current none none "a1" ≡ true)
      × (◌≢◌ {A = String} "a1" "")
      × (◌≢◌ {A = String} "s1" "")))
    × ((issuing.0 ≡ err validation_error) ↔ (
        (allow ≡ allow)
        × (issuance_suspended "a1" authority ≡ false)
        × (epoch_current none none "a1" ≡ true)
        × ((◌≡◌ {A = String} "a1" "") ⊎ (◌≡◌ {A = String} "s1" ""))))
    × (((issuing.0 ≡ ok none) × (issuing.1 ≡ authority))
        ⊎ ((issuing.0 ≢ ok none)
            × (Dict.get "grant-1" issuing.1.outstanding ≡ some (entry 110 "a1" "s1"))))
issue_iff_example =
    issue_iff canonical sign none reading allow "a1" "s1" none none none 100 "1" authority

nothing_revoked : Dict.get "grant-1" authority.revoked ≡ none
unfolding Dict.get
nothing_revoked = refl

issue_then_claim_example :
    (claim_grant canonical sign (grant signed_grant) reading 109 issuing.1).0 ≡ ok tt
issue_then_claim_example =
    issue_then_claim canonical sign none reading allow "a1" "s1" none none none 100 "1" authority
      signed_grant 109 issues (omega arith) (omega arith) nothing_revoked

abbrev closed_state : ExecutionAuthority
closed_state = record authority {
  issuance_closed = ("a1", record { administrative = true; enforcement = true }) ∷ [];
}

administratively_closed : closed_by administrative (issuance_closed_planes "a1" closed_state) ≡ true
unfolding issuance_closed_planes Dict.get
administratively_closed = refl

abbrev renewed_grant : RuntimeExecutionGrant
renewed_grant = record signed_grant { signature = "other" }

same_payload : grant_payload canonical signed_grant ≡ grant_payload canonical renewed_grant
unfolding grant_payload
same_payload = refl
