-- ===== src/Examples/Approvals.antt =====
-- app/repositories/in_memory/approval_continuation_repository.py: an approval that is created, approved
-- and consumed.
use enterprise_agent_securit.Prelude.{◌≡◌, ◌≢◌, ◌≤◌, refl, true, none, some, [], ◌∷◌, ok}
use enterprise_agent_securit.Dict
use enterprise_agent_securit.Approval.{
  pending, approved, consumed, ApprovalContinuation, Continuations, transition_continuation,
  commit_transition, update_fields, allowed_continuation_transitions, metadata_invalid,
}
use enterprise_agent_securit.Approval.Lifecycle.{
  here, next, moving, frozen, rank, WellFormed, approval_continues, consumed_once,
}
use enterprise_agent_securit.Text.{is_blank}

abbrev request : ApprovalContinuation
request = record {
  grant_id = "g1";
  session_id = "s1";
  agent_id = "a1";
  tool_id = "deploy";
  tool_version = "2";
  execution_parameters = ("target", "production") ∷ [];
  originating_audit_event_id = "e1";
  risk_score = 10;
  required_response = "APPROVAL";
  enforcement_epoch = 0;
  state = pending;
  created_at = 100;
  expires_at = 200;
  approved_by = none;
  consumed_at = none;
  capability_profile_id = none;
  capability_digest = none;
}

abbrev requested : Continuations
requested = ("g1", request) ∷ []

abbrev approved_state : Continuations
approved_state = (transition_continuation "g1" pending approved none (some "ops") requested).1

abbrev consumed_state : Continuations
consumed_state = (transition_continuation "g1" approved consumed (some 150) none approved_state).1

request_found : Dict.get "g1" requested ≡ some request
unfolding Dict.get
request_found = refl

consumes :
    (transition_continuation "g1" approved consumed (some 150) none approved_state).0 ≡ ok true
unfolding transition_continuation commit_transition update_fields allowed_continuation_transitions
    metadata_invalid Dict.get Dict.put is_blank
consumes = refl

approval_continues_example :
    (h : ApprovalContinuation) × (Dict.get "g1" consumed_state ≡ some h)
    × (frozen h ≡ frozen request)
    × (rank pending ≤ rank h.state)
    × WellFormed h
approval_continues_example =
    approval_continues request request_found (refl, refl)
      (next (next here (moving "g1" pending approved none (some "ops")))
        (moving "g1" approved consumed (some 150) none))

consumed_once_example :
    (transition_continuation "g1" approved consumed (some 160) none consumed_state).0 ≢ ok true
consumed_once_example =
    consumed_once "g1" approved approved (some 150) (some 160) none none approved_state
      consumed_state consumes here
