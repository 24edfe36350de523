-- ===== src/Coordinator/Repair.antt =====
-- app/services/enforcement_coordinator.py: `repair` over the three components.
use enterprise_agent_securit.Prelude.{
  ℕ, String, ◌≡◌, refl, ap, ◌∙◌, false, ◌||◌, some, Result, ok, err, arith, if◌then◌else◌, is_some,
  Option-cases, inl, inr,
}
use enterprise_agent_securit.Dict
use enterprise_agent_securit.Dict.{get-put, get-put_self, get-remove, get-remove_self}
use enterprise_agent_securit.Watermark.{BaselineWatermark}
use enterprise_agent_securit.Agent.{Agent}
use enterprise_agent_securit.Enforcement.{AgentEnforcementState, clean}
use enterprise_agent_securit.AgentService.{
  AgentService, get_agent, get_enforcement_state, is_suspended, projected, baseline_of,
}
use enterprise_agent_securit.AgentService.Recovery.{enforcement_of}
use enterprise_agent_securit.Authority.{ExecutionAuthority, enforcement}
use enterprise_agent_securit.Authority.Issue.{issuance_closed_planes, issuance_suspended, discard}
use enterprise_agent_securit.Coordinator.{
  EnforcementCoordinator, CoordinatorError, reinstatement_incomplete, reset_projection, reopen,
  repair, repair_issuance,
}
use enterprise_agent_securit.Coordinator.Recovery.{resume_planes, reset_projection_lem}

issuance_suspended_lem :
    (agent_id : String) (s : ExecutionAuthority)
    → issuance_suspended agent_id s
      ≡ (issuance_closed_planes agent_id s).administrative
        || (issuance_closed_planes agent_id s).enforcement
unfolding issuance_suspended issuance_closed_planes
issuance_suspended_lem agent_id s = ground arith

abbrev Repaired :
    String
    → Agent
    → EnforcementCoordinator
    → Result CoordinatorError Agent × EnforcementCoordinator
    → Type 0
Repaired agent_id b c (r, c') =
    (issuance_closed_planes agent_id c'.execution_authority
      ≡ discard enforcement (issuance_closed_planes agent_id c.execution_authority))
    × (c'.agent_service ≡ c.agent_service)
    × (r ≡ (
        if (issuance_closed_planes agent_id c.execution_authority).administrative
        then err reinstatement_incomplete
        else ok b))

repair_issuance_lem :
    (agent_id : String) (b : Agent) (w : BaselineWatermark) (now : ℕ) (c : EnforcementCoordinator)
    → Repaired agent_id b c (repair_issuance agent_id b w now c)
unfolding repair_issuance
repair_issuance_lem agent_id b w now c =
    let (reset, service, authority) = reset_projection_lem w now c in
    let c' = (reset_projection w now c).1 in
    let planes : issuance_closed_planes agent_id (reopen agent_id c').execution_authority
        ≡ discard enforcement (issuance_closed_planes agent_id c.execution_authority) =
      resume_planes agent_id enforcement c'.execution_authority
      ∙ ap (λ x. discard enforcement (issuance_closed_planes agent_id x)) authority in
    let suspended = issuance_suspended_lem agent_id (reopen agent_id c').execution_authority in
    rw (repair_issuance, reset) (planes, service, ground (arith, suspended, planes))

not_contained_lem :
    (agent_id : String) (a : Agent) (s : AgentService)
    → Dict.get agent_id s.agents ≡ some a
    → is_suspended (enforcement_of agent_id s) ≡ false
    → (e : AgentEnforcementState) × (get_enforcement_state agent_id s ≡ ok e)
      × (is_some e.suspended_at ≡ false)
unfolding get_enforcement_state get_agent
not_contained_lem agent_id a s found calm = elim (Option-cases (enforcement_of agent_id s)) [
  | inl e ↦ (clean agent_id, rw (get_enforcement_state, get_agent, found, e) refl, refl)
  | inr (state, e) ↦ (state, rw (get_enforcement_state, get_agent, found, e) refl, rw e at calm)
]

found_lem :
    (agent_id : String) (a : Agent) (s : AgentService)
    → Dict.get agent_id s.agents ≡ some a
    → get_agent agent_id s ≡ ok (projected agent_id a s)
unfolding get_agent
found_lem agent_id a s found = rw (get_agent, found) refl

repair_lem :
    (agent_id : String) (now : ℕ) (a : Agent) (c : EnforcementCoordinator)
    → Dict.get agent_id c.agent_service.agents ≡ some a
    → is_suspended (enforcement_of agent_id c.agent_service) ≡ false
    → (w : BaselineWatermark) × (repair agent_id now c
        ≡ repair_issuance agent_id (projected agent_id a c.agent_service) w now c)
unfolding repair
repair_lem agent_id now a c found calm =
    let (e, read, clear) = not_contained_lem agent_id a c.agent_service found calm in
    (
      baseline_of agent_id e,
      rw (repair, found_lem agent_id a c.agent_service found, read, clear) refl,
    )

-- A repair of a registered agent that is not suspended reopens the enforcement plane of its issuance:
-- it returns the agent where the administrative plane has not closed issuance, and is otherwise
-- incomplete; the agent service is as it was.
pub repair_reopens :
    (agent_id : String) (now : ℕ) (a : Agent) (c : EnforcementCoordinator)
    → Dict.get agent_id c.agent_service.agents ≡ some a
    → is_suspended (enforcement_of agent_id c.agent_service) ≡ false
    → let (r, c') = repair agent_id now c in
      (issuance_closed_planes agent_id c'.execution_authority
        ≡ discard enforcement (issuance_closed_planes agent_id c.execution_authority))
      × (c'.agent_service ≡ c.agent_service)
      × (r ≡ (
          if (issuance_closed_planes agent_id c.execution_authority).administrative
          then err reinstatement_incomplete
          else ok (projected agent_id a c.agent_service)))
repair_reopens agent_id now a c found calm =
    let (w, same) = repair_lem agent_id now a c found calm in
    rw same (repair_issuance_lem agent_id (projected agent_id a c.agent_service) w now c)
