-- ===== src/Coordinator/Recovery.antt =====
-- app/services/enforcement_coordinator.py: `reinstate` over the three components.
use enterprise_agent_securit.Prelude.{
  ℕ, String, ◌≡◌, refl, ap, ◌∙◌, true, false, Option, none, some, ok, err, arith, Option-cases, inl,
  inr,
}
use enterprise_agent_securit.Dict
use enterprise_agent_securit.Dict.{get-put, get-put_self, get-remove, get-remove_self}
use enterprise_agent_securit.Text.{is_blank}
use enterprise_agent_securit.Watermark.{BaselineWatermark}
use enterprise_agent_securit.Agent.{Agent}
use enterprise_agent_securit.Enforcement.{AgentEnforcementState}
use enterprise_agent_securit.AgentService.{
  AgentService, Inputs, empty, get_agent, get_enforcement_state, is_suspended, agent_not_suspended,
}
use enterprise_agent_securit.AgentService.Containment.{reinstate_agent}
use enterprise_agent_securit.AgentService.Cases.{reinstate_agent_cases, agents-transition}
use enterprise_agent_securit.AgentService.Invariant.Reach.{◌⟶*◌}
use enterprise_agent_securit.AgentService.Recovery.{enforcement_of}
use enterprise_agent_securit.AgentService.Effects.{reinstatement_effective}
use enterprise_agent_securit.Authority.{
  ExecutionAuthority, IssuancePlane, administrative, enforcement,
}
use enterprise_agent_securit.Authority.Issue.{
  resume_issuance, issuance_closed_planes, discard, planes_or_none,
}
use enterprise_agent_securit.Risk.Rebuild
use enterprise_agent_securit.Risk.Aggregator.{reset_to_baseline, snapshot}
use enterprise_agent_securit.Coordinator.{
  EnforcementCoordinator, agent_error, reset_projection, confirm, finish, reopen, reinstate,
  watermark_at,
}

pub resume_planes :
    (agent_id : String) (plane : IssuancePlane) (s : ExecutionAuthority)
    → issuance_closed_planes agent_id (resume_issuance agent_id plane s)
      ≡ discard plane (issuance_closed_planes agent_id s)
unfolding issuance_closed_planes resume_issuance
resume_planes agent_id administrative s = ground (
  arith,
  get-put_self agent_id
      (discard administrative (planes_or_none (Dict.get agent_id s.issuance_closed)))
      s.issuance_closed,
  get-remove_self agent_id s.issuance_closed,
)
resume_planes agent_id enforcement s = ground (
  arith,
  get-put_self agent_id (discard enforcement (planes_or_none (Dict.get agent_id s.issuance_closed)))
      s.issuance_closed,
  get-remove_self agent_id s.issuance_closed,
)

pub reset_projection_lem :
    (w : BaselineWatermark) (now : ℕ) (c : EnforcementCoordinator)
    → ((reset_projection w now c).0 ≡ ok tt)
      × ((reset_projection w now c).1.agent_service ≡ c.agent_service)
      × ((reset_projection w now c).1.execution_authority ≡ c.execution_authority)
unfolding reset_projection reset_to_baseline Rebuild.reset_to_baseline snapshot
reset_projection_lem w now c = elim (Option-cases c.risk_aggregator) [
  | inl e ↦ rw (e, reset_projection) (refl, refl, refl)
  | inr (a, e) ↦ rw (e, reset_projection) (ground arith, refl, refl)
]

confirm_lem :
    (agent_id : String) (a b : Agent) (e : AgentEnforcementState) (c : EnforcementCoordinator)
    → Dict.get agent_id c.agent_service.agents ≡ some a
    → enforcement_of agent_id c.agent_service ≡ some e
    → e.suspended_at ≡ none
    → (issuance_closed_planes agent_id c.execution_authority).enforcement ≡ false
    → confirm agent_id b c ≡ ok b
unfolding confirm get_enforcement_state get_agent
confirm_lem agent_id a b e c found stored clear reopened =
    rw (confirm, get_enforcement_state, get_agent, found, stored, clear, reopened) refl

finish_lem :
    (agent_id : String) (a b : Agent) (e : AgentEnforcementState) (w : BaselineWatermark) (now : ℕ)
    (c : EnforcementCoordinator)
    → Dict.get agent_id c.agent_service.agents ≡ some a
    → enforcement_of agent_id c.agent_service ≡ some e
    → e.suspended_at ≡ none
    → ((finish agent_id b w now c).0 ≡ ok b)
      × ((finish agent_id b w now c).1.agent_service ≡ c.agent_service)
      × (issuance_closed_planes agent_id (finish agent_id b w now c).1.execution_authority
          ≡ discard enforcement (issuance_closed_planes agent_id c.execution_authority))
unfolding finish
finish_lem agent_id a b e w now c found stored clear =
    let (reset, service, authority) = reset_projection_lem w now c in
    let c' = (reset_projection w now c).1 in
    let planes : issuance_closed_planes agent_id (reopen agent_id c').execution_authority
        ≡ discard enforcement (issuance_closed_planes agent_id c.execution_authority) =
      resume_planes agent_id enforcement c'.execution_authority
      ∙ ap (λ x. discard enforcement (issuance_closed_planes agent_id x)) authority in
    rw (finish, reset)
      (
        confirm_lem agent_id a b e (reopen agent_id c')
            (ap (λ x. Dict.get agent_id x.agents) service ∙ found)
            (ap (enforcement_of agent_id) service ∙ stored) clear (ap (λ x. x.enforcement) planes),
        service,
        planes,
      )

agents-reinstate_agent :
    (agent_id actor reason : String) (w : Option BaselineWatermark) (i : Inputs) (s : AgentService)
    → (reinstate_agent agent_id actor reason w i s).1.agents ≡ s.agents
agents-reinstate_agent agent_id actor reason w i s =
    reinstate_agent_cases (λ t. t.agents ≡ s.agents) agent_id reason i s refl actor w
      λ a found moves b c. agents-transition _ _ _ _ _ _ _ _ _

-- An attributed reinstatement, through the coordinator, of a registered and suspended agent in a
-- reachable state of the agent service completes: it returns the agent, the containment is cleared,
-- and the enforcement plane no longer closes the agent's issuance, while a closure by the
-- administrative plane stands as it was.
pub reinstate_completes :
    (agent_id actor reason : String) (evidence_position agent_position : Option ℕ) (baseline_at : ℕ)
    (i : Inputs) (a : Agent) (c : EnforcementCoordinator)
    → empty ⟶* c.agent_service
    → Dict.get agent_id c.agent_service.agents ≡ some a
    → is_suspended (enforcement_of agent_id c.agent_service) ≡ true
    → is_blank actor ≡ false
    → is_blank reason ≡ false
    → let (r, c') =
        reinstate agent_id actor reason evidence_position agent_position baseline_at i c in
      (b : Agent) × (r ≡ ok b)
      × (is_suspended (enforcement_of agent_id c'.agent_service) ≡ false)
      × (issuance_closed_planes agent_id c'.execution_authority
          ≡ discard enforcement (issuance_closed_planes agent_id c.execution_authority))
unfolding reinstate
reinstate_completes agent_id actor reason evidence_position agent_position baseline_at i a c reach
      found contained named explained =
    let w = watermark_at agent_id baseline_at evidence_position agent_position in
    let (b, e, answered, stored, clear, evidence, position, epoch, generation, untouched) =
      reinstatement_effective agent_id actor reason w i a reach found contained named explained in
    let s' = (reinstate_agent agent_id actor reason (some w) i c.agent_service).1 in
    let (done, service, planes) =
      finish_lem agent_id a b e w i.now (record c { agent_service = s' })
        (ap (Dict.get agent_id)
            (agents-reinstate_agent agent_id actor reason (some w) i c.agent_service)
          ∙ found)
        stored clear in
    rw (reinstate, answered)
      (
        b,
        done,
        ap (λ x. is_suspended (enforcement_of agent_id x)) service ∙ rw (stored, clear) refl,
        planes,
      )

not_suspended_refused :
    (agent_id actor reason : String) (w : Option BaselineWatermark) (i : Inputs) (a : Agent)
    (s : AgentService)
    → Dict.get agent_id s.agents ≡ some a
    → is_suspended (enforcement_of agent_id s) ≡ false
    → is_blank actor ≡ false
    → is_blank reason ≡ false
    → reinstate_agent agent_id actor reason w i s ≡ (err agent_not_suspended, s)
unfolding reinstate_agent get_agent
not_suspended_refused agent_id actor reason w i a s found calm named explained =
    rw (reinstate_agent, get_agent, found, calm, named, explained) refl

-- A reinstatement of an agent that is not suspended is refused and changes nothing, its issuance
-- included: it does not reopen what an earlier reinstatement left closed.
pub retry_refused :
    (agent_id actor reason : String) (evidence_position agent_position : Option ℕ) (baseline_at : ℕ)
    (i : Inputs) (a : Agent) (c : EnforcementCoordinator)
    → Dict.get agent_id c.agent_service.agents ≡ some a
    → is_suspended (enforcement_of agent_id c.agent_service) ≡ false
    → is_blank actor ≡ false
    → is_blank reason ≡ false
    → reinstate agent_id actor reason evidence_position agent_position baseline_at i c
      ≡ (err (agent_error agent_not_suspended), c)
unfolding reinstate
retry_refused agent_id actor reason evidence_position agent_position baseline_at i a c found calm
      named explained =
    let refused =
      not_suspended_refused agent_id actor reason
        (some (watermark_at agent_id baseline_at evidence_position agent_position)) i a
        c.agent_service found calm named explained in
    rw (reinstate, refused, refused) refl
