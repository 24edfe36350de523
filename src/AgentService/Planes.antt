-- ===== src/AgentService/Planes.antt =====
-- app/services/agent_service.py: `_read_planes` and `lifecycle_refusal`, the entry point of
-- authorization into the lifecycle state.
use enterprise_agent_securit.Prelude.{String, Bool, true, false, Option, none, Result, ok, err}
use enterprise_agent_securit.Administrative.{AgentAdministrativeState}
use enterprise_agent_securit.Administrative.Repository as AdministrativeRepository
use enterprise_agent_securit.Administrative.Repository.{AdministrativeError}
use enterprise_agent_securit.Enforcement.{AgentEnforcementState}
use enterprise_agent_securit.Enforcement.Repository as EnforcementRepository
use enterprise_agent_securit.Enforcement.Repository.{EnforcementError}
use enterprise_agent_securit.Lifecycle.{LifecycleRefusalCode, evaluate_lifecycle_authorization}
use enterprise_agent_securit.AgentService.{AgentService}

-- the record that was read, and whether the repository answered
abbrev pub established : {E A : Type 0} → Result E (Option A) → Option A
established (ok a) = a
established (err e) = none

abbrev pub answered : {E A : Type 0} → Result E (Option A) → Bool
answered (ok a) = true
answered (err e) = false

unfoldable pub evaluate_reads :
    Result AdministrativeError (Option AgentAdministrativeState)
    → Result EnforcementError (Option AgentEnforcementState)
    → Option LifecycleRefusalCode
evaluate_reads administrative enforcement =
    evaluate_lifecycle_authorization (established administrative) (answered administrative)
      (established enforcement) (answered enforcement)

-- the reads of the in-memory repositories do not raise
unfoldable pub lifecycle_refusal : String → AgentService → Option LifecycleRefusalCode
unfolding evaluate_reads
lifecycle_refusal agent_id s =
    evaluate_reads (ok (AdministrativeRepository.get_state agent_id s.administrative_repository))
      (ok (EnforcementRepository.get_state agent_id s.enforcement_repository))
