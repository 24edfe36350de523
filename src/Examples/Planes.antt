-- ===== src/Examples/Planes.antt =====
-- app/models and app/repositories/in_memory: repositories with one agent, and the decisions on them.
use enterprise_agent_securit.Prelude.{◌≡◌, ◌≤◌, ◌↔◌, refl, true, false, none, some, arith, ok}
use enterprise_agent_securit.Dict
use enterprise_agent_securit.Agent.{AgentStatus}
use enterprise_agent_securit.Administrative.{
  registered, active, register, activate, disabled, human, AdministrativeTransition,
  AgentAdministrativeState, is_legal_administrative_transition, legal_administrative_transitions,
}
use enterprise_agent_securit.Administrative.Repository as AdministrativeRepository
use enterprise_agent_securit.Administrative.Ledger.{
  LedgerReplays, LedgerReplays-empty, commit-LedgerReplays,
}
use enterprise_agent_securit.Enforcement.{
  AgentEnforcementState, EnforcementTransition, suspend, clean,
}
use enterprise_agent_securit.Enforcement.Repository.{
  Repository, empty, record_transition, current_epoch, current_generation,
}
use enterprise_agent_securit.Enforcement.Cas.{
  ◌⟶*◌, here, call, stale_epoch_refused, generation_and_epoch_monotone,
}
use enterprise_agent_securit.Lifecycle.{
  failing_lifecycle_conditions, evaluate_lifecycle_authorization, agent_not_active, agent_suspended,
  code_in,
}
use enterprise_agent_securit.Lifecycle.Precedence.{
  MayExecute, permitted_iff, most_significant, significance,
}

abbrev registered_record : AgentAdministrativeState
registered_record = record {
  agent_id = "a1";
  state = registered;
  administrative_version = 1;
  last_transition_at = some 100;
}

abbrev suspended_record : AgentEnforcementState
suspended_record = record (clean "a1") { epoch = 1; suspended_at = some 100 }

abbrev suspension : EnforcementTransition
suspension = record {
  transition_id = "t1";
  agent_id = "a1";
  action = suspend;
  actor = "runtime";
  reason = "risk";
  previous_status = AgentStatus.active;
  new_status = AgentStatus.suspended;
  trigger = none;
  occurred_at = 100;
}

abbrev activation : AdministrativeTransition
activation = record {
  transition_id = "t1";
  agent_id = "a1";
  action = activate;
  actor = record { type = human; id = "ops" };
  reason = "ready";
  previous_state = some registered;
  new_state = active;
  administrative_version_before = 1;
  administrative_version_after = 2;
  correlation_id = "c1";
  occurred_at = 200;
}

abbrev suspended_repository : Repository
suspended_repository = (record_transition suspension suspended_record 0 empty).1

first_commits : (record_transition suspension suspended_record 0 empty).0 ≡ ok true
unfolding record_transition current_epoch Dict.get
first_commits = refl

registered_to_disabled : is_legal_administrative_transition (some registered) disabled ≡ true
unfolding is_legal_administrative_transition legal_administrative_transitions
registered_to_disabled = refl

abbrev registration : AdministrativeTransition
registration = record activation {
  action = register;
  previous_state = none;
  new_state = registered;
  administrative_version_before = 0;
  administrative_version_after = 1;
}

abbrev registered_repository : AdministrativeRepository.Repository
registered_repository =
    AdministrativeRepository.commit "a1" registration registered_record
      AdministrativeRepository.empty

registered_replays : LedgerReplays registered_repository
unfolding is_legal_administrative_transition legal_administrative_transitions Dict.get
registered_replays =
    commit-LedgerReplays "a1" registration registered_record AdministrativeRepository.empty
      LedgerReplays-empty refl refl refl refl refl refl refl refl

abbrev active_record : AgentAdministrativeState
active_record = record registered_record { state = active; administrative_version = 2 }

activation_commits :
    (AdministrativeRepository.record_transition activation active_record 1 registered_repository).0
    ≡ ok true
unfolding AdministrativeRepository.record_transition AdministrativeRepository.commit
    is_legal_administrative_transition legal_administrative_transitions Dict.get Dict.put
    AdministrativeRepository.describes
activation_commits = refl

stale_epoch_refused_example :
    record_transition suspension suspended_record 0 suspended_repository
    ≡ (ok false, suspended_repository)
stale_epoch_refused_example =
    stale_epoch_refused suspension suspension suspended_record suspended_record 0 0 empty
      suspended_repository first_commits here refl (omega arith)

abbrev one_call : empty ⟶* suspended_repository
one_call = call suspension suspended_record 0 here

generation_and_epoch_monotone_example :
    (current_generation "a1" empty ≤ current_generation "a1" suspended_repository)
    × (current_epoch "a1" empty ≤ current_epoch "a1" suspended_repository)
generation_and_epoch_monotone_example = generation_and_epoch_monotone "a1" one_call

permitted_iff_example :
    (evaluate_lifecycle_authorization (some registered_record) true (some suspended_record) true
      ≡ none)
    ↔ MayExecute (some registered_record) true (some suspended_record) true
permitted_iff_example = permitted_iff (some registered_record) true (some suspended_record) true

surfaced :
    evaluate_lifecycle_authorization (some registered_record) true (some suspended_record) true
    ≡ some agent_not_active
unfolding evaluate_lifecycle_authorization failing_lifecycle_conditions
surfaced = refl

also_failing :
    code_in agent_suspended
      (failing_lifecycle_conditions (some registered_record) true (some suspended_record) true)
    ≡ true
unfolding failing_lifecycle_conditions
also_failing = refl

most_significant_example :
    (code_in agent_not_active
        (failing_lifecycle_conditions (some registered_record) true (some suspended_record) true)
      ≡ true)
    × (significance agent_not_active ≤ significance agent_suspended)
most_significant_example =
    most_significant (some registered_record) true (some suspended_record) true agent_not_active
      agent_suspended surfaced also_failing
