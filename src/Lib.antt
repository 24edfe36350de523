-- ===== src/Lib.antt =====
-- The enterprise agent security platform: the lifecycle of agents, their execution authority and
-- their risk.
--
-- An agent has two planes. The administrative plane (registered, active, disabled) and the
-- enforcement plane (contained or not) are stored and versioned apart; an agent may execute only
-- where both permit it. Execution itself needs a signed, single-use grant of the execution authority.
-- Findings about an agent feed a risk projection, from which containment is decided.
--
-- Prelude, Text, Dict, Sorting, Lists: the names that all modules share, Python's `str`, `dict` and
--     `sorted`, and what the operations on lists keep.
-- Agent: app/models/agent.py (`Agent`) and app/repositories/in_memory/agent_repository.py
--     (`get`, `save`).
-- Administrative: app/models/agent_administrative.py; Administrative.Repository:
--     app/repositories/in_memory/administrative_state_repository.py (`record_transition`,
--     `commit_registration`). Administrative.Graph and Administrative.Ledger are about these.
-- Enforcement: app/models/agent_enforcement.py; Enforcement.Repository:
--     app/repositories/in_memory/enforcement_state_repository.py (`record_transition`, `get_epoch`).
--     Enforcement.Cas is about sequences of its calls.
-- Watermark: app/models/watermark.py.
-- Lifecycle: app/policy/lifecycle_authorization.py (`failing_lifecycle_conditions`,
--     `evaluate_lifecycle_authorization`).
-- AgentService: app/services/agent_service.py. AgentService.Administration has `register_agent`,
--     `activate_agent`, `disable_agent`, `register_and_activate_agent` and `_administrative_transition`;
--     AgentService.Containment has `suspend_agent`, `reinstate_agent` and `_transition`;
--     AgentService.Planes has `lifecycle_refusal`. The service calls the three repositories above, whose
--     states are its fields. AgentService.Invariant.Reach makes the operations a step relation.
-- Authority: app/runtime/execution_authority.py and app/models/runtime_execution_grant.py.
--     Authority.Issue has `issue`, `suspend_issuance` and `resume_issuance`; Authority.Claim has
--     `verify_grant` and `claim_grant`; Authority.Signing has the payload of `_sign`. `issue` reads the
--     epoch of the enforcement repository. Authority.Binding: app/models/execution_binding.py
--     (`canonicalize_parameters`, `from_operation`), whose sorting Authority.TextOrder is about.
-- Registry: app/registry/tool_registry.py (`register`, `register_factory`, `resolve`, `unregister`), and
--     Registry.Resolution its calls as values.
-- Finding, Risk: app/models/finding.py and app/services/risk_service.py (`score_findings`,
--     `level_for_score`). Risk.Aggregate and Risk.Rebuild: app/services/agent_risk_aggregate.py;
--     Risk.Aggregator: app/services/risk_aggregator.py, and Risk.Operations its calls as values.
-- Findings: app/services/findings_service.py (`record_finding`, `record_new_findings`); Findings.Delivery:
--     what app/services/runtime_service.py does under the posture lock of an agent with the findings of
--     a request, which are recorded here and projected by Risk.Aggregator.
-- Session: app/models/session.py and app/models/session_event.py; Session.Repository:
--     app/repositories/in_memory/session_repository.py (`bind_or_create_session`, `record_event`,
--     `terminalize_session`, `list_eligible_events`, `prune_events`, `update_event_final_decision`);
--     Session.Service: app/services/session_service.py (`end_session`, `expire_idle_sessions`), and
--     Session.Operations its calls as values, with the direct calls of the repository's `save_session`
--     and `terminalize_session`.
-- Evidence: app/models/execution_receipt.py; Evidence.Service:
--     app/services/execution_evidence_service.py (`record_started`, `record_terminal`,
--     `record_reconciled`, `_prune_terminal_locked`); Evidence.Reconciler:
--     app/services/execution_reconciler.py (`reconcile_unresolved`, `reconcile_on_startup`).
-- Coordinator: app/services/enforcement_coordinator.py (`reinstate`, `repair`), which composes
--     AgentService, Authority and Risk.Aggregator.
-- Approval: app/models/approval_continuation.py and
--     app/repositories/in_memory/approval_continuation_repository.py (`create_continuation`,
--     `transition_continuation`).
-- Policy: app/policy/policy_engine.py (`evaluate_policy`), app/models/authorization_result.py.
-- Examples: runs on concrete inputs.
--
-- A method that holds a lock is one step, so an interleaving of callers is a sequence of steps. A
-- `datetime` and a monotonic clock reading are natural numbers; the current time and the values of
-- `uuid4` are arguments. A method that may raise returns a result, and beside an error the state that
-- was left. The HMAC over the JSON text of a payload is a parameter, a function of the payload. There
-- is no fuel: every definition is by structural recursion.
--
-- Not modelled: the listings that only read and sort; the SQL adapters, the HTTP interface, the
-- sandbox and the language-model agents, which are input and output; failures of the storage behind a
-- repository, which the in-memory repositories do not have, so that their reads always answer; and,
-- so far, the numbering of findings that a store is constructed with, the tool catalogue with its
-- capabilities, and the orchestration of the runtime.
pub mod Prelude
pub mod Text
pub mod Dict
pub mod Sorting
pub mod Lists
pub mod Agent
pub mod Administrative
pub mod Enforcement
pub mod Watermark
pub mod Authority
pub mod Finding
pub mod Findings
pub mod Session
pub mod Evidence
pub mod Risk
pub mod Lifecycle
pub mod AgentService
pub mod Coordinator
pub mod Approval
pub mod Policy
pub mod Registry
pub mod Examples
