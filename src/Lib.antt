-- ===== src/Lib.antt =====
-- CloudWard: the governance core of its control plane (backend/app). CloudWard detects failing
-- workloads, proposes typed actions, and lets an action run only through its gates. The parts
-- modelled here, and their files:
--
--  * errors.py is Errors: a CloudWardError by its code and HTTP status; Result is ok or a raise.
--  * rbac/policy.py and the Principal of auth/schemas.py are Rbac.
--  * remediation/actions.py is Actions/Registry: the closed set of typed actions, the metadata of
--    each, and the gate `require_executable_action`.
--  * risk/engine.py is Risk/Engine; the floats of one factor are the record of Risk/Floats.
--  * incidents/state_machine.py is Incidents/Machine; incidents/service.py is Incidents/Service, with
--    `change_incident_state`, through which every part moves an incident.
--  * db/models.py is Store/Records, one record for a row, and Store/Case, the rows of the incident
--    that an operation holds. The newest row stands first, as a query by descending date reads them.
--  * config.py is Settings, policies/opa.py is Policy, and kubernetes/executor.py is
--    Kubernetes/Executor.
--  * approvals/service.py is Approvals: Request is `ensure_runtime_approval`, Stale is
--    `_live_target` and `_stale_reason`, Decide is `ApprovalService.decide` with `_invalidate`,
--    `_move_incident` and `_audit_decision`.
--  * remediation/execution.py is Execution: Claim is `claim_action_execution` and
--    `finish_action_execution`, Rollback is `RollbackCoordinator`.
--  * verification/engine.py is Verification/Engine: `check_once` and `verify_until`;
--    verification/multisignal.py is Verification/Outcome, for its `persist_verification`.
--  * runbooks/schema.py and the `match` of runbooks/loader.py are Runbooks; evidence/collector.py is
--    Evidence.
--  * remediation/pipeline.py is Remediation: Plan has the steps up to the policy, Rounds the loop of
--    deletions and verifications, and Pipeline the whole `run` with its handling of a failure.
--  * ai/action_boundary.py is Ai: Boundary is `evaluate_ai_action_candidate`, Labels its
--    `_bounded_labels`.
--  * notifications/service.py is Notifications/Outbox, for its `NotificationService`.
--  * gitops/drift.py is Gitops/Drift, with the read of an Argo CD application from
--    kubernetes/executor.py.
--  * alerts/service.py is Alerts: Inbox is `ingest_alerts` with the tables that it works on.
--
-- How they interact: a change to AWAITING_APPROVAL requests an approval for the latest proposal;
-- `decide` looks at the live target through the Kubernetes executor and asks the policy client before
-- it grants; a granted approval moves its incident back to POLICY_EVALUATION; a claim reads the
-- approval of its proposal and marks it as used. The pipeline collects evidence, chooses a runbook,
-- scores the risk, asks the policy client, and deletes and verifies until a verification succeeds or
-- its attempts are used up; the policy is asked again for each pod that a retry discovers. A firing
-- alert opens an incident through `create_incident`; a suggestion of the AI model becomes a proposal
-- through the same registry, risk score and policy, and is never executed from there.
--
-- An async method is an `Exec` (Exec.antt): a function from a Session to a Result and a Session. The
-- session has the live rows, the committed rows that a database rollback returns to, the state of the
-- world, and a log of the requests that can change something outside. What was written before a raise
-- stays in the live rows. What is not under backend/app is the record Platform: the clocks, the
-- Kubernetes API, OPA, the hash behind the digests, and the regular expressions of names. A request
-- to the Kubernetes API is answered, or ends with an ApiException, which the executor turns into a
-- CloudWardError, or with another exception of the client, which it passes on as a transport error.
-- Each call of the outside may see another state of the world. Alerts and notifications have tables of their
-- own, an Inbox and an Outbox, and what comes from the outside is an argument of their operations.
-- The one unbounded loop is `verify_until`. It runs on a number of rounds; the timeout in
-- milliseconds and one more are enough, and the pipeline gives it as many. A step of the pipeline is
-- described by `Holds` (Remediation/Holds): what holds when it returns, that it raises a CloudWardError
-- or a transport error at most, and what such an error leaves behind. Such an error is ruled out where
-- the Kubernetes API is reachable.
--
-- Identifiers and times are natural numbers. The free-form payloads of timeline, audit and stream
-- rows, log lines, the Prometheus counters other than ACTIVE_INCIDENTS, and the text of errors are
-- left out. The queue of notifications and the capture of settled incidents for the incident memory
-- are recorded as calls. Row locks are not modelled: an operation runs alone on the rows of one
-- incident. Not modelled as well: the HTTP routes, the frontend, the infrastructure files and the
-- demo services, which hold no governance decisions; and the multi-signal verdict, the loading
-- of runbook files, the reliability workflow, the GitOps remediation, security, memory and FinOps modules, and the
-- call of the AI model.
pub mod Prelude
pub mod Errors
pub mod Rbac
pub mod Gitops
pub mod Incidents
pub mod Actions
pub mod Ai
pub mod Alerts
pub mod Risk
pub mod Store
pub mod Notifications
pub mod Platform
pub mod Exec
pub mod Kubernetes
pub mod Policy
pub mod Settings
pub mod Approvals
pub mod Execution
pub mod Verification
pub mod Runbooks
pub mod Evidence
pub mod Remediation
pub mod Tests
