-- ===== src/Worker/Recovery/Process.antt =====
-- `process` of recovery-plan-execution.processor.ts.
use fin_tech_ai.Domain.Policy.{PolicyEvaluationInput, evaluate_recovery_policy}
use fin_tech_ai.Domain.Dunning.Nodes.{Surroundings, intervention_text}
use fin_tech_ai.Domain.Dunning.Runner.{GraphRunner}
use fin_tech_ai.Base.{
  ℕ, ◌+◌, Bool, true, false, not, ◌||◌, Option, none, some, [], ◌∷◌, str_eq, String, leb, ◌==◌,
  if◌then◌else◌, find, Result, ok, err, ◌>>=◌,
}
use fin_tech_ai.Base.{join_text, show_number}
use fin_tech_ai.Worker.Recovery.{
  stopped_case, plain_error, discarded, ExecutionRequest, ProviderResult, DomainError, Provider,
  JobResult, run_provider, action_type, next_case_state, execution_result, execution_status,
}
use fin_tech_ai.Persistence.Rows.{
  find_intervention_by_key, Database, ExecutionJob, InterventionStatus,
}
use fin_tech_ai.Persistence.Execution.{
  mark_case_for_escalation_after_workflow_failure, PrepareInterventionCommand,
  prepare_intervention_for_execution, mark_case_for_stop_after_workflow_failure,
}
use fin_tech_ai.Persistence.Locking.{claim_execution_lock}
use fin_tech_ai.Persistence.Settlement.{persist_execution_result}
use fin_tech_ai.Persistence.Planning.{
  get_active_intervention_summary, get_case_with_source_event_and_merchant_policy,
  list_plans_for_case, CaseContext,
}
use fin_tech_ai.Contracts.{
  executing, MerchantRecoveryPolicyConfig, queued, policy_approved, DiagnosisResult, detected,
  PolicyDecision, same_state, same_plan_status, RecoveryCase, ActiveInterventionSummary,
  RevenueCaseState, RecoveryPlan,
}
use fin_tech_ai.Domain.Planning.{propose_recovery_plan}

-- What a job reads that does not come from the database or the queue.
pub record WorkerSurroundings : Type 0 where
  pub graph : GraphRunner
  pub env : Surroundings
  pub provider : Provider
  pub worker_id : String
  pub intervention_id : String
  pub now : ℕ

unfoldable pub intervention_key : RecoveryPlan → ℕ → String
intervention_key plan attempt =
    join_text (
      plan.plan_id
      ∷ "-"
      ∷ intervention_text plan.intervention_type
      ∷ "-"
      ∷ show_number attempt
      ∷ [])

-- `{ ...revCase, state: RevenueCaseState.DETECTED }`
abbrev pub as_detected : RecoveryCase → RecoveryCase
as_detected rc = record rc { state = detected }

abbrev pub recheck_input :
    RecoveryCase
    → DiagnosisResult
    → RecoveryPlan
    → MerchantRecoveryPolicyConfig
    → ActiveInterventionSummary
    → ℕ
    → PolicyEvaluationInput
recheck_input rc diagnosis plan policy active now = record {
  rev_case = as_detected rc;
  diagnosis = diagnosis;
  proposed_intervention = plan.intervention_type;
  merchant_policy = policy;
  active_intervention_summary = active;
  now = now;
  has_consent_for_intervention = none;
  contact_window_limit_reached = none;
}

-- The policy decision on the plan as things are now. A merchant without a policy, or a case without its
-- event, makes the evaluation throw.
unfoldable pub reevaluate :
    WorkerSurroundings
    → CaseContext
    → RecoveryPlan
    → ActiveInterventionSummary
    → Result DomainError PolicyDecision
reevaluate w context plan active = elim context.source_event [
  | none ↦ err (plain_error "LangGraph Execution Failed")
  | some event ↦ elim context.merchant_policy [
    | none ↦ err (plain_error "LangGraph Execution Failed")
    | some policy ↦ do
      proposal ← propose_recovery_plan w.graph w.env (record {
        rev_case = as_detected context.rev_case;
        source_event = event;
        merchant_policy = policy;
        active_intervention_summary = active;
        now = w.now;
      })
      ok (
          evaluate_recovery_policy
            (recheck_input context.rev_case proposal.diagnosis plan policy active w.now))
  ]
]

abbrev pub execution_request :
    RecoveryCase → RecoveryPlan → ExecutionJob → String → ExecutionRequest
execution_request rc plan job id = record {
  intervention_id = id;
  case_id = job.case_id;
  merchant_id = job.merchant_id;
  action = action_type plan.intervention_type;
  amount_minor = rc.amount_at_risk.amount_minor;
  currency = rc.amount_at_risk.currency;
  idempotency_key = intervention_key plan job.attempt;
}

-- Steps 5 and 6. The reconciliation job that an ambiguous result puts on the queue is left out.
unfoldable pub settle_result :
    RecoveryCase
    → RecoveryPlan
    → String
    → ProviderResult
    → ℕ
    → Database
    → Result DomainError JobResult × Database
settle_result rc plan id result now db =
    let (next, remaining) =
      next_case_state (action_type plan.intervention_type) result rc.amount_at_risk.amount_minor in
    elim (persist_execution_result (execution_result id result now) next remaining now db) [
      | err e ↦ (err e, db)
      | ok db' ↦ (ok (JobResult.executed (execution_status result) id), db')
    ]

-- Phase E.
unfoldable pub execute_intervention :
    WorkerSurroundings
    → RecoveryCase
    → RecoveryPlan
    → ExecutionJob
    → String
    → Database
    → Result DomainError JobResult × Database
execute_intervention w rc plan job id db =
    let (won, db') = claim_execution_lock id w.worker_id w.now db in
    if not won
    then (ok (discarded "CONCURRENT_EXECUTION"), db')
    else elim (run_provider w.provider (execution_request rc plan job id)) [
      | err e ↦ (err e, db')
      | ok result ↦ settle_result rc plan id result w.now db'
    ]

abbrev pub prepare_command : RecoveryPlan → ExecutionJob → PrepareInterventionCommand
prepare_command plan job = record {
  plan_id = plan.plan_id;
  case_id = plan.case_id;
  merchant_id = job.merchant_id;
  intervention_type = plan.intervention_type;
  idempotency_key = intervention_key plan job.attempt;
  attempt_count = job.attempt;
}

abbrev pub is_settled : InterventionStatus → Bool
is_settled InterventionStatus.succeeded = true
is_settled InterventionStatus.failed = true
is_settled _ = false

-- Phases C to E.
unfoldable pub prepare_and_execute :
    WorkerSurroundings
    → RecoveryCase
    → RecoveryPlan
    → ExecutionJob
    → Database
    → Result DomainError JobResult × Database
prepare_and_execute w rc plan job db =
    elim (find_intervention_by_key (intervention_key plan job.attempt) db) [
      | some row ↦
          if is_settled row.status
          then (ok (discarded "ALREADY_EXECUTED"), db)
          else execute_intervention w rc plan job row.id db
      | none ↦
          elim (prepare_intervention_for_execution (prepare_command plan job) w.intervention_id
            w.now db) [
              | err e ↦ (err e, db)
              | ok (row, db') ↦ execute_intervention w rc plan job row.id db'
            ]
    ]

abbrev pub can_execute : RevenueCaseState → Bool
can_execute s = same_state s queued || same_state s executing

-- Phase B, and what follows.
unfoldable pub validate_and_execute :
    WorkerSurroundings
    → CaseContext
    → RecoveryPlan
    → ExecutionJob
    → Database
    → Result DomainError JobResult × Database
validate_and_execute w context plan job db =
    if not (same_plan_status plan.plan_status policy_approved) || plan.requires_human_approval
    then (ok (discarded "PLAN_NOT_APPROVED"), db)
    else if not (can_execute context.rev_case.state)
    then (ok (discarded "INVALID_CASE_STATE"), db)
    else elim (reevaluate w context plan (get_active_intervention_summary job.case_id db)) [
      | err e ↦ (err e, db)
      | ok decision ↦
          if decision.approved
          then prepare_and_execute w context.rev_case plan job db
          else if decision.stop_case
          then (
            ok (stopped_case "POLICY_REJECTED_ON_REVALUATION_FATAL"),
            mark_case_for_stop_after_workflow_failure job.case_id w.now db,
          )
          else (ok (discarded "POLICY_REJECTED_TRANSIENT"), db)
    ]

abbrev pub find_plan : ExecutionJob → Database → Option RecoveryPlan
find_plan job db =
    find (λ (p : RecoveryPlan). str_eq p.plan_id job.plan_id) (list_plans_for_case job.case_id db)

-- The `try` block.
unfoldable pub try_job :
    WorkerSurroundings → ExecutionJob → Database → Result DomainError JobResult × Database
try_job w job db = elim (get_case_with_source_event_and_merchant_policy job.case_id db) [
  | none ↦ (ok (discarded "CASE_NOT_FOUND"), db)
  | some context ↦ elim (find_plan job db) [
    | none ↦ (ok (discarded "PLAN_NOT_FOUND"), db)
    | some plan ↦ validate_and_execute w context plan job db
  ]
]

-- `job.attemptsMade >= (job.opts.attempts || 3) - 1`, where `attempts` is at least 1.
abbrev pub is_exhausted : ℕ → Option ℕ → Bool
is_exhausted attempts_made none = leb 2 attempts_made
is_exhausted attempts_made (some attempts) =
    if attempts == 0 then leb 2 attempts_made else leb attempts (attempts_made + 1)

-- The whole, with the number of attempts that the queue has made and may make.
unfoldable pub process_job :
    WorkerSurroundings
    → ExecutionJob
    → ℕ
    → Option ℕ
    → Database
    → Result DomainError JobResult × Database
process_job w job attempts_made attempts db =
    let (result, db') = try_job w job db in
    elim result [
      | ok r ↦ (ok r, db')
      | err e ↦ (
        err e,
        if is_exhausted attempts_made attempts
            then mark_case_for_escalation_after_workflow_failure job.case_id w.now db'
            else db',
      )
    ]
