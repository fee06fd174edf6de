-- ===== src/Tests/Services.antt =====
-- Runs of the planning service and of the worker's jobs.
use fin_tech_ai.Domain.Errors.{DomainError}
use fin_tech_ai.Base.{ℕ, ◌≡◌, refl, true, none, some, [], ◌∷◌, ok, err}
use fin_tech_ai.Base.{show_number, decimal_digits}
use fin_tech_ai.Base.Int.{ℤ, pos, ◌-ℤ◌, ◌+ℤ◌, ◌≤ℤ◌}
use fin_tech_ai.Contracts.{queued, recovered, detected, RevenueCaseState, Money}
use fin_tech_ai.Tests.Samples.{
  row_in, db_with, db_executing, sample_plan, fifty_rupees, runner, sample_env,
}
use fin_tech_ai.Domain.Dunning.Nodes.{
  score_propensity_node, diagnose_node, override_recommendation, recommend_node, has_consent,
  has_many_attempts, policy_input, evaluate_policy_node, plan_key, make_plan, create_plan_node,
}
use fin_tech_ai.Domain.Dunning.Runner.{dunning_nodes, dunning_workflow, run_nodes}
use fin_tech_ai.Domain.Intervention.{
  candidates_for, select_candidate_interventions, choose_channel, choose_action,
  recommend_intervention,
}
use fin_tech_ai.Domain.Policy.{
  case_refusal, action_refusal, contact_refusal, final_decision, evaluate_recovery_policy,
}
use fin_tech_ai.Domain.Diagnosis.{find_cause, diagnose_revenue_case}
use fin_tech_ai.Domain.Text.{
  upper_is, includes_text, upper_event_type, upper_failure_reason, failure_reason_text,
  is_card_expired,
}
use fin_tech_ai.Domain.Propensity.{ml_payload, score_propensity}
use fin_tech_ai.Domain.Time.{is_outside_trai_window}
use fin_tech_ai.Domain.Planning.{resolve_planning_outcome, can_plan, propose_recovery_plan}
use fin_tech_ai.Persistence.Planning.{
  list_plans_for_case, get_case_with_source_event_and_merchant_policy,
  get_active_intervention_summary,
}
use fin_tech_ai.Persistence.Execution.{
  start_executing, prepare_intervention_from, prepare_intervention_for_execution,
}
use fin_tech_ai.Persistence.Locking.{claim_execution_lock}
use fin_tech_ai.Persistence.Settlement.{persist_from, settle_read, persist_execution_result}
use fin_tech_ai.Worker.Recovery.{
  JobResult, action_type, execution_status, retry_outcome, success_outcome,
}
use fin_tech_ai.Worker.Recovery.Process.{
  intervention_key, reevaluate, settle_result, execute_intervention, prepare_and_execute,
  validate_and_execute,
}
use fin_tech_ai.Persistence.Rows.{InterventionStatus, Database, ExecutionJob}
use fin_tech_ai.Worker.Recovery.{
  ProviderResult, initiate_payment_retry, next_case_state, create_payment_link,
}
use fin_tech_ai.Worker.Recovery.Settlement.{partial_recovery, recovered_only}
use fin_tech_ai.Worker.Recovery.Safety.{IsCleared, executed-IsCleared}
use fin_tech_ai.Worker.Recovery.Process.{try_job, WorkerSurroundings}
use fin_tech_ai.Worker.Reconciliation.{reconcile, ReconciliationJob, reconcile_settles_nothing}

abbrev paid : ℕ → ProviderResult
paid n = record {
  success = true;
  external_reference = some "pay-2";
  recovered_amount = some (record { amount_minor = pos n; currency = "INR" });
  failure_code = none;
  retry_after = none;
}

partial_recovery_example :
    (rest : ℤ) × (next_case_state initiate_payment_retry (paid 2000) (pos 5000)
      ≡ (detected, some rest))
    × (rest +ℤ pos 2000 ≡ pos 5000)
    × (pos 1 ≤ℤ rest)
partial_recovery_example =
    partial_recovery (paid 2000) (record { amount_minor = pos 2000; currency = "INR" }) (pos 5000)
      refl refl refl

recovers : (next_case_state initiate_payment_retry (paid 5000) (pos 5000)).0 ≡ recovered
unfolding next_case_state success_outcome retry_outcome
recovers = refl

recovered_only_example :
    (true ≡ true)
    × (initiate_payment_retry ≡ initiate_payment_retry
        → (m : Money) × (some fifty_rupees ≡ some m) × (pos 5000 ≤ℤ m.amount_minor))
recovered_only_example = recovered_only initiate_payment_retry (paid 5000) (pos 5000) recovers

abbrev db_ambiguous : Database
db_ambiguous = record (db_executing RevenueCaseState.ambiguous) {
  outcomes =
      record {
        intervention_id = "int-1";
        status = InterventionStatus.ambiguous;
        recovered_amount_minor = none;
      }
      ∷ [];
}

abbrev sample_reconciliation : ReconciliationJob
sample_reconciliation = record {
  intervention_id = "int-1";
  case_id = "case-1";
  action = create_payment_link;
}

reconcile_settles_nothing_example :
    ((reconcile sample_reconciliation 9000 db_ambiguous).1 ≡ db_ambiguous)
    × (RevenueCaseState.ambiguous ≡ RevenueCaseState.ambiguous
        → (e : DomainError) × ((reconcile sample_reconciliation 9000 db_ambiguous).0 ≡ err e))
reconcile_settles_nothing_example =
    reconcile_settles_nothing sample_reconciliation 9000 db_ambiguous
      (record {
        intervention_id = "int-1";
        status = InterventionStatus.ambiguous;
        recovered_amount_minor = none;
      })
      (row_in RevenueCaseState.ambiguous) refl refl

abbrev worker : WorkerSurroundings
worker = record {
  graph = runner;
  env = sample_env;
  provider = λ request. ok (paid 5000);
  worker_id = "worker-1";
  intervention_id = "int-1";
  now = 2000;
}

abbrev sample_job : ExecutionJob
sample_job = record {
  job_id = "plan-1-enqueue";
  plan_id = "plan-1";
  case_id = "case-1";
  merchant_id = "merchant-1";
  correlation_id = "corr-1";
  plan_idempotency_key = sample_plan.idempotency_key;
  requested_at = 1500;
  attempt = 1;
}

abbrev db_ready : Database
db_ready = record (db_with (row_in queued)) {
  plans = record { plan = sample_plan; correlation_id = "corr-1" } ∷ [];
}

executes : try_job worker sample_job db_ready ≡ (
  ok (JobResult.executed InterventionStatus.succeeded "int-1"),
  (try_job worker sample_job db_ready).1,
)
unfolding score_propensity_node diagnose_node override_recommendation recommend_node has_consent
    has_many_attempts policy_input evaluate_policy_node plan_key make_plan create_plan_node
    dunning_nodes dunning_workflow run_nodes candidates_for select_candidate_interventions
    choose_channel choose_action recommend_intervention case_refusal action_refusal contact_refusal
    final_decision evaluate_recovery_policy find_cause diagnose_revenue_case upper_is includes_text
    upper_event_type upper_failure_reason failure_reason_text is_card_expired ml_payload
    score_propensity is_outside_trai_window resolve_planning_outcome can_plan propose_recovery_plan
    list_plans_for_case get_case_with_source_event_and_merchant_policy
    get_active_intervention_summary start_executing prepare_intervention_from
    prepare_intervention_for_execution claim_execution_lock settle_read persist_from
    persist_execution_result action_type execution_status retry_outcome success_outcome
    next_case_state intervention_key reevaluate settle_result execute_intervention
    prepare_and_execute validate_and_execute try_job runner show_number decimal_digits ◌-ℤ◌ ◌+ℤ◌
executes = refl

executed-IsCleared_example : IsCleared worker sample_job db_ready
executed-IsCleared_example =
    executed-IsCleared worker sample_job db_ready (try_job worker sample_job db_ready).1
      InterventionStatus.succeeded "int-1" executes
