-- ===== src/Tests/Api.antt =====
-- Runs of the planning service.
use fin_tech_ai.Base.{◌≡◌, refl, false, none, some, [], ◌∷◌, str_eq, String, find, ok, value_or}
use fin_tech_ai.Domain.Planning.Proposal.{proposal}
use fin_tech_ai.Persistence.Planning.{
  list_plans_for_case, get_case_with_source_event_and_merchant_policy,
}
use fin_tech_ai.Api.Planning.{
  PlanDecisionResponse, to_response, enqueue_plan, enqueue_for, execution_job, outbox_key,
}
use fin_tech_ai.Api.Planning.Service.{enqueue_plan-approved}
use fin_tech_ai.Persistence.Planning.{
  CaseContext, to_recovery_case, store_plan, enqueue_plan_with_outbox, enqueue_plan_from,
}
use fin_tech_ai.Contracts.{policy_checked, policy_approved, RecoveryPlan}
use fin_tech_ai.Domain.Planning.{RecoveryPlanProposal}
use fin_tech_ai.Persistence.Rows.{Database}
use fin_tech_ai.Tests.Samples.{
  sample_row, row_in, db_with, sample_plan, sample_env, sample_input, sample_event, sample_policy,
}

abbrev sample_context : CaseContext
sample_context = record {
  rev_case = to_recovery_case sample_row;
  source_event = some sample_event;
  merchant_policy = some sample_policy;
}

abbrev first_proposal : RecoveryPlanProposal
first_proposal = proposal sample_env sample_input

abbrev first_response : PlanDecisionResponse
first_response = to_response sample_context first_proposal first_proposal.plan none

abbrev db_planned : Database
db_planned =
    store_plan
      (record {
        plan = first_proposal.plan;
        resulting_case_state = first_proposal.resulting_case_state;
      })
      sample_row 1000 (db_with sample_row)

abbrev db_checked : Database
db_checked = record (db_with (row_in policy_checked)) {
  plans = record { plan = sample_plan; correlation_id = "corr-1" } ∷ [];
}

abbrev db_enqueued : Database
db_enqueued = value_or db_checked (
    enqueue_plan_with_outbox "case-1" "plan-1" "plan-1-enqueue"
      (execution_job (record sample_context { rev_case = to_recovery_case (row_in policy_checked) })
        sample_plan "corr-1" 1500)
      "corr-1" "outbox-1" 1500 db_checked)

enqueues :
    enqueue_plan "case-1" "plan-1" none "outbox-1" 1500 db_checked db_checked ≡ ok db_enqueued
unfolding enqueue_plan enqueue_for enqueue_plan_with_outbox enqueue_plan_from
    get_case_with_source_event_and_merchant_policy list_plans_for_case
enqueues = refl

enqueue_plan-approved_example :
    (context : CaseContext) × (plan : RecoveryPlan) × (corr_id : String)
    × (get_case_with_source_event_and_merchant_policy "case-1" db_checked ≡ some context)
    × (find
          (λ (p : RecoveryPlan). str_eq p.plan_id "plan-1")
          (list_plans_for_case "case-1" db_checked)
        ≡ some plan)
    × (plan.plan_status ≡ policy_approved)
    × (plan.requires_human_approval ≡ false)
    × (context.rev_case.state ≡ policy_checked)
    × (enqueue_plan_with_outbox "case-1" "plan-1"
          (outbox_key plan.plan_id)
          (execution_job context plan corr_id 1500)
          corr_id
          "outbox-1"
          1500
          db_checked
        ≡ ok db_enqueued)
enqueue_plan-approved_example =
    enqueue_plan-approved "case-1" "plan-1" none "outbox-1" 1500 db_checked db_checked db_enqueued
      enqueues
