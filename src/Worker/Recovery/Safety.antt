-- ===== src/Worker/Recovery/Safety.antt =====
-- When a job reaches a provider, and what it may do to the cases.
use fin_tech_ai.Contracts.{executing, queued, policy_approved, PolicyDecision}
use fin_tech_ai.Persistence.Planning.{
  get_active_intervention_summary, CaseContext, get_case_with_source_event_and_merchant_policy,
}
use fin_tech_ai.Base.{
  Result-cases, ◌⊎◌, ◌≡◌, inl, inr, true, false, some, arith, String, Option-cases, ok,
}
use fin_tech_ai.Worker.Recovery.{RecoveryPlan, JobResult}
use fin_tech_ai.Worker.Recovery.Process.{
  find_plan, try_job, validate_and_execute, reevaluate, WorkerSurroundings,
}
use fin_tech_ai.Persistence.Rows.{Database, ExecutionJob, InterventionStatus}

-- What stands behind an execution.
pub record IsCleared (w : WorkerSurroundings) (job : ExecutionJob) (db : Database) : Type 0 where
  pub context : CaseContext
  pub plan : RecoveryPlan
  pub decision : PolicyDecision
  pub was_seen : get_case_with_source_event_and_merchant_policy job.case_id db ≡ some context
  pub was_found : find_plan job db ≡ some plan
  pub is_approved : plan.plan_status ≡ policy_approved
  pub needs_nobody : plan.requires_human_approval ≡ false
  pub in_state : (context.rev_case.state ≡ queued) ⊎ (context.rev_case.state ≡ executing)
  pub still_decided :
      reevaluate w context plan (get_active_intervention_summary job.case_id db) ≡ ok decision
  pub still_approved : decision.approved ≡ true

-- A job reports an execution only for a plan that was approved, needs no person, and is approved again by
-- the policy as things are now, and for a case in `QUEUED` or `EXECUTING`.
pub executed-IsCleared :
    (w : WorkerSurroundings) (job : ExecutionJob) (db db' : Database) (status : InterventionStatus)
    (id : String)
    → try_job w job db ≡ (ok (JobResult.executed status id), db')
    → IsCleared w job db
unfolding try_job validate_and_execute
executed-IsCleared w job db db' status id h =
    elim (Option-cases (get_case_with_source_event_and_merchant_policy job.case_id db)) [
      | inl missing ↦ ground arith
      | inr (context, was_seen) ↦ elim (Option-cases (find_plan job db)) [
        | inl no_plan ↦ ground arith
        | inr (plan, was_found) ↦
            elim (Result-cases
              (reevaluate w context plan (get_active_intervention_summary job.case_id db))) [
                | inl (e, failed) ↦ ground arith
                | inr (decision, decided) ↦ record {
                  context = context;
                  plan = plan;
                  decision = decision;
                  was_seen = was_seen;
                  was_found = was_found;
                  is_approved = ground arith;
                  needs_nobody = ground arith;
                  in_state = ground arith;
                  still_decided = decided;
                  still_approved = ground arith;
                }
              ]
      ]
    ]
