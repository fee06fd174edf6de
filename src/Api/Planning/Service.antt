-- ===== src/Api/Planning/Service.antt =====
-- What the planning service stores and enqueues.
use fin_tech_ai.Domain.Planning.Proposal.{proposal}
use fin_tech_ai.Persistence.Rows.{find_case, CaseRow, PlanRow}
use fin_tech_ai.Base.{
  ℕ, ◌≡◌, inl, inr, false, Option, some, arith, str_eq, String, Option-cases, find, Result, ok, err,
}
use fin_tech_ai.Persistence.Planning.{
  get_case_with_source_event_and_merchant_policy, find_plan_by_key,
}
use fin_tech_ai.Api.Planning.{
  given_or_own, execution_job, outbox_key, enqueue_plan_with_outbox, list_plans_for_case,
  enqueue_for, enqueue_plan, escaping, to_response, propose_recovery_plan, RecoveryPlan,
  policy_checked, plan_input, policy_approved, get_active_intervention_summary,
  RecoveryPlanProposal, MerchantRecoveryPolicyConfig, RevenueEvent, CaseContext, Surroundings,
  Database, GraphRunner, DomainError, PlanDecisionResponse,
}
use fin_tech_ai.Domain.Planning.Safety.{IsSafe, IsUnattended}

escaping-eq-ok : {A : Type 0} (r : Result DomainError A) {a : A} → escaping r ≡ ok a → r ≡ ok a
escaping-eq-ok (ok a) h = ground arith
escaping-eq-ok (err e) h = cc

-- What stands behind a new plan: the case that was seen, what was proposed for it, which is safe where the plan
-- is approved and needs no person where the case goes on, the plan as it is stored, and the case moved.
pub record IsPlanned (graph : GraphRunner) (env : Surroundings) (case_id : String)
    (correlation_id : Option String) (now : ℕ) (seen db' : Database)
    (response : PlanDecisionResponse) : Type 0 where
  pub context : CaseContext
  pub event : RevenueEvent
  pub policy : MerchantRecoveryPolicyConfig
  pub proposal : RecoveryPlanProposal
  pub row : PlanRow
  pub moved : CaseRow
  pub was_seen : get_case_with_source_event_and_merchant_policy case_id seen ≡ some context
  pub event_seen : context.source_event ≡ some event
  pub policy_seen : context.merchant_policy ≡ some policy
  pub was_proposed :
      propose_recovery_plan graph env (
        plan_input context event policy
          (get_active_intervention_summary context.rev_case.case_id seen)
          now)
      ≡ ok proposal
  pub is_answered : response ≡ to_response context proposal proposal.plan correlation_id
  pub is_proposed : response.plan ≡ proposal.plan
  pub own_case : response.plan.case_id ≡ case_id
  pub is_stored : find_plan_by_key proposal.plan.idempotency_key db' ≡ some row
  pub stored_plan : row.plan ≡ proposal.plan
  pub is_moved : find_case case_id db' ≡ some moved
  pub moved_state : moved.state ≡ response.resulting_case_state
  pub safe :
      response.plan.plan_status ≡ policy_approved
      → IsSafe
          (plan_input context event policy
            (get_active_intervention_summary context.rev_case.case_id seen)
            now)
          proposal
  pub unattended :
      response.resulting_case_state ≡ policy_checked
      → IsUnattended
          (plan_input context event policy
            (get_active_intervention_summary context.rev_case.case_id seen)
            now)
          proposal

-- An answer with a plan that was there before, and nothing is written.
pub IsReplayed : Database → Database → PlanDecisionResponse → Type 0
IsReplayed db db' response =
    (db' ≡ db)
    × (old : PlanRow) × (find_plan_by_key response.plan.idempotency_key db ≡ some old)
    × (old.plan ≡ response.plan)

-- Only a plan that is approved and needs no person is enqueued, only for a case seen in `POLICY_CHECKED`, and
-- with the job of that plan.
pub enqueue_plan-approved :
    (case_id plan_id : String) (correlation_id : Option String) (id : String) (now : ℕ)
    (seen db db' : Database)
    → enqueue_plan case_id plan_id correlation_id id now seen db ≡ ok db'
    → (context : CaseContext) × (plan : RecoveryPlan) × (corr_id : String)
      × (get_case_with_source_event_and_merchant_policy case_id seen ≡ some context)
      × (find (λ (p : RecoveryPlan). str_eq p.plan_id plan_id) (list_plans_for_case case_id seen)
          ≡ some plan)
      × (plan.plan_status ≡ policy_approved)
      × (plan.requires_human_approval ≡ false)
      × (context.rev_case.state ≡ policy_checked)
      × (enqueue_plan_with_outbox case_id plan_id
            (outbox_key plan.plan_id)
            (execution_job context plan corr_id now)
            corr_id
            id
            now
            db
          ≡ ok db')
unfolding enqueue_plan enqueue_for
enqueue_plan-approved case_id plan_id correlation_id id now seen db db' h =
    elim (Option-cases (get_case_with_source_event_and_merchant_policy case_id seen)) [
      | inl missing ↦ ground arith
      | inr (context, was_seen) ↦
          elim (Option-cases (
            find (λ (p : RecoveryPlan). str_eq p.plan_id plan_id)
              (list_plans_for_case case_id seen))) [
                | inl no_plan ↦ ground arith
                | inr (plan, found) ↦ (
                  context,
                  plan,
                  given_or_own correlation_id context.rev_case.correlation_id,
                  was_seen,
                  found,
                  ground arith,
                  ground arith,
                  ground arith,
                  escaping-eq-ok
                      (enqueue_plan_with_outbox case_id plan_id (outbox_key plan.plan_id)
                        (execution_job context plan
                          (given_or_own correlation_id context.rev_case.correlation_id) now)
                        (given_or_own correlation_id context.rev_case.correlation_id) id now db)
                      (ground arith),
                )
              ]
    ]
