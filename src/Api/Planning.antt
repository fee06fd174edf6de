-- ===== src/Api/Planning.antt =====
-- apps/api/src/modules/planning/planning.service.ts. A service reads first and writes in a transaction
-- later: `seen` is the database that it reads, `db` the one that its transaction finds.
pub mod Service
use fin_tech_ai.Domain.Dunning.Nodes.{Surroundings}
use fin_tech_ai.Domain.Dunning.Runner.{GraphRunner}
use fin_tech_ai.Domain.Errors.{plain_error, DomainError}
use fin_tech_ai.Base.{
  throw_if, ◌>>◌, join_text, ℕ, zero, suc, ◌+◌, ◌*◌, ◌≤◌, ◌<◌, ◌≡◌, ◌≢◌, refl, sym, ◌∙◌, inl, inr,
  Bool, true, false, not, ◌&&◌, ◌||◌, Option, none, some, List, [], ◌∷◌, ◌++◌, map, arith, str_eq,
  eq_iff, String, leb, ltb, ◌==◌, if◌then◌else◌, Bool-cases, Option-cases, is_some, length, keep,
  exists, find, Result, ok, err, ◌>>=◌, value_or, find_row, update_row, matches, update_all,
}
use fin_tech_ai.Persistence.Rows.{ExecutionJob, Database}
use fin_tech_ai.Persistence.Planning.{
  CaseContext, create_plan_with_planning_outcome, enqueue_plan_with_outbox,
  get_case_with_source_event_and_merchant_policy, get_active_intervention_summary,
  list_plans_for_case,
}
use fin_tech_ai.Domain.Planning.{
  PlanProposalInput, RecoveryPlanProposal, propose_recovery_plan, can_plan,
}
use fin_tech_ai.Contracts.{
  policy_checked, same_state, policy_approved, same_plan_status, ActiveInterventionSummary,
  RevenueCaseState, MerchantRecoveryPolicyConfig, PolicyDecision, DiagnosisResult, RevenueEvent,
  RecoveryPlan,
}

-- `NotFoundException`, `ConflictException`, the latter with the message of a caught error,
-- and an error that is not caught.
pub data ApiError : Type 0 where
  not_found conflict : String → ApiError
  conflict_from uncaught : DomainError → ApiError

-- An error of the `try` block.
abbrev pub caught : {A : Type 0} → Result DomainError A → Result ApiError A
caught (ok a) = ok a
caught (err e) = err (conflict_from e)

abbrev pub escaping : {A : Type 0} → Result DomainError A → Result ApiError A
escaping (ok a) = ok a
escaping (err e) = err (uncaught e)

-- `PlanDecisionResponse`
pub record PlanDecisionResponse : Type 0 where
  pub case_id : String
  pub plan : RecoveryPlan
  pub diagnosis : DiagnosisResult
  pub policy_decision : PolicyDecision
  pub resulting_case_state : RevenueCaseState
  pub idempotent_replay : Bool
  pub correlation_id : String

-- `correlationId || revCase.correlationId`
abbrev pub given_or_own : Option String → String → String
given_or_own none own = own
given_or_own (some s) own = if str_eq s "" then own else s

abbrev pub plan_input :
    CaseContext
    → RevenueEvent
    → MerchantRecoveryPolicyConfig
    → ActiveInterventionSummary
    → ℕ
    → PlanProposalInput
plan_input context event policy active now = record {
  rev_case = context.rev_case;
  source_event = event;
  merchant_policy = policy;
  active_intervention_summary = active;
  now = now;
}

-- Without a source event the graph throws, after the check of the state.
unfoldable pub propose_for :
    GraphRunner
    → Surroundings
    → CaseContext
    → MerchantRecoveryPolicyConfig
    → ActiveInterventionSummary
    → ℕ
    → Result DomainError RecoveryPlanProposal
propose_for graph env context policy active now = elim context.source_event [
  | none ↦
      if can_plan context.rev_case.state
      then err (plain_error "LangGraph Execution Failed")
      else err (plain_error "Cannot propose plan for case in state")
  | some event ↦ propose_recovery_plan graph env (plan_input context event policy active now)
]

abbrev pub to_response :
    CaseContext → RecoveryPlanProposal → RecoveryPlan → Option String → PlanDecisionResponse
to_response context proposal persisted correlation_id = record {
  case_id = context.rev_case.case_id;
  plan = persisted;
  diagnosis = proposal.diagnosis;
  policy_decision = proposal.policy_decision;
  resulting_case_state = proposal.resulting_case_state;
  idempotent_replay = not (str_eq persisted.plan_id proposal.plan.plan_id);
  correlation_id = given_or_own correlation_id context.rev_case.correlation_id;
}

unfoldable pub create_plan_for :
    GraphRunner
    → Surroundings
    → CaseContext
    → MerchantRecoveryPolicyConfig
    → Option String
    → ℕ
    → Database
    → Database
    → Result ApiError (PlanDecisionResponse × Database)
create_plan_for graph env context policy correlation_id now seen db = do
  proposal ← caught (
      propose_for graph env context policy
        (get_active_intervention_summary context.rev_case.case_id seen) now)
  stored ← caught (
      create_plan_with_planning_outcome
        (record { plan = proposal.plan; resulting_case_state = proposal.resulting_case_state }) now
        db)
  ok (to_response context proposal stored.0 correlation_id, stored.1)

unfoldable pub create_plan :
    GraphRunner
    → Surroundings
    → String
    → String
    → Option String
    → ℕ
    → Database
    → Database
    → Result ApiError (PlanDecisionResponse × Database)
create_plan graph env case_id policy_version correlation_id now seen db =
    elim (get_case_with_source_event_and_merchant_policy case_id seen) [
      | none ↦ err (not_found "Case not found")
      | some context ↦ elim context.merchant_policy [
        | none ↦ err (conflict "Merchant has no policy config")
        | some policy ↦
            if not (str_eq policy.policy_version policy_version)
            then err (conflict "Requested policy version does not match effective merchant policy")
            else create_plan_for graph env context policy correlation_id now seen db
      ]
    ]

abbrev pub outbox_key : String → String
outbox_key plan_id = join_text (plan_id ∷ "-enqueue" ∷ [])

abbrev pub execution_job : CaseContext → RecoveryPlan → String → ℕ → ExecutionJob
execution_job context plan correlation_id now = record {
  job_id = outbox_key plan.plan_id;
  plan_id = plan.plan_id;
  case_id = plan.case_id;
  merchant_id = context.rev_case.merchant_id;
  correlation_id = correlation_id;
  plan_idempotency_key = plan.idempotency_key;
  requested_at = now;
  attempt = 1;
}

-- The transaction's error is not caught here.
unfoldable pub enqueue_for :
    CaseContext
    → RecoveryPlan
    → String
    → String
    → Option String
    → String
    → ℕ
    → Database
    → Result ApiError Database
enqueue_for context plan case_id plan_id correlation_id id now db =
    let corr_id = given_or_own correlation_id context.rev_case.correlation_id in
    escaping (
      enqueue_plan_with_outbox case_id plan_id (outbox_key plan.plan_id)
        (execution_job context plan corr_id now) corr_id id now db)

unfoldable pub enqueue_plan :
    String → String → Option String → String → ℕ → Database → Database → Result ApiError Database
enqueue_plan case_id plan_id correlation_id id now seen db =
    elim (get_case_with_source_event_and_merchant_policy case_id seen) [
      | none ↦ err (not_found "Case not found")
      | some context ↦
          elim (find (λ (p : RecoveryPlan). str_eq p.plan_id plan_id)
            (list_plans_for_case case_id seen)) [
              | none ↦ err (not_found "Plan not found")
              | some plan ↦ do
                throw_if (not (same_plan_status plan.plan_status policy_approved))
                    (conflict "Plan must be POLICY_APPROVED to enqueue")
                throw_if plan.requires_human_approval (conflict "Plan requires human approval")
                throw_if (not (same_state context.rev_case.state policy_checked))
                    (conflict "Case is not in the expected state POLICY_CHECKED")
                enqueue_for context plan case_id plan_id correlation_id id now db
            ]
    ]
