-- ===== src/Domain/Planning.antt =====
-- libs/domain/src/planning.ts: the proposal of a recovery plan, and the state that follows from it. The
-- audit log of the run, which is written where a database is configured and whose failure is ignored, is
-- left out.
pub mod Proposal
pub mod Safety
use fin_tech_ai.Base.{
  ◌||◌, ℕ, Bool, Option, none, some, not, ◌&&◌, Result, ok, err, ◌>>=◌, ◌>>◌, throw_if,
  if◌then◌else◌,
}
use fin_tech_ai.Contracts.{
  stopped, policy_checked, escalated, RecoveryCase, RevenueEvent, MerchantRecoveryPolicyConfig,
  ActiveInterventionSummary, RecoveryPlan, DiagnosisResult, PolicyDecision, RevenueCaseState,
  same_state, detected, retryable,
}
use fin_tech_ai.Domain.Errors.{DomainError, plain_error}
use fin_tech_ai.Domain.Policy.{is_closed}
use fin_tech_ai.Domain.Dunning.{DunningState, Surroundings, GraphRunner, dunning_workflow}

pub record PlanProposalInput : Type 0 where
  pub rev_case : RecoveryCase
  pub source_event : RevenueEvent
  pub merchant_policy : MerchantRecoveryPolicyConfig
  pub active_intervention_summary : ActiveInterventionSummary
  pub now : ℕ

pub record RecoveryPlanProposal : Type 0 where
  pub plan : RecoveryPlan
  pub diagnosis : DiagnosisResult
  pub policy_decision : PolicyDecision
  pub resulting_case_state : RevenueCaseState

unfoldable pub resolve_planning_outcome :
    RecoveryCase → PolicyDecision → Result DomainError RevenueCaseState
resolve_planning_outcome rev_case decision = do
  throw_if (is_closed rev_case.state) (plain_error "Cannot resolve outcome for terminal case")
  ok (
      if decision.approved
      then if decision.requires_human_approval then escalated else policy_checked
      else if decision.stop_case
      then stopped
      else if decision.escalation_required
      then escalated
      else retryable)

abbrev pub initial_state : PlanProposalInput → DunningState
initial_state input = record {
  rev_case = input.rev_case;
  source_event = input.source_event;
  merchant_policy = input.merchant_policy;
  active_intervention_summary = input.active_intervention_summary;
  now = input.now;
  diagnosis = none;
  shadow_propensity = none;
  candidates = none;
  recommended = none;
  policy_decision = none;
  plan = none;
  resulting_case_state = none;
}

-- `throw new Error('LangGraph Execution Failed: …')`
abbrev pub graph_failed : Result DomainError DunningState → Result DomainError DunningState
graph_failed (ok s) = ok s
graph_failed (err e) = err (plain_error "LangGraph Execution Failed")

abbrev pub or_incomplete : {A : Type 0} → Option A → Result DomainError A
or_incomplete none =
    err (plain_error "LangGraph Dunning Orchestration failed to produce a complete plan")
or_incomplete (some a) = ok a

unfoldable pub can_plan : RevenueCaseState → Bool
can_plan state = same_state state detected || same_state state retryable

unfoldable pub propose_recovery_plan :
    GraphRunner → Surroundings → PlanProposalInput → Result DomainError RecoveryPlanProposal
propose_recovery_plan graph env input = do
  throw_if (not (can_plan input.rev_case.state))
      (plain_error "Cannot propose plan for case in state")
  final ← graph_failed (dunning_workflow graph env (initial_state input))
  diagnosis ← or_incomplete final.diagnosis
  decision ← or_incomplete final.policy_decision
  plan ← or_incomplete final.plan
  resulting ← resolve_planning_outcome input.rev_case decision
  ok (record {
    plan = plan;
    diagnosis = diagnosis;
    policy_decision = decision;
    resulting_case_state = resulting;
  })
