-- ===== src/Domain/Planning/Safety.antt =====
-- The safety of what is proposed, from the merchant's policy to the plan and the state of the case.
use mathlib.Core.Path.{subst}
use fin_tech_ai.Domain.Intervention.{includes_type, needs_manual_approval}
use fin_tech_ai.Base.{sym, ◌<◌, inr, false, arith, inl, ◌≢◌, ok, true, ◌≡◌}
use fin_tech_ai.Base.Int.{◌≤ℤ◌}
use fin_tech_ai.Domain.Planning.{
  PlanProposalInput, RecoveryPlanProposal, propose_recovery_plan, initial_state,
}
use fin_tech_ai.Domain.Dunning.{has_consent, Surroundings, GraphRunner, policy_input}
use fin_tech_ai.Domain.Dunning.Nodes.{make_plan}
use fin_tech_ai.Domain.Dunning.Outcome.{
  final_diagnosis, final_recommendation, final_policy_decision,
}
use fin_tech_ai.Domain.Planning.Proposal.{proposal, propose-eq}
use fin_tech_ai.Contracts.{
  payment_retry, no_action, fraud, human_escalation, policy_checked, policy_approved,
}
use fin_tech_ai.Domain.Policy.{is_reminder, PolicyEvaluationInput}
use fin_tech_ai.Domain.Policy.Approval.{approved_iff, decision_terms}
use fin_tech_ai.Domain.Time.{is_outside_trai_window}

-- What the merchant's policy and the law ask of a plan that is approved.
pub record IsSafe (input : PlanProposalInput) (p : RecoveryPlanProposal) : Type 0 where
  pub policy_enabled : input.merchant_policy.enabled ≡ true
  pub no_fraud : p.diagnosis.root_cause ≢ fraud
  pub attempts_left : input.rev_case.attempt_count < input.merchant_policy.max_attempts_per_case
  pub type_allowed :
      includes_type input.merchant_policy.allowed_intervention_types p.plan.intervention_type ≡ true
  pub does_something : p.plan.intervention_type ≢ no_action
  pub retry_within_limit :
      p.plan.intervention_type ≡ payment_retry
      → input.rev_case.amount_at_risk.amount_minor ≤ℤ input.merchant_policy.max_retry_amount_minor
  pub contact_hours :
      is_outside_trai_window input.now ≡ true → is_reminder p.plan.intervention_type ≡ false
  pub consent :
      has_consent input.source_event.metadata.customer_consents p.plan.intervention_type ≡ true

-- A plan that needs no person: approved, no escalation, and the amount below the manual threshold.
pub record IsUnattended (input : PlanProposalInput) (p : RecoveryPlanProposal) : Type 0 where
  pub approved : p.plan.plan_status ≡ policy_approved
  pub no_approval_due : p.plan.requires_human_approval ≡ false
  pub no_escalation : p.plan.intervention_type ≢ human_escalation
  pub small_amount : needs_manual_approval input.rev_case input.merchant_policy ≡ false

module _ (env : Surroundings) (input : PlanProposalInput) where
  decision_input : PolicyEvaluationInput
  decision_input =
      policy_input (initial_state input) (final_diagnosis env (initial_state input))
        (final_recommendation env (initial_state input))

  proposal-IsSafe :
      (proposal env input).plan.plan_status ≡ policy_approved → IsSafe input (proposal env input)
  unfolding proposal make_plan decision_input policy_input final_policy_decision
  proposal-IsSafe h =
      let (c, a, k, go) = (approved_iff decision_input).0 (ground arith) in
      ground (arith, c, a, k, go)

  proposal-IsUnattended :
      (proposal env input).resulting_case_state ≡ policy_checked
      → IsUnattended input (proposal env input)
  unfolding proposal make_plan decision_input policy_input final_policy_decision
  proposal-IsUnattended h = elim (decision_terms decision_input) [
    | inl t ↦ ground (arith, t.0, t.1)
    | inr r ↦ ground (arith, r.not_approved)
  ]

module _ (graph : GraphRunner) (env : Surroundings) (input : PlanProposalInput) where
  -- A proposed plan whose status is `POLICY_APPROVED` is safe.
  pub approved_plan-IsSafe :
      {p : RecoveryPlanProposal}
      → propose_recovery_plan graph env input ≡ ok p
      → p.plan.plan_status ≡ policy_approved
      → IsSafe input p
  approved_plan-IsSafe h a =
      let (_, e) = propose-eq graph env input h in
      subst (λ q. q.plan.plan_status ≡ policy_approved → IsSafe input q) (sym e)
        (proposal-IsSafe env input) a

  -- A proposal moves the case to `POLICY_CHECKED` only with a plan that needs no person.
  pub policy_checked-IsUnattended :
      {p : RecoveryPlanProposal}
      → propose_recovery_plan graph env input ≡ ok p
      → p.resulting_case_state ≡ policy_checked
      → IsUnattended input p
  policy_checked-IsUnattended h a =
      let (_, e) = propose-eq graph env input h in
      subst (λ q. q.resulting_case_state ≡ policy_checked → IsUnattended input q) (sym e)
        (proposal-IsUnattended env input) a
