-- ===== src/Tests/Plans.antt =====
-- Runs of the proposal of plans.
use fin_tech_ai.Base.{◌≡◌, refl, true, ok}
use fin_tech_ai.Tests.Samples.{sample_input, sample_env, runner, sample_case}
use fin_tech_ai.Domain.Planning.{propose_recovery_plan, can_plan, PlanProposalInput}
use fin_tech_ai.Domain.Planning.Proposal.{proposal, propose_open}
use fin_tech_ai.Domain.Planning.Safety.{
  IsSafe, IsUnattended, approved_plan-IsSafe, policy_checked-IsUnattended,
}
use fin_tech_ai.Base.{true}
use fin_tech_ai.Contracts.{executing, policy_approved, policy_checked}
use fin_tech_ai.Domain.Dunning.Nodes.{
  make_plan, plan_key, policy_input, has_consent, has_many_attempts, override_recommendation,
}
use fin_tech_ai.Domain.Intervention.{
  recommend_intervention, choose_action, choose_channel, select_candidate_interventions,
  candidates_for,
}
use fin_tech_ai.Domain.Policy.{
  evaluate_recovery_policy, case_refusal, action_refusal, contact_refusal, final_decision,
}
use fin_tech_ai.Domain.Diagnosis.{diagnose_revenue_case, find_cause}
use fin_tech_ai.Domain.Time.{is_outside_trai_window}
use fin_tech_ai.Domain.Text.{
  upper_event_type, upper_failure_reason, failure_reason_text, is_card_expired, upper_is,
  includes_text,
}
use fin_tech_ai.Domain.Dunning.Outcome.{
  final_policy_decision, final_diagnosis, final_recommendation, informed_diagnosis, first_diagnosis,
  scored,
}

sample_is_open : can_plan sample_input.rev_case.state ≡ true
unfolding can_plan
sample_is_open = refl

propose_open_example :
    propose_recovery_plan runner sample_env sample_input ≡ ok (proposal sample_env sample_input)
propose_open_example = propose_open runner sample_env sample_input sample_is_open

sample_proposed :
    propose_recovery_plan runner sample_env sample_input ≡ ok (proposal sample_env sample_input)
sample_proposed = propose_open runner sample_env sample_input sample_is_open

abbrev executing_input : PlanProposalInput
executing_input = record sample_input { rev_case = record sample_case { state = executing } }

sample_approved : (proposal sample_env sample_input).plan.plan_status ≡ policy_approved
unfolding proposal final_policy_decision final_diagnosis final_recommendation informed_diagnosis
    first_diagnosis scored make_plan plan_key policy_input has_consent has_many_attempts
    override_recommendation recommend_intervention choose_action choose_channel
    select_candidate_interventions candidates_for evaluate_recovery_policy case_refusal
    action_refusal contact_refusal final_decision diagnose_revenue_case find_cause
    is_outside_trai_window upper_event_type upper_failure_reason failure_reason_text is_card_expired
    upper_is includes_text
sample_approved = refl

sample_checked : (proposal sample_env sample_input).resulting_case_state ≡ policy_checked
unfolding proposal final_policy_decision final_diagnosis final_recommendation informed_diagnosis
    first_diagnosis scored make_plan plan_key policy_input has_consent has_many_attempts
    override_recommendation recommend_intervention choose_action choose_channel
    select_candidate_interventions candidates_for evaluate_recovery_policy case_refusal
    action_refusal contact_refusal final_decision diagnose_revenue_case find_cause
    is_outside_trai_window upper_event_type upper_failure_reason failure_reason_text is_card_expired
    upper_is includes_text
sample_checked = refl

approved_plan-IsSafe_example : IsSafe sample_input (proposal sample_env sample_input)
approved_plan-IsSafe_example =
    approved_plan-IsSafe runner sample_env sample_input {p = proposal sample_env sample_input}
      sample_proposed sample_approved

policy_checked-IsUnattended_example : IsUnattended sample_input (proposal sample_env sample_input)
policy_checked-IsUnattended_example =
    policy_checked-IsUnattended runner sample_env sample_input
      {p = proposal sample_env sample_input} sample_proposed sample_checked
