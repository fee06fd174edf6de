-- ===== src/Evaluation/Simulation/Rounds.antt =====
-- What a round of the loop makes of its state.
use mathlib.Core.Path.{subst}
use fin_tech_ai.Domain.Dunning.Nodes.{has_consent, policy_input}
use fin_tech_ai.Domain.Dunning.Outcome.{
  final_diagnosis, final_recommendation, final_policy_decision,
}
use fin_tech_ai.Domain.Planning.Proposal.{proposal}
use fin_tech_ai.Evaluation.Simulation.Setup.{evaluation_event}
use fin_tech_ai.Evaluation.Dataset.{
  EvaluationCase, invalid_response, no_customer_response, permanent_failure,
  timeout_once_then_success, payment_link_paid_after_event, success,
}
use fin_tech_ai.Base.{
  refl, ℕ, inl, Bool-cases, inr, Option-cases, ◌+◌, ◌≤◌, ◌≡◌, Bool, true, false, ◌||◌, some, List,
  arith, ◌==◌, exists,
}
use fin_tech_ai.Contracts.{
  human_escalation, no_action, same_intervention, same_state, stopped, escalated, same_reason,
  consent_missing, PolicyDecision, RecoveryReasonCode,
}
use fin_tech_ai.Domain.Policy.{
  PolicyEvaluationInput, evaluate_recovery_policy, case_refusal, action_refusal, contact_refusal,
  final_decision,
}
use fin_tech_ai.Domain.Planning.{initial_state, can_plan, RecoveryPlanProposal}
use fin_tech_ai.Evaluation.Simulation.{
  simulation_input, take_turn, again, ProviderScenario, halt, Turn, execute_action,
  EvaluationSurroundings, Simulation, draft_message, count_block, block_case,
}

abbrev mentions_consent : List RecoveryReasonCode → Bool
mentions_consent codes = exists (same_reason consent_missing) codes

module _ (input : PolicyEvaluationInput) where
  case_refusal-consent :
      (d : PolicyDecision) → case_refusal input ≡ some d → mentions_consent d.reason_codes ≡ false
  unfolding case_refusal
  case_refusal-consent d h = ground arith

  action_refusal-consent :
      (d : PolicyDecision)
      → input.has_consent_for_intervention ≡ some true
      → action_refusal input ≡ some d
      → mentions_consent d.reason_codes ≡ false
  unfolding action_refusal
  action_refusal-consent d given h = ground arith

  contact_refusal-consent :
      (d : PolicyDecision)
      → contact_refusal input ≡ some d
      → mentions_consent d.reason_codes ≡ false
  unfolding contact_refusal
  contact_refusal-consent d h = ground arith

  final_decision-consent : mentions_consent (final_decision input).reason_codes ≡ false
  unfolding final_decision
  final_decision-consent = ground arith

  -- Where consent is given, no decision names its lack as a reason.
  consent_not_mentioned :
      input.has_consent_for_intervention ≡ some true
      → mentions_consent (evaluate_recovery_policy input).reason_codes ≡ false
  unfolding evaluate_recovery_policy
  consent_not_mentioned given = elim (Option-cases (case_refusal input)) [
    | inr (d, e) ↦ rw e (case_refusal-consent d e)
    | inl e ↦ elim (Option-cases (action_refusal input)) [
      | inr (d, f) ↦ rw (e, f) (action_refusal-consent d given f)
      | inl f ↦ elim (Option-cases (contact_refusal input)) [
        | inr (d, g) ↦ rw (e, f, g) (contact_refusal-consent d g)
        | inl g ↦ rw (e, f, g) final_decision-consent
      ]
    ]
  ]

-- The loop before a round.
pub record IsRunning (s : Simulation) : Type 0 where
  pub counted : s.attempt_count ≡ s.interventions_attempted
  pub open_case : can_plan s.state ≡ true
  pub not_recovered : s.is_recovered ≡ false
  pub unsettled : s.interventions_succeeded + s.escalations + s.stops ≡ 0
  pub failures : s.provider_retries + s.provider_final_failures ≤ s.interventions_attempted
  pub timeouts : s.provider_timeouts ≡ s.provider_retries
  pub drafts : s.ai_fallbacks ≤ s.ai_requests
  pub consent : s.consent_blocks ≡ 0

-- After a round that ends the loop.
pub record IsSettled (s : Simulation) : Type 0 where
  pub one_way : s.interventions_succeeded + s.escalations + s.stops ≡ 1
  pub recovered_once : (s.interventions_succeeded == 1) ≡ s.is_recovered
  pub attempted_first : s.interventions_succeeded ≤ s.interventions_attempted
  pub closed : s.is_recovered || (same_state s.state escalated || same_state s.state stopped) ≡ true
  pub failures : s.provider_retries + s.provider_final_failures ≤ s.interventions_attempted
  pub timeouts : s.provider_timeouts ≡ s.provider_retries
  pub drafts : s.ai_fallbacks ≤ s.ai_requests
  pub consent : s.consent_blocks ≡ 0

draft_message-IsRunning :
    (env : EvaluationSurroundings) (p : RecoveryPlanProposal) (s : Simulation)
    → IsRunning s
    → IsRunning (draft_message env p s) × ((draft_message env p s).attempt_count ≡ s.attempt_count)
unfolding draft_message
draft_message-IsRunning env p s h = ground (arith, h)

block_case-IsSettled :
    (d : PolicyDecision) (s : Simulation)
    → mentions_consent d.reason_codes ≡ false
    → IsRunning s
    → IsSettled (block_case d s) × ((block_case d s).interventions_attempted ≡ s.attempt_count)
unfolding block_case count_block can_plan
block_case-IsSettled d s m h = ground (arith, h, m)

-- What a round makes of the loop's state.
pub data Turned (attempts : ℕ) : Turn → Type 0 where
  turned_halt :
      (s : Simulation)
      → IsSettled s
      → s.interventions_attempted ≤ attempts + 1
      → Turned attempts (halt s)
  turned_again :
      (s : Simulation) → IsRunning s → s.attempt_count ≡ attempts + 1 → Turned attempts (again s)

execute_action-Turned :
    (scenario : ProviderScenario) (before s : Simulation)
    → IsRunning before
    → s ≡ record before {
      interventions_attempted = before.interventions_attempted + 1;
      attempt_count = before.attempt_count + 1;
    }
    → Turned before.attempt_count (execute_action scenario s)
unfolding execute_action can_plan
execute_action-Turned success before s h e =
    turned_halt _ (ground (arith, h, e)) (ground (arith, h, e))
execute_action-Turned payment_link_paid_after_event before s h e =
    turned_halt _ (ground (arith, h, e)) (ground (arith, h, e))
execute_action-Turned timeout_once_then_success before s h e =
    elim (Bool-cases (s.attempt_count == 1)) [
      | inl first ↦ rw first (turned_again _ (ground (arith, h, e)) (ground (arith, h, e)))
      | inr later ↦ rw later (turned_halt _ (ground (arith, h, e)) (ground (arith, h, e)))
    ]
execute_action-Turned permanent_failure before s h e =
    turned_again _ (ground (arith, h, e)) (ground (arith, h, e))
execute_action-Turned no_customer_response before s h e =
    turned_again _ (ground (arith, h, e)) (ground (arith, h, e))
execute_action-Turned invalid_response before s h e =
    turned_again _ (ground (arith, h, e)) (ground (arith, h, e))

Turned-at : {t : Turn} {m n : ℕ} → m ≡ n → Turned m t → Turned n t
Turned-at {t = t} e turned = subst (λ k. Turned k t) e turned

module _ (env : EvaluationSurroundings) (c : EvaluationCase) where
  unfoldable pub proposed : Simulation → RecoveryPlanProposal
  proposed s = proposal (env.planning s.attempt_count) (simulation_input env c s)

  -- The consents are handed over as a text, so a proposal never lacks them.
  proposed-consent :
      (s : Simulation) → mentions_consent (proposed s).policy_decision.reason_codes ≡ false
  unfolding proposed proposal final_policy_decision policy_input has_consent evaluation_event
  proposed-consent s =
      let start = initial_state (simulation_input env c s) in
      let around = env.planning s.attempt_count in
      consent_not_mentioned
        (policy_input start (final_diagnosis around start) (final_recommendation around start)) refl

  pub take_turn-Turned :
      (before : Simulation)
      → IsRunning before
      → Turned before.attempt_count
          (take_turn env c.ground_truth.provider_scenario (proposed before) before)
  unfolding take_turn can_plan
  take_turn-Turned before h =
      let p = proposed before in
      let s = draft_message env p before in
      let (running, same) = draft_message-IsRunning env p before h in
      elim (Bool-cases p.policy_decision.approved) [
        | inr refused ↦
            let (settled, counted) =
              block_case-IsSettled p.policy_decision s (proposed-consent before) running in
            rw (refused) (turned_halt _ settled (omega (arith, counted, same)))
        | inl approved ↦ elim (Bool-cases (same_intervention p.plan.intervention_type no_action)) [
          | inl nothing ↦
              rw (approved, nothing)
                (turned_halt _ (ground (arith, running)) (ground (arith, running, same)))
          | inr something ↦
              elim (Bool-cases (
                same_intervention p.plan.intervention_type human_escalation
                || p.policy_decision.requires_human_approval)) [
                  | inl handed ↦
                      rw (approved, something, handed)
                        (turned_halt _ (ground (arith, running)) (ground (arith, running, same)))
                  | inr unattended ↦
                      rw (approved, something, unattended)
                        (Turned-at same
                          (execute_action-Turned c.ground_truth.provider_scenario s _ running refl))
                ]
        ]
      ]
