-- ===== src/Domain/Policy/Approval.antt =====
-- When the policy approves, and what an approval says. The conditions are those of the code. It has no gate for a
-- cooldown or for the channels that are configured, which docs/features/POLICIES.md lists, and it refuses a
-- foreign currency only where the merchant's setting is `false`.
use fin_tech_ai.Base.{
  refl, ◌∙◌, Option, ◌||◌, inr, inl, Bool-cases, [], str_eq, exists, ◌⊎◌, ◌≢◌, ◌↔◌, ◌≤◌, arith,
  none, true, false, ◌<◌, some, ◌≡◌,
}
use fin_tech_ai.Base.Int.{◌≤ℤ◌}
use fin_tech_ai.Domain.Policy.{
  or_else, needs_manual_approval, domestic_currencies, listed_currencies, currency_refused,
  is_call_or_sms, is_reminder, includes_type, is_closed, final_decision, action_refusal,
  case_refusal, contact_refusal, PolicyEvaluationInput, evaluate_recovery_policy,
}
use fin_tech_ai.Domain.Time.{is_outside_trai_window}
use fin_tech_ai.Contracts.{
  same_intervention, payment_retry, human_escalation, no_action, fraud, PolicyDecision,
}

-- The conditions on the case and its currency.
pub record CaseAllowed (input : PolicyEvaluationInput) : Type 0 where
  pub open_case : is_closed input.rev_case.state ≡ false
  pub policy_enabled : input.merchant_policy.enabled ≡ true
  pub no_fraud : input.diagnosis.root_cause ≢ fraud
  pub currency_supported :
      currency_refused
        (listed_currencies input.merchant_policy.supported_currencies)
        input.rev_case.amount_at_risk.currency
      ≡ false
  pub border_respected :
      input.merchant_policy.allow_cross_border ≡ some false
      → exists
          (str_eq input.rev_case.amount_at_risk.currency)
          (domestic_currencies (listed_currencies input.merchant_policy.supported_currencies))
        ≡ true

-- The conditions on the proposed intervention.
pub record ActionAllowed (input : PolicyEvaluationInput) : Type 0 where
  pub attempts_left : input.rev_case.attempt_count < input.merchant_policy.max_attempts_per_case
  pub type_allowed :
      includes_type input.merchant_policy.allowed_intervention_types input.proposed_intervention
      ≡ true
  pub confident :
      (input.merchant_policy.minimum_recovery_score ≤ input.diagnosis.confidence)
      ⊎ (input.proposed_intervention ≡ human_escalation)
      ⊎ (input.proposed_intervention ≡ no_action)
  pub retry_within_limit :
      input.proposed_intervention ≡ payment_retry
      → input.rev_case.amount_at_risk.amount_minor ≤ℤ input.merchant_policy.max_retry_amount_minor
  pub consent_not_refused : input.has_consent_for_intervention ≢ some false

-- The conditions on the contact with the customer.
pub record ContactAllowed (input : PolicyEvaluationInput) : Type 0 where
  pub window_open :
      input.contact_window_limit_reached ≡ some true
      → is_reminder input.proposed_intervention ≡ false
  pub in_hours :
      is_outside_trai_window input.now ≡ true → is_call_or_sms input.proposed_intervention ≡ false

-- A refusal's terms: it approves nothing, gives a reason, and asks to wait only where the case goes on
-- and the intervention is a reminder.
pub record Refuses (input : PolicyEvaluationInput) (d : PolicyDecision) : Type 0 where
  pub not_approved : d.approved ≡ false
  pub explained : d.reason_codes ≢ []
  pub nothing_approved : d.approved_intervention ≡ none
  pub waits_only_reminders :
      d.retry_after ≢ none
      → (d.stop_case ≡ false) × (is_reminder input.proposed_intervention ≡ true)

-- An approval's terms: the proposed intervention goes ahead, at once, with a person's approval exactly
-- for the amounts that need it and for an escalation.
pub record Approves (input : PolicyEvaluationInput) (d : PolicyDecision) : Type 0 where
  pub approved_proposal : d.approved_intervention ≡ some input.proposed_intervention
  pub goes_on : (d.stop_case ≡ false) × (d.retry_after ≡ none)
  pub approval_needed : d.requires_human_approval ≡ (
      needs_manual_approval input.rev_case input.merchant_policy
      || same_intervention input.proposed_intervention human_escalation)

module _ (input : PolicyEvaluationInput) where
  case_refusal_iff : (case_refusal input ≡ none) ↔ CaseAllowed input
  unfolding case_refusal
  case_refusal_iff = (λ h. ground arith, λ h. ground arith)

  action_refusal_iff : (action_refusal input ≡ none) ↔ ActionAllowed input
  unfolding action_refusal
  action_refusal_iff = (λ h. ground arith, λ h. ground arith)

  contact_refusal_iff : (contact_refusal input ≡ none) ↔ ContactAllowed input
  unfolding contact_refusal
  contact_refusal_iff = (λ h. ground arith, λ h. ground arith)

  case_refusal-Refuses : (d : PolicyDecision) → case_refusal input ≡ some d → Refuses input d
  unfolding case_refusal
  case_refusal-Refuses d h = ground arith

  action_refusal-Refuses : (d : PolicyDecision) → action_refusal input ≡ some d → Refuses input d
  unfolding action_refusal
  action_refusal-Refuses d h = ground arith

  contact_refusal-Refuses : (d : PolicyDecision) → contact_refusal input ≡ some d → Refuses input d
  unfolding contact_refusal
  contact_refusal-Refuses d h = ground arith

  final_decision_terms :
      (input.proposed_intervention ≢ no_action)
        × ((final_decision input).approved ≡ true)
        × Approves input (final_decision input)
      ⊎ (input.proposed_intervention ≡ no_action) × Refuses input (final_decision input)
  unfolding final_decision
  final_decision_terms =
      elim (Bool-cases (same_intervention input.proposed_intervention no_action)) [
        | inl stop ↦ inr (ground arith, ground arith)
        | inr go ↦ inl (ground arith, ground arith, ground arith)
      ]

  -- A refusal of a group stands, or the next groups decide.
  or_else-cases :
      (o : Option PolicyDecision) (d : PolicyDecision)
      → ((r : PolicyDecision) → o ≡ some r → Refuses input r)
      → ((o ≡ none) × (or_else o d ≡ d)) ⊎ Refuses input (or_else o d)
  or_else-cases none d h = inl (refl, refl)
  or_else-cases (some r) d h = inr (h r refl)

  decision_cases :
      ((case_refusal input ≡ none)
        × (action_refusal input ≡ none)
        × (contact_refusal input ≡ none)
        × (evaluate_recovery_policy input ≡ final_decision input))
      ⊎ Refuses input (evaluate_recovery_policy input)
  unfolding evaluate_recovery_policy
  decision_cases =
      let last = or_else (contact_refusal input) (final_decision input) in
      let rest = or_else (action_refusal input) last in
      elim (or_else-cases (case_refusal input) rest case_refusal-Refuses) [
        | inr r ↦ inr r
        | inl (e, p) ↦ elim (or_else-cases (action_refusal input) last action_refusal-Refuses) [
          | inr r ↦ inr (rw p r)
          | inl (f, q) ↦
              elim (or_else-cases (contact_refusal input) (final_decision input)
                contact_refusal-Refuses) [
                  | inr r ↦ inr (rw (p, q) r)
                  | inl (g, s) ↦ inl (e, f, g, p ∙ q ∙ s)
                ]
        ]
      ]

  pub approved_iff : ((evaluate_recovery_policy input).approved ≡ true) ↔ (
      CaseAllowed input
      × ActionAllowed input
      × ContactAllowed input
      × (input.proposed_intervention ≢ no_action))
  approved_iff = (approved_only, approved_if)
    where
      approved_only :
          (evaluate_recovery_policy input).approved ≡ true
          → CaseAllowed input
            × ActionAllowed input
            × ContactAllowed input
            × (input.proposed_intervention ≢ no_action)
      approved_only h = elim decision_cases [
        | inr r ↦ absurd (ground (arith, h, r.not_approved))
        | inl (e, f, g, p) ↦ elim final_decision_terms [
          | inr (stop, r) ↦ absurd (ground (arith, h, p, r.not_approved))
          | inl (go, ok_now, a) ↦
              (case_refusal_iff.0 e, action_refusal_iff.0 f, contact_refusal_iff.0 g, go)
        ]
      ]

      approved_if :
          CaseAllowed input
            × ActionAllowed input
            × ContactAllowed input
            × (input.proposed_intervention ≢ no_action)
          → (evaluate_recovery_policy input).approved ≡ true
      approved_if (c, a, k, go) =
          unfold evaluate_recovery_policy in
          rw (case_refusal_iff.1 c, action_refusal_iff.1 a, contact_refusal_iff.1 k)
            (elim final_decision_terms [ inl t ↦ t.1 | inr t ↦ absurd (go t.0) ])

  -- Every decision that approves has the terms of an approval, and every other one those of a refusal.
  pub decision_terms :
      let d = evaluate_recovery_policy input in
      (d.approved ≡ true) × Approves input d ⊎ Refuses input d
  decision_terms = elim decision_cases [
    | inr r ↦ inr r
    | inl (e, f, g, p) ↦
        rw p (elim final_decision_terms [ inr t ↦ inr t.1 | inl t ↦ inl (t.1, t.2) ])
  ]
