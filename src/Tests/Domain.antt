-- ===== src/Tests/Domain.antt =====
-- Runs of the domain's rules.
use fin_tech_ai.Domain.Text.{upper_failure_reason, upper_event_type}
use fin_tech_ai.Domain.Intervention.{recommend_intervention}
use fin_tech_ai.Domain.Money.{add_money, subtract_money}
use fin_tech_ai.Domain.Diagnosis.{diagnose_revenue_case}
use fin_tech_ai.Contracts.{
  network_error, no_action, payment_retry, payment_failed, arm_payment_retry, payment_link,
  arm_payment_link, transient_bank_or_network_failure, PropensityScore, Money, DiagnosisResult,
}
use fin_tech_ai.Domain.Policy.{PolicyEvaluationInput}
use fin_tech_ai.Domain.Qualification.{MerchantConfig, qualify_revenue_event}
use fin_tech_ai.Domain.Time.{ist_hour, ms_per_hour, is_outside_trai_window}
use fin_tech_ai.Base.{◌⊎◌, ◌↔◌, ℕ, ◌+◌, ◌*◌, ◌≡◌, refl, true, false, none, some, [], ◌∷◌, arith, ok}
use fin_tech_ai.Base.Int.{◌+ℤ◌, pos}
use fin_tech_ai.Tests.Samples.{sample_case, sample_event, sample_policy, nothing_active}
use fin_tech_ai.Domain.Money.Laws.{subtract_money-add_money}
use fin_tech_ai.Domain.Time.Window.{is_outside_trai_window-add_half_day}
use fin_tech_ai.Domain.Qualification.Eligibility.{IsEligible, eligible_iff}
use fin_tech_ai.Domain.Diagnosis.Causes.{Explains, diagnose-Explains}
use fin_tech_ai.Domain.Intervention.Advice.{scores_never_decide}

abbrev rupees : ℕ → Money
rupees n = record { amount_minor = pos (n * 100); currency = "INR" }

fifty : add_money (rupees 30) (rupees 20) ≡ ok (rupees 50)
unfolding add_money ◌+ℤ◌
fifty = refl

subtract_money-add_money_example : subtract_money (rupees 50) (rupees 20) ≡ ok (rupees 30)
subtract_money-add_money_example =
    subtract_money-add_money (rupees 30) (rupees 20) (omega arith) fifty

-- 20:30 in India.
abbrev evening : ℕ
evening = 15 * ms_per_hour

shut : is_outside_trai_window evening ≡ true
unfolding is_outside_trai_window
shut = refl

is_outside_trai_window-add_half_day_example :
    (is_outside_trai_window (evening + 12 * ms_per_hour) ≡ true)
    ↔ ((ist_hour evening ≡ 8) ⊎ (ist_hour evening ≡ 20))
is_outside_trai_window-add_half_day_example = is_outside_trai_window-add_half_day evening shut

abbrev sample_config : MerchantConfig
sample_config = record {
  supported_event_types = payment_failed ∷ [];
  minimum_amount_minor = pos 100;
  event_max_age_hours = 24;
  excluded_merchant_segments = [];
  supported_currencies = "INR" ∷ [];
}

eligible_iff_example :
    ((qualify_revenue_event sample_event sample_config "SMB" 1000).eligible ≡ true)
    ↔ IsEligible sample_event sample_config "SMB" 1000
eligible_iff_example = eligible_iff sample_event sample_config "SMB" 1000

diagnose-Explains_example :
    ((diagnose_revenue_case sample_case sample_event sample_policy 1000).root_cause
      ≡ transient_bank_or_network_failure)
    ↔ Explains
        (upper_event_type payment_failed)
        (upper_failure_reason (some network_error))
        transient_bank_or_network_failure
diagnose-Explains_example =
    diagnose-Explains sample_case sample_event sample_policy 1000 transient_bank_or_network_failure

abbrev sample_diagnosis : DiagnosisResult
sample_diagnosis = record {
  root_cause = transient_bank_or_network_failure;
  confidence = 80;
  reason_codes = [];
  candidate_interventions = [];
  recommended_intervention = no_action;
  requires_human_review = false;
  evaluated_at = 0;
  shadow_propensity = none;
}

abbrev sample_score : PropensityScore
sample_score = record {
  probability_of_recovery_with_retry = pos 10;
  probability_of_recovery_with_link = pos 40;
  recommended_intervention = arm_payment_link;
  shadow_feature_vector = record {
    days_since_last_payment = 30;
    amount_minor = pos 5000;
    is_card_error = false;
    is_high_value_merchant = false;
    is_first_attempt = true;
    amount_segment = "LOW";
    customer_location = "IN";
    payment_channel = "CARD";
  };
}

abbrev other_score : PropensityScore
other_score = record sample_score {
  probability_of_recovery_with_retry = pos 90;
  probability_of_recovery_with_link = pos 5;
  recommended_intervention = arm_payment_retry;
}

scores_never_decide_example :
    recommend_intervention sample_case
      (record sample_diagnosis { shadow_propensity = some other_score })
      (payment_link ∷ [])
      sample_policy
      nothing_active
    ≡ recommend_intervention sample_case
        (record sample_diagnosis { shadow_propensity = some sample_score })
        (payment_link ∷ [])
        sample_policy
        nothing_active
scores_never_decide_example =
    scores_never_decide sample_case sample_diagnosis (payment_link ∷ []) sample_policy
      nothing_active sample_score (pos 90) (pos 5) arm_payment_retry

abbrev decision_input : PolicyEvaluationInput
decision_input = record {
  rev_case = sample_case;
  diagnosis = sample_diagnosis;
  proposed_intervention = payment_retry;
  merchant_policy = sample_policy;
  active_intervention_summary = nothing_active;
  now = 1000;
  has_consent_for_intervention = none;
  contact_window_limit_reached = none;
}
