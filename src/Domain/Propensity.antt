-- ===== src/Domain/Propensity.antt =====
-- libs/domain/src/ml/propensity.ts: the shadow propensity score. The reply of the model service is an
-- argument: none where the request fails, the status is not ok or the body cannot be read. Probabilities
-- are in hundredths; the heuristic's steps are whole hundredths, so none is rounded.
use Prim.Native.Nat.{max, min}
use fin_tech_ai.Base.{
  ℕ, ◌+◌, ◌-◌, ◌*◌, ◌/◌, Bool, false, Option, none, some, ltb, ◌==◌, if◌then◌else◌,
}
use fin_tech_ai.Base.Int.{ℤ, pos, ltb_ℤ}
use fin_tech_ai.Contracts.{
  PaymentFailureReason, RevenueEvent, RecoveryCase, FeatureVector, arm_payment_retry,
  arm_payment_link, PropensityScore,
}
use fin_tech_ai.Domain.Text.{failure_reason_text, includes_text}

-- The fields of the service's reply that are read.
pub record MlResponse : Type 0 where
  pub first_uplift : ℤ
  pub second_uplift : ℤ
  pub best_is_intervention_a : Bool

is_card_error : Option PaymentFailureReason → Bool
unfolding failure_reason_text includes_text
is_card_error none = false
is_card_error (some r) = includes_text (failure_reason_text r) "insufficient_funds"

abbrev is_high_amount : RecoveryCase → Bool
is_high_amount rc = ltb_ℤ (pos 1000000) rc.amount_at_risk.amount_minor

unfoldable pub ml_payload : RecoveryCase → RevenueEvent → FeatureVector
unfolding is_card_error
ml_payload rc event = record {
  days_since_last_payment = max 1 ((rc.updated_at - rc.created_at) / (1000 * 60 * 60 * 24 * 30));
  amount_minor = rc.amount_at_risk.amount_minor;
  is_card_error = is_card_error event.failure_reason;
  is_high_value_merchant = is_high_amount rc;
  is_first_attempt = rc.attempt_count == 0;
  amount_segment = if is_high_amount rc then "7) $1,000 +" else "2) $100 - $200";
  customer_location = "Urban";
  payment_channel = "Web";
}

-- `pLink` and `pRetry` of the fallback.
abbrev heuristic_link : RecoveryCase → ℕ
heuristic_link rc =
    50 + (if is_high_amount rc then 20 else 0) + (if ltb 2 rc.attempt_count then 20 else 0)

abbrev heuristic_retry : RecoveryCase → ℕ
heuristic_retry rc =
    50 - (if is_high_amount rc then 10 else 0) - (if ltb 2 rc.attempt_count then 20 else 0)

unfoldable pub score_propensity : Option MlResponse → RecoveryCase → RevenueEvent → PropensityScore
score_propensity (some reply) rc event = record {
  probability_of_recovery_with_retry = reply.first_uplift;
  probability_of_recovery_with_link = reply.second_uplift;
  recommended_intervention =
      if reply.best_is_intervention_a then arm_payment_retry else arm_payment_link;
  shadow_feature_vector = ml_payload rc event;
}
score_propensity none rc event = record {
  probability_of_recovery_with_retry = pos (max 0 (min 100 (heuristic_retry rc)));
  probability_of_recovery_with_link = pos (max 0 (min 100 (heuristic_link rc)));
  recommended_intervention =
      if ltb (heuristic_retry rc) (heuristic_link rc) then arm_payment_link else arm_payment_retry;
  shadow_feature_vector = ml_payload rc event;
}
