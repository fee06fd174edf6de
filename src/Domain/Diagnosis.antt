-- ===== src/Domain/Diagnosis.antt =====
-- libs/domain/src/diagnosis.ts: the root cause of a failed payment.
pub mod Causes
use fin_tech_ai.Base.{
  ℕ, ◌+◌, ◌*◌, Bool, true, false, Option, none, some, List, [], ◌∷◌, ◌++◌, ltb, if◌then◌else◌,
}
use fin_tech_ai.Contracts.{
  EventType, payment_failed, checkout_abandoned, subscription_failed, invoice_overdue,
  PaymentFailureReason, insufficient_funds, bank_timeout, network_error, authentication_required,
  mandate_failed, suspected_fraud, RevenueEvent, RecoveryCase, RootCause,
  transient_bank_or_network_failure, insufficient_funds_likely,
  authentication_or_customer_action_required, mandate_or_subscription_issue, checkout_drop_off,
  invoice_collection_delay, fraud, unknown_cause, RecoveryReasonCode, failure_reason_transient,
  failure_reason_insufficient_funds, failure_reason_auth_required, failure_reason_mandate,
  checkout_abandoned_code, invoice_overdue_code, event_too_stale, fraud_detected, no_action,
  DiagnosisResult, MerchantRecoveryPolicyConfig,
}
use fin_tech_ai.Domain.Text.{upper_event_type, upper_failure_reason}
use fin_tech_ai.Domain.Time.{ms_per_hour}

-- `rootCause`, `confidence` in hundredths and the first `reasonCodes`.
abbrev pub Finding : Type 0
Finding = RootCause × ℕ × List RecoveryReasonCode

abbrev pub is_fraud_reason : Option PaymentFailureReason → Bool
is_fraud_reason (some suspected_fraud) = true
is_fraud_reason _ = false

payment_finding : Option PaymentFailureReason → Finding
payment_finding (some bank_timeout) =
    (transient_bank_or_network_failure, 95, failure_reason_transient ∷ [])
payment_finding (some network_error) =
    (transient_bank_or_network_failure, 95, failure_reason_transient ∷ [])
payment_finding (some insufficient_funds) =
    (insufficient_funds_likely, 95, failure_reason_insufficient_funds ∷ [])
payment_finding (some authentication_required) =
    (authentication_or_customer_action_required, 95, failure_reason_auth_required ∷ [])
payment_finding _ = (unknown_cause, 75, [])

subscription_finding : Option PaymentFailureReason → Finding
subscription_finding (some mandate_failed) =
    (mandate_or_subscription_issue, 95, failure_reason_mandate ∷ [])
subscription_finding _ = (mandate_or_subscription_issue, 75, [])

type_finding : EventType → Option PaymentFailureReason → Finding
type_finding payment_failed reason = payment_finding reason
type_finding subscription_failed reason = subscription_finding reason
type_finding checkout_abandoned reason = (checkout_drop_off, 95, checkout_abandoned_code ∷ [])
type_finding invoice_overdue reason = (invoice_collection_delay, 95, invoice_overdue_code ∷ [])
type_finding _ reason = (unknown_cause, 40, [])

unfoldable pub find_cause : EventType → Option PaymentFailureReason → Finding
unfolding type_finding payment_finding subscription_finding
find_cause event_type failure_reason =
    if is_fraud_reason failure_reason
    then (fraud, 0, fraud_detected ∷ [])
    else type_finding event_type failure_reason

unfoldable pub diagnose_revenue_case :
    RecoveryCase → RevenueEvent → MerchantRecoveryPolicyConfig → ℕ → DiagnosisResult
diagnose_revenue_case rev_case source_event merchant_policy now =
    let finding =
      find_cause (upper_event_type source_event.event_type)
        (upper_failure_reason source_event.failure_reason) in
    let too_old =
      ltb (source_event.occurred_at + merchant_policy.stale_event_limit_hours * ms_per_hour) now in
    record {
      root_cause = finding.0;
      confidence = finding.1;
      reason_codes = finding.2 ++ (if too_old then event_too_stale ∷ [] else []);
      candidate_interventions = [];
      recommended_intervention = no_action;
      requires_human_review = false;
      evaluated_at = now;
      shadow_propensity = none;
    }
