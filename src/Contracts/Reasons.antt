-- ===== src/Contracts/Reasons.antt =====
-- libs/contracts/src/policy.ts: root causes and reason codes.
use fin_tech_ai.Base.{ℕ, Bool, ◌==◌}

-- `RootCause`
pub data RootCause : Type 0 where
  transient_bank_or_network_failure insufficient_funds_likely
        authentication_or_customer_action_required mandate_or_subscription_issue :
      RootCause
  checkout_drop_off invoice_collection_delay fraud unknown_cause : RootCause

abbrev pub index_cause : RootCause → ℕ
index_cause transient_bank_or_network_failure = 0
index_cause insufficient_funds_likely = 1
index_cause authentication_or_customer_action_required = 2
index_cause mandate_or_subscription_issue = 3
index_cause checkout_drop_off = 4
index_cause invoice_collection_delay = 5
index_cause fraud = 6
index_cause unknown_cause = 7

-- `===` on `RootCause`.
abbrev pub same_cause : RootCause → RootCause → Bool
same_cause a b = index_cause a == index_cause b

-- `RecoveryReasonCode`
pub data RecoveryReasonCode : Type 0 where
  failure_reason_transient failure_reason_insufficient_funds failure_reason_auth_required
        failure_reason_mandate :
      RecoveryReasonCode
  checkout_abandoned_code invoice_overdue_code amount_below_threshold event_too_stale :
      RecoveryReasonCode
  attempt_limit_reached consent_missing channel_not_allowed retry_amount_limit_exceeded :
      RecoveryReasonCode
  low_confidence_escalation human_approval_required terminal_case no_safe_intervention :
      RecoveryReasonCode
  merchant_policy_excluded fraud_detected currency_not_supported cross_border_restricted :
      RecoveryReasonCode

abbrev pub index_reason : RecoveryReasonCode → ℕ
index_reason failure_reason_transient = 0
index_reason failure_reason_insufficient_funds = 1
index_reason failure_reason_auth_required = 2
index_reason failure_reason_mandate = 3
index_reason checkout_abandoned_code = 4
index_reason invoice_overdue_code = 5
index_reason amount_below_threshold = 6
index_reason event_too_stale = 7
index_reason attempt_limit_reached = 8
index_reason consent_missing = 9
index_reason channel_not_allowed = 10
index_reason retry_amount_limit_exceeded = 11
index_reason low_confidence_escalation = 12
index_reason human_approval_required = 13
index_reason terminal_case = 14
index_reason no_safe_intervention = 15
index_reason merchant_policy_excluded = 16
index_reason fraud_detected = 17
index_reason currency_not_supported = 18
index_reason cross_border_restricted = 19

-- `===` on `RecoveryReasonCode`.
abbrev pub same_reason : RecoveryReasonCode → RecoveryReasonCode → Bool
same_reason a b = index_reason a == index_reason b
