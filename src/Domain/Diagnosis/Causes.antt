-- ===== src/Domain/Diagnosis/Causes.antt =====
-- The rules for root causes as the code of `diagnoseRevenueCase` has them. They differ from the comment above it
-- for fraud, which the comment does not name, and for failed subscriptions, to which the comment gives a cause
-- only where the mandate failed.
use fin_tech_ai.Base.{ℕ, ◌≡◌, ◌≢◌, ◌↔◌, ◌⊎◌, Option, some, arith, ◌≤◌}
use fin_tech_ai.Contracts.{
  EventType, payment_failed, checkout_abandoned, subscription_failed, invoice_overdue,
  PaymentFailureReason, insufficient_funds, bank_timeout, network_error, authentication_required,
  suspected_fraud, RevenueEvent, RecoveryCase, RootCause, transient_bank_or_network_failure,
  insufficient_funds_likely, authentication_or_customer_action_required,
  mandate_or_subscription_issue, checkout_drop_off, invoice_collection_delay, fraud, unknown_cause,
  MerchantRecoveryPolicyConfig,
}
use fin_tech_ai.Domain.Text.{upper_event_type, upper_failure_reason}
use fin_tech_ai.Domain.Diagnosis.{diagnose_revenue_case, find_cause}

-- `Explains t r c`: an event of type `t` that failed for `r` has the root cause `c`.
pub Explains : EventType → Option PaymentFailureReason → RootCause → Type 0
Explains t r fraud = r ≡ some suspected_fraud
Explains t r transient_bank_or_network_failure =
    (t ≡ payment_failed) × ((r ≡ some bank_timeout) ⊎ (r ≡ some network_error))
Explains t r insufficient_funds_likely = (t ≡ payment_failed) × (r ≡ some insufficient_funds)
Explains t r authentication_or_customer_action_required =
    (t ≡ payment_failed) × (r ≡ some authentication_required)
Explains t r mandate_or_subscription_issue = (t ≡ subscription_failed) × (r ≢ some suspected_fraud)
Explains t r checkout_drop_off = (t ≡ checkout_abandoned) × (r ≢ some suspected_fraud)
Explains t r invoice_collection_delay = (t ≡ invoice_overdue) × (r ≢ some suspected_fraud)
Explains t r unknown_cause =
    (r ≢ some suspected_fraud)
    × (t ≢ subscription_failed)
    × (t ≢ checkout_abandoned)
    × (t ≢ invoice_overdue)
    × (t ≡ payment_failed
        → (r ≢ some bank_timeout)
          × (r ≢ some network_error)
          × (r ≢ some insufficient_funds)
          × (r ≢ some authentication_required))

find_cause-Explains :
    (t : EventType) (r : Option PaymentFailureReason) (c : RootCause)
    → ((find_cause t r).0 ≡ c) ↔ Explains t r c
unfolding find_cause Explains
find_cause-Explains t r fraud = (λ h. ground arith, λ h. ground arith)
find_cause-Explains t r c = (λ h. ground arith, λ h. ground arith)

confidence_cases :
    (t : EventType) (r : Option PaymentFailureReason)
    → (((find_cause t r).1 ≡ 0) ↔ ((find_cause t r).0 ≡ fraud)) × ((find_cause t r).1 ≤ 95)
unfolding find_cause
confidence_cases t r = ((λ h. ground arith, λ h. ground arith), ground arith)

module _ (rc : RecoveryCase) (event : RevenueEvent) (policy : MerchantRecoveryPolicyConfig)
    (now : ℕ) where
  -- The diagnosis names a root cause exactly when `Explains` gives that cause to the event's type and failure
  -- reason, both in upper case. It is fraud for every event with that reason. Else a payment that failed has a
  -- known cause for four reasons; a subscription that failed, an abandoned checkout and an overdue invoice have
  -- one each, whatever the reason; and the cause of all others is unknown.
  pub diagnose-Explains :
      (c : RootCause)
      → ((diagnose_revenue_case rc event policy now).root_cause ≡ c)
        ↔ Explains (upper_event_type event.event_type) (upper_failure_reason event.failure_reason) c
  unfolding diagnose_revenue_case
  diagnose-Explains c = find_cause-Explains _ _ c

  -- The confidence is 0 exactly for fraud, and never above 95.
  diagnose-confidence :
      let d = diagnose_revenue_case rc event policy now in
      ((d.confidence ≡ 0) ↔ (d.root_cause ≡ fraud)) × (d.confidence ≤ 95)
  unfolding diagnose_revenue_case
  diagnose-confidence =
      let h =
        confidence_cases (upper_event_type event.event_type)
          (upper_failure_reason event.failure_reason) in
      (h.0, h.1)
