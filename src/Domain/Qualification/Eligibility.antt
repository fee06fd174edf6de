-- ===== src/Domain/Qualification/Eligibility.antt =====
-- Which events are eligible.
use fin_tech_ai.Base.{
  Option, eq_iff, ℕ, ◌+◌, ◌*◌, ◌≤◌, ◌≡◌, ◌≢◌, ◌↔◌, ◌⊎◌, true, false, none, some, exists, arith,
  String,
}
use fin_tech_ai.Base.Int.{pos, ◌≤ℤ◌}
use fin_tech_ai.Contracts.{
  payment_failed, checkout_abandoned, subscription_failed, invoice_overdue, same_event_type,
  unknown, other_reason, PaymentFailureReason, RevenueEvent,
}
use fin_tech_ai.Domain.Time.{ms_per_hour}
use fin_tech_ai.Domain.Qualification.{
  MerchantConfig, is_reason_missing, qualify_revenue_event, includes,
}

-- What an event has to meet.
pub record IsEligible (event : RevenueEvent) (config : MerchantConfig) (segment : String) (now : ℕ)
    : Type 0 where
  pub segment_served : includes config.excluded_merchant_segments segment ≡ false
  pub amount_positive : pos 1 ≤ℤ event.amount.amount_minor
  pub amount_enough : config.minimum_amount_minor ≤ℤ event.amount.amount_minor
  pub currency_supported : includes config.supported_currencies event.amount.currency ≡ true
  pub fresh : now ≤ event.occurred_at + config.event_max_age_hours * ms_per_hour
  pub type_supported : exists (same_event_type event.event_type) config.supported_event_types ≡ true
  pub type_actionable :
      (event.event_type ≡ payment_failed)
      ⊎ (event.event_type ≡ subscription_failed)
      ⊎ (event.event_type ≡ invoice_overdue)
      ⊎ (event.event_type ≡ checkout_abandoned)
  pub reason_known :
      event.event_type ≡ payment_failed
      → (event.failure_reason ≢ none)
        × (event.failure_reason ≢ some unknown)
        × (event.failure_reason ≢ some (other_reason ""))

is_reason_missing_iff :
    (r : Option PaymentFailureReason)
    → (is_reason_missing r ≡ false)
      ↔ ((r ≢ none) × (r ≢ some unknown) × (r ≢ some (other_reason "")))
is_reason_missing_iff (some (other_reason s)) =
    (λ h. ground (arith, h, eq_iff s ""), λ h. ground (arith, h, eq_iff s ""))
is_reason_missing_iff r = (λ h. ground arith, λ h. ground arith)

module _ (event : RevenueEvent) (config : MerchantConfig) (segment : String) (now : ℕ) where
  -- An event is eligible exactly when it meets all the conditions.
  pub eligible_iff :
      ((qualify_revenue_event event config segment now).eligible ≡ true)
      ↔ IsEligible event config segment now
  unfolding qualify_revenue_event
  eligible_iff =
      let reason = is_reason_missing_iff event.failure_reason in
      (λ h. ground (arith, reason), λ h. ground (arith, reason))
