-- ===== src/Domain/Qualification.antt =====
-- libs/domain/src/qualification.ts: whether an event opens a recovery case. The clock, `Date.now()`, is
-- an argument. Ages are compared in milliseconds, which for whole hours is the comparison in hours.
pub mod Eligibility
use fin_tech_ai.Base.{
  ℕ, ◌+◌, ◌*◌, Bool, true, false, not, ◌||◌, Option, none, some, List, [], ◌∷◌, ◌++◌, exists, ltb,
  ◌==◌, is_some, str_eq, if◌then◌else◌, String,
}
use fin_tech_ai.Base.Int.{ℤ, pos, ltb_ℤ, leb_ℤ}
use fin_tech_ai.Contracts.{
  Money, RevenueCaseState, detected, EventType, payment_failed, checkout_abandoned,
  subscription_failed, invoice_overdue, payment_recovered, payment_status_updated, other_type,
  same_event_type, PaymentFailureReason, unknown, other_reason, RevenueEvent,
}
use fin_tech_ai.Domain.Time.{ms_per_hour}

-- The strings that `qualifyRevenueEvent` pushes.
pub data QualificationReason : Type 0 where
  merchant_segment_excluded zero_amount below_minimum_amount : QualificationReason
  unsupported_currency event_stale unsupported_event_type : QualificationReason
  unsupported_failure_reason non_actionable_event_type unknown_event_type : QualificationReason

pub record MerchantConfig : Type 0 where
  pub supported_event_types : List EventType
  pub minimum_amount_minor : ℤ
  pub event_max_age_hours : ℕ
  pub excluded_merchant_segments : List String
  pub supported_currencies : List String

pub record QualificationResult : Type 0 where
  pub eligible : Bool
  pub reason_codes : List QualificationReason
  pub amount_at_risk : Option Money
  pub initial_state : Option RevenueCaseState
  pub should_create_case : Bool

abbrev pub includes : List String → String → Bool
includes xs x = exists (str_eq x) xs

-- Each check pushes its reasons, and makes the event ineligible when it pushes one.
abbrev pub segment_reasons : MerchantConfig → String → List QualificationReason
segment_reasons config segment =
    if includes config.excluded_merchant_segments segment
    then merchant_segment_excluded ∷ []
    else []

abbrev pub amount_reasons : RevenueEvent → MerchantConfig → List QualificationReason
amount_reasons event config =
    if leb_ℤ event.amount.amount_minor (pos 0)
    then zero_amount ∷ []
    else if ltb_ℤ event.amount.amount_minor config.minimum_amount_minor
    then below_minimum_amount ∷ []
    else []

abbrev pub currency_reasons : RevenueEvent → MerchantConfig → List QualificationReason
currency_reasons event config =
    if includes config.supported_currencies event.amount.currency
    then []
    else unsupported_currency ∷ []

abbrev pub is_stale : RevenueEvent → MerchantConfig → ℕ → Bool
is_stale event config now = ltb (event.occurred_at + config.event_max_age_hours * ms_per_hour) now

abbrev pub age_reasons : RevenueEvent → MerchantConfig → ℕ → List QualificationReason
age_reasons event config now = if is_stale event config now then event_stale ∷ [] else []

abbrev pub type_reasons : RevenueEvent → MerchantConfig → List QualificationReason
type_reasons event config =
    if exists (same_event_type event.event_type) config.supported_event_types
    then []
    else unsupported_event_type ∷ []

-- `!event.failureReason || event.failureReason === PaymentFailureReason.UNKNOWN`
abbrev pub is_reason_missing : Option PaymentFailureReason → Bool
is_reason_missing none = true
is_reason_missing (some unknown) = true
is_reason_missing (some (other_reason s)) = str_eq s ""
is_reason_missing (some _) = false

-- The `switch` on the event type.
abbrev pub rule_reasons : EventType → Option PaymentFailureReason → List QualificationReason
rule_reasons payment_failed reason =
    if is_reason_missing reason then unsupported_failure_reason ∷ [] else []
rule_reasons subscription_failed _ = []
rule_reasons invoice_overdue _ = []
rule_reasons checkout_abandoned _ = []
rule_reasons payment_recovered _ = non_actionable_event_type ∷ []
rule_reasons payment_status_updated _ = non_actionable_event_type ∷ []
rule_reasons (other_type _) _ = unknown_event_type ∷ []

abbrev is_empty : List QualificationReason → Bool
is_empty [] = true
is_empty (_ ∷ _) = false

unfoldable pub qualify_revenue_event :
    RevenueEvent → MerchantConfig → String → ℕ → QualificationResult
qualify_revenue_event event config merchant_segment now =
    let segment = segment_reasons config merchant_segment in
    let amount = amount_reasons event config in
    let currency = currency_reasons event config in
    let age = age_reasons event config now in
    let kind = type_reasons event config in
    let rule = rule_reasons event.event_type event.failure_reason in
    let reasons = segment ++ (amount ++ (currency ++ (age ++ (kind ++ rule)))) in
    let eligible = is_empty reasons in
    record {
      eligible = eligible;
      reason_codes = reasons;
      amount_at_risk = if eligible then some event.amount else none;
      initial_state = if eligible then some detected else none;
      should_create_case = eligible;
    }
