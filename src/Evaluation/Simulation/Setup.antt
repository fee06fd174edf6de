-- ===== src/Evaluation/Simulation/Setup.antt =====
-- libs/evaluation/src/baselines/sut.ts, before the loop: the event, the merchant and the case that are
-- made of a case of the benchmark. `toUpperCase` is modelled on ASCII texts.
use fin_tech_ai.Base.{
  join_text, ℕ, Bool, true, false, ◌&&◌, Option, none, some, [], ◌∷◌, str_eq, String, leb, ◌==◌,
  if◌then◌else◌, exists,
}
use Prim.Native.Char.{Char, code}
use Prim.Native.String.{char_at}
use Prim.Native.Nat.{◌-◌}
use fin_tech_ai.Base.Int.{pos}
use fin_tech_ai.Contracts.{
  EventType, payment_failed, checkout_abandoned, subscription_failed, invoice_overdue,
  payment_recovered, payment_status_updated, other_type, PaymentFailureReason, insufficient_funds,
  bank_timeout, network_error, authentication_required, payment_method_declined, mandate_failed,
  suspected_fraud, unknown, other_reason, consents_text, RevenueEvent, MerchantRecoveryPolicyConfig,
  payment_retry, email_reminder, sms_reminder, no_action, human_escalation, RevenueCaseState,
  RecoveryCase,
}
use fin_tech_ai.Domain.Qualification.{MerchantConfig}
use fin_tech_ai.Evaluation.Dataset.{EvaluationCase}

abbrev upper_char : Char → Char
upper_char c =
    if leb b'a' (code c) && leb (code c) b'z'
    then char_at "ABCDEFGHIJKLMNOPQRSTUVWXYZ" (code c - b'a')
    else c

unfoldable pub to_upper : String → String
to_upper String.[] = ""
to_upper (String.◌∷◌ c s) = String.◌∷◌ (upper_char c) (to_upper s)

-- `replace(/\./g, '_')`
unfoldable pub dots_to_lines : String → String
dots_to_lines String.[] = ""
dots_to_lines (String.◌∷◌ c s) =
    let rest = dots_to_lines s in String.◌∷◌ (if code c == b'.' then char_at "_" 0 else c) rest

-- A text as an event type; the enum's members are their own texts.
abbrev event_type_of_text : String → EventType
event_type_of_text s =
    if str_eq s "PAYMENT_FAILED"
    then payment_failed
    else if str_eq s "CHECKOUT_ABANDONED"
    then checkout_abandoned
    else if str_eq s "SUBSCRIPTION_FAILED"
    then subscription_failed
    else if str_eq s "INVOICE_OVERDUE"
    then invoice_overdue
    else if str_eq s "PAYMENT_RECOVERED"
    then payment_recovered
    else if str_eq s "PAYMENT_STATUS_UPDATED"
    then payment_status_updated
    else other_type s

-- A text as a failure reason. The empty text is as good as none: the program tests it for truth.
abbrev failure_reason_of_text : String → Option PaymentFailureReason
failure_reason_of_text s =
    if str_eq s ""
    then none
    else if str_eq s "INSUFFICIENT_FUNDS"
    then some insufficient_funds
    else if str_eq s "BANK_TIMEOUT"
    then some bank_timeout
    else if str_eq s "NETWORK_ERROR"
    then some network_error
    else if str_eq s "AUTHENTICATION_REQUIRED"
    then some authentication_required
    else if str_eq s "PAYMENT_METHOD_DECLINED"
    then some payment_method_declined
    else if str_eq s "MANDATE_FAILED"
    then some mandate_failed
    else if str_eq s "SUSPECTED_FRAUD"
    then some suspected_fraud
    else if str_eq s "UNKNOWN"
    then some unknown
    else some (other_reason s)

-- `replace(/^SCN_/, '')`
abbrev strip_scenario : String → String
strip_scenario (String.◌∷◌ a (String.◌∷◌ b (String.◌∷◌ c (String.◌∷◌ d s)))) =
    let front = String.◌∷◌ a (String.◌∷◌ b (String.◌∷◌ c (String.◌∷◌ d ""))) in
    if str_eq front "SCN_" then s else String.◌∷◌ a (String.◌∷◌ b (String.◌∷◌ c (String.◌∷◌ d s)))
strip_scenario s = s

abbrev text_or_empty : Option String → String
text_or_empty none = ""
text_or_empty (some s) = s

unfoldable pub to_event_type : String → EventType
unfolding to_upper dots_to_lines
to_event_type s = event_type_of_text (dots_to_lines (to_upper s))

unfoldable pub to_failure_reason : Option String → Option PaymentFailureReason
unfolding to_upper
to_failure_reason reason = failure_reason_of_text (strip_scenario (to_upper (text_or_empty reason)))

abbrev pub evaluation_merchant : MerchantConfig
evaluation_merchant = record {
  minimum_amount_minor = pos 50;
  supported_currencies = "INR" ∷ "USD" ∷ [];
  event_max_age_hours = 720;
  supported_event_types = payment_failed ∷ subscription_failed ∷ invoice_overdue ∷ [];
  excluded_merchant_segments = [];
}

abbrev pub evaluation_policy : EvaluationCase → ℕ → MerchantRecoveryPolicyConfig
evaluation_policy c now = record {
  merchant_id = "merch_test";
  policy_version = "1";
  enabled = true;
  allowed_intervention_types =
      payment_retry ∷ email_reminder ∷ sms_reminder ∷ no_action ∷ human_escalation ∷ [];
  minimum_recovery_score = 10;
  max_attempts_per_case = c.ground_truth.maximum_attempts;
  max_retry_amount_minor = pos 1000000;
  manual_approval_above_amount_minor = pos 5000000;
  stale_event_limit_hours = 720;
  contact_rules = record {
    max_messages_per_customer_window = 2;
    message_window_hours = 24;
    required_consent_channels = "EMAIL_REMINDER" ∷ "SMS_REMINDER" ∷ [];
  };
  supported_currencies = none;
  allow_cross_border = none;
  updated_at = now;
}

abbrev flag_text : Bool → String
flag_text true = "true"
flag_text false = "false"

-- `JSON.stringify({ email, sms, voice })`
abbrev consents_json : EvaluationCase → String
consents_json c =
    let email = exists (str_eq "email") c.known_allowed_channels in
    let sms = exists (str_eq "sms") c.known_allowed_channels in
    join_text
      ("{\"email\":" ∷ flag_text email ∷ ",\"sms\":" ∷ flag_text sms ∷ ",\"voice\":false}" ∷ [])

unfoldable pub evaluation_event : EvaluationCase → RevenueEvent
unfolding to_event_type to_failure_reason
evaluation_event c = record {
  event_id = c.source_event.event_id;
  external_event_id = c.source_event.event_id;
  merchant_id = "merch_test";
  customer_id = "cust_test";
  event_type = to_event_type c.source_event.event_type;
  occurred_at = c.event_timestamp;
  amount = record {
    amount_minor = c.source_event.amount_minor;
    currency = c.source_event.currency;
  };
  failure_reason = to_failure_reason c.source_event.failure_reason;
  correlation_id = "test";
  raw_payload_version = "1.0";
  metadata = record {
    customer_consents = some (consents_text (consents_json c));
    contact_window = none;
  };
}

-- The case in the state and after the attempts that the loop has reached.
abbrev pub evaluation_rev_case : EvaluationCase → ℕ → RevenueCaseState → ℕ → RecoveryCase
evaluation_rev_case c now state attempt_count = record {
  case_id = "case_test";
  merchant_id = "merch_test";
  customer_id = "cust_test";
  amount_at_risk = record {
    amount_minor = c.source_event.amount_minor;
    currency = c.source_event.currency;
  };
  state = state;
  source_event_id = c.source_event.event_id;
  created_at = now;
  updated_at = now;
  attempt_count = attempt_count;
  recovery_score = none;
  root_cause = none;
  version = 1;
  correlation_id = "test";
}
