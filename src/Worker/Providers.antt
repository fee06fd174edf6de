-- ===== src/Worker/Providers.antt =====
-- apps/worker/src/providers: the adapters that execute an intervention, and the choice among them. What the
-- external services do with a call is a parameter: an answer or an error. Texts that are only logged are left
-- out, among them `rawResponseSnippet`.
pub mod Calls
pub mod Answers
pub mod Outcomes
use fin_tech_ai.Worker.Providers.Calls.{
  RequestParameters, ExternalServices, ProviderSettings, CallError, is_test_mode, refuse, succeed,
  succeed_in_full, text_or, is_missing, map_razorpay_error, or_refuse, razorpay_code, link_body,
}
use fin_tech_ai.Base.{
  ℕ, zero, suc, ◌+◌, ◌*◌, ◌≤◌, ◌<◌, ◌≡◌, ◌≢◌, refl, sym, ◌∙◌, inl, inr, Bool, true, false, not,
  ◌&&◌, ◌||◌, Option, none, some, List, [], ◌∷◌, ◌++◌, map, arith, str_eq, eq_iff, String, leb, ltb,
  ◌==◌, join_text, show_number, if◌then◌else◌, Bool-cases, Option-cases, is_some, length, keep,
  exists, find, Result, ok, err, ◌>>=◌, value_or, find_row, update_row, matches, update_all,
}
use fin_tech_ai.Base.{join_text}
use fin_tech_ai.Base.Int.{ℤ}
use fin_tech_ai.Domain.Errors.{DomainError, plain_error}
use fin_tech_ai.Domain.Text.{includes_text}
use fin_tech_ai.Worker.Recovery.{
  ExecutionRequest, ProviderResult, Provider, ExecutionActionType, create_payment_link,
  initiate_payment_retry, send_email_reminder, send_sms_reminder, send_voice_reminder,
  create_human_escalation, other_action,
}

module _ (services : ExternalServices) (settings : ProviderSettings)
    (parameters : RequestParameters) (request : ExecutionRequest) where
  abbrev pub reference_of : String → String
  reference_of kind = join_text (kind ∷ request.intervention_id ∷ "_" ∷ settings.random_part ∷ [])

  -- `RazorpayAdapter.createPaymentLink` and `initiatePaymentRetry`
  unfoldable pub razorpay_create_link : ProviderResult
  razorpay_create_link =
      or_refuse razorpay_code (λ id. succeed (some id))
        (services.create_link
          (link_body request parameters true "Payment Recovery for Case " (reference_of "plink_")))

  unfoldable pub razorpay_initiate_retry : ProviderResult
  razorpay_initiate_retry =
      or_refuse razorpay_code
        (λ id. succeed_in_full request (some (text_or id (reference_of "retry_"))))
        (services.create_order (record {
          amount = request.amount_minor;
          currency = request.currency;
          receipt = request.idempotency_key;
          notes_case_id = request.case_id;
          notes_intervention_id = request.intervention_id;
          notes_attempt_number = text_or parameters.attempt_number "1";
        }))

  unfoldable pub razorpay_action : ExecutionActionType → ProviderResult
  unfolding razorpay_create_link razorpay_initiate_retry
  razorpay_action create_payment_link = razorpay_create_link
  razorpay_action initiate_payment_retry = razorpay_initiate_retry
  razorpay_action _ = refuse "CONFIGURATION_ERROR"

  -- `RazorpayAdapter.execute`
  unfoldable pub razorpay_execute : ProviderResult
  razorpay_execute =
      if not (is_test_mode settings)
      then refuse "CONFIGURATION_ERROR"
      else razorpay_action request.action

  -- `RazorpayRetryAdapter.execute`
  unfoldable pub razorpay_retry_execute : ProviderResult
  razorpay_retry_execute =
      if not (is_test_mode settings && settings.has_razorpay_keys)
      then refuse "CONFIGURATION_ERROR"
      else if is_missing parameters.mandate_id
      then refuse "PROVIDER_REJECTED"
      else or_refuse (λ e. "PROVIDER_REJECTED") (λ id. succeed (some id))
          (services.charge_mandate (record {
            amount = request.amount_minor;
            currency = request.currency;
            receipt = request.idempotency_key;
            token_id = text_or parameters.mandate_id "";
            customer_id = parameters.customer_id;
          }))

  abbrev pub test_mode_action : ExecutionActionType → ProviderResult
  test_mode_action create_payment_link =
      or_refuse (λ e. map_razorpay_error e.status) (λ id. succeed (some id))
        (services.create_test_link (
          link_body request parameters false "Test-mode Payment Recovery for Case "
            request.idempotency_key))
  test_mode_action initiate_payment_retry = succeed_in_full request (some "order_test_123")
  test_mode_action _ = refuse "CONFIGURATION_ERROR"

  -- `RazorpayTestModeRecoveryAdapter.execute`
  unfoldable pub test_mode_execute : ProviderResult
  test_mode_execute =
      if not settings.enable_test_mode
      then refuse "CONFIGURATION_ERROR"
      else test_mode_action request.action

  abbrev pub twilio_action : String → String → ExecutionActionType → ProviderResult
  twilio_action from to send_sms_reminder =
      or_refuse (λ e. "PROVIDER_REJECTED") (λ id. succeed (some id))
        (services.send_message (join_text ("Payment reminder for Case " ∷ request.case_id ∷ []))
          from to)
  twilio_action from to send_voice_reminder =
      or_refuse (λ e. "PROVIDER_REJECTED") (λ id. succeed (some id))
        (services.start_call
          (join_text ("This is a payment reminder for Case " ∷ request.case_id ∷ "." ∷ [])) from to)
  twilio_action from to _ = refuse "CONFIGURATION_ERROR"

  -- `TwilioAdapter.execute`
  unfoldable pub twilio_execute : ProviderResult
  twilio_execute =
      if is_missing settings.twilio_from_number
      then refuse "CONFIGURATION_ERROR"
      else if is_missing parameters.customer_phone
      then refuse "PROVIDER_REJECTED"
      else twilio_action (text_or settings.twilio_from_number "")
          (text_or parameters.customer_phone "") request.action

  abbrev pub mail_result : Result String (Option String) → ProviderResult
  mail_result (err message) = refuse "PROVIDER_REJECTED"
  mail_result (ok id) = succeed id

  -- `ResendAdapter.execute`; without a key there is no address to send from.
  unfoldable pub resend_execute : ProviderResult
  resend_execute =
      if is_missing settings.resend_from_email
      then refuse "CONFIGURATION_ERROR"
      else if is_missing parameters.customer_email
      then refuse "PROVIDER_REJECTED"
      else or_refuse (λ e. "UNKNOWN_ERROR") mail_result
          (services.send_mail (text_or settings.resend_from_email "")
            (text_or parameters.customer_email "")
            (join_text ("Payment Reminder - Case " ∷ request.case_id ∷ [])))

  -- `EscalationService.execute`
  unfoldable pub escalation_execute : ProviderResult
  escalation_execute =
      or_refuse (λ e. "PROVIDER_UNAVAILABLE")
        (λ (drafted : Bool).
          if drafted
          then succeed (some (join_text ("ESCALATION_" ∷ settings.time_text ∷ [])))
          else refuse "PROVIDER_UNAVAILABLE")
        (services.draft_ticket request.case_id)

-- `ProviderFactory.getProvider`: the adapter's `execute`, or the error that the factory throws. The text of the
-- error has the action, which is `NO_ACTION` here.
abbrev pub provider_for :
    ExternalServices
    → ProviderSettings
    → RequestParameters
    → ExecutionRequest
    → ExecutionActionType
    → Result DomainError ProviderResult
provider_for services settings parameters request create_payment_link = ok (
    if settings.enable_test_mode
    then test_mode_execute services settings parameters request
    else razorpay_execute services settings parameters request)
provider_for services settings parameters request initiate_payment_retry = ok (
    if settings.enable_test_mode
    then test_mode_execute services settings parameters request
    else razorpay_retry_execute services settings parameters request)
provider_for services settings parameters request send_email_reminder =
    ok (resend_execute services settings parameters request)
provider_for services settings parameters request send_sms_reminder =
    ok (twilio_execute services settings parameters request)
provider_for services settings parameters request send_voice_reminder =
    ok (twilio_execute services settings parameters request)
provider_for services settings parameters request create_human_escalation =
    ok (escalation_execute services settings parameters request)
provider_for services settings parameters request other_action =
    err (plain_error "No provider configured for action type: NO_ACTION")

unfoldable pub configured_provider :
    ExternalServices → ProviderSettings → RequestParameters → Provider
configured_provider services settings parameters request =
    provider_for services settings parameters request request.action
