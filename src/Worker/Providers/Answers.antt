-- ===== src/Worker/Providers/Answers.antt =====
-- Which codes the adapters refuse with: none of them is that of a timeout.
use fin_tech_ai.Base.{
  ℕ, ◌≡◌, ◌≢◌, refl, inl, inr, Bool, true, false, not, ◌&&◌, ◌||◌, Option, none, some, [], ◌∷◌,
  arith, str_eq, String, leb, ◌==◌, join_text, if◌then◌else◌, Bool-cases, Result, ok, err,
}
use fin_tech_ai.Worker.Recovery.{
  ExecutionActionType, create_payment_link, initiate_payment_retry, send_email_reminder,
  send_sms_reminder, send_voice_reminder, create_human_escalation, other_action, ExecutionRequest,
  ProviderResult, execution_status,
}
use fin_tech_ai.Domain.Text.{includes_text}
use fin_tech_ai.Persistence.Rows.{InterventionStatus}
use fin_tech_ai.Worker.Providers.Calls.{
  is_missing, is_test_mode, text_or, succeed, ExternalServices, ProviderSettings, RequestParameters,
  CallError, refuse, or_refuse, razorpay_code, map_razorpay_error,
}
use fin_tech_ai.Worker.Providers.{
  razorpay_action, test_mode_action, twilio_action, razorpay_create_link, razorpay_initiate_retry,
  razorpay_execute, razorpay_retry_execute, test_mode_execute, twilio_execute, resend_execute,
  mail_result, escalation_execute,
}

-- An answer that is no timeout.
abbrev pub IsPrompt : ProviderResult → Type 0
IsPrompt result = execution_status result ≢ InterventionStatus.ambiguous

abbrev is_timeout_code : String → Bool
is_timeout_code code = str_eq code "PROVIDER_TIMEOUT"

pub refuse-IsPrompt : (code : String) → is_timeout_code code ≡ false → IsPrompt (refuse code)
unfolding execution_status
refuse-IsPrompt code h = ground (arith, h)

or_refuse-IsPrompt :
    {A : Type 0} (code : CallError → String) (answer : A → ProviderResult)
    → ((e : CallError) → is_timeout_code (code e) ≡ false)
    → ((a : A) → IsPrompt (answer a))
    → (r : Result CallError A) → IsPrompt (or_refuse code answer r)
or_refuse-IsPrompt code answer coded answered (err e) = refuse-IsPrompt (code e) (coded e)
or_refuse-IsPrompt code answer coded answered (ok a) = answered a

success-IsPrompt : (result : ProviderResult) → result.success ≡ true → IsPrompt result
unfolding execution_status
success-IsPrompt result h = ground (arith, h)

map_razorpay_error-prompt :
    (status : Option ℕ) → is_timeout_code (map_razorpay_error status) ≡ false
map_razorpay_error-prompt none = refl
map_razorpay_error-prompt (some status) = elim (Bool-cases (status == 401 || status == 403)) [
  | inl denied ↦ rw denied refl
  | inr other ↦ elim (Bool-cases (status == 429)) [
    | inl limited ↦ rw (other, limited) refl
    | inr free ↦ elim (Bool-cases (leb 500 status)) [
      | inl down ↦ rw (other, free, down) refl
      | inr up ↦ rw (other, free, up) refl
    ]
  ]
]

razorpay_code-prompt : (e : CallError) → is_timeout_code (razorpay_code e) ≡ false
razorpay_code-prompt e = elim (Bool-cases (includes_text e.message "Circuit Breaker is OPEN")) [
  | inl broken ↦ rw broken refl
  | inr whole ↦
      elim (Bool-cases
        (str_eq (text_or e.code "") "ECONNABORTED" || includes_text e.message "timeout")) [
          | inl slow ↦ rw (whole, slow) refl
          | inr other ↦ rw (whole, other) (map_razorpay_error-prompt e.status)
        ]
]

-- A test that refuses, or the rest.
if-IsPrompt :
    (b : Bool) (code : String) (rest : ProviderResult)
    → is_timeout_code code ≡ false
    → IsPrompt rest
    → IsPrompt (if b then refuse code else rest)
if-IsPrompt true code rest coded h = refuse-IsPrompt code coded
if-IsPrompt false code rest coded h = h

module _ (services : ExternalServices) (settings : ProviderSettings)
    (parameters : RequestParameters) (request : ExecutionRequest) where
  pub razorpay_execute-IsPrompt : IsPrompt (razorpay_execute services settings parameters request)
  unfolding razorpay_execute razorpay_action razorpay_create_link razorpay_initiate_retry
  razorpay_execute-IsPrompt =
      if-IsPrompt (not (is_test_mode settings)) "CONFIGURATION_ERROR" _ refl
        (by_action request.action)
    where
      by_action :
          (action : ExecutionActionType)
          → IsPrompt (razorpay_action services settings parameters request action)
      by_action create_payment_link =
          or_refuse-IsPrompt razorpay_code _ razorpay_code-prompt (λ id. success-IsPrompt _ refl) _
      by_action initiate_payment_retry =
          or_refuse-IsPrompt razorpay_code _ razorpay_code-prompt (λ id. success-IsPrompt _ refl) _
      by_action send_email_reminder = refuse-IsPrompt _ refl
      by_action send_sms_reminder = refuse-IsPrompt _ refl
      by_action send_voice_reminder = refuse-IsPrompt _ refl
      by_action create_human_escalation = refuse-IsPrompt _ refl
      by_action other_action = refuse-IsPrompt _ refl

  pub razorpay_retry_execute-IsPrompt :
      IsPrompt (razorpay_retry_execute services settings parameters request)
  unfolding razorpay_retry_execute
  razorpay_retry_execute-IsPrompt =
      if-IsPrompt (not (is_test_mode settings && settings.has_razorpay_keys)) _ _ refl (
        if-IsPrompt (is_missing parameters.mandate_id) _ _ refl
          (or_refuse-IsPrompt _ _ (λ e. refl) (λ id. success-IsPrompt _ refl) _))

  pub test_mode_execute-IsPrompt : IsPrompt (test_mode_execute services settings parameters request)
  unfolding test_mode_execute
  test_mode_execute-IsPrompt =
      if-IsPrompt (not settings.enable_test_mode) _ _ refl (by_action request.action)
    where
      by_action :
          (action : ExecutionActionType)
          → IsPrompt (test_mode_action services settings parameters request action)
      by_action create_payment_link =
          or_refuse-IsPrompt _ _ (λ e. map_razorpay_error-prompt e.status)
            (λ id. success-IsPrompt _ refl) _
      by_action initiate_payment_retry = success-IsPrompt _ refl
      by_action send_email_reminder = refuse-IsPrompt _ refl
      by_action send_sms_reminder = refuse-IsPrompt _ refl
      by_action send_voice_reminder = refuse-IsPrompt _ refl
      by_action create_human_escalation = refuse-IsPrompt _ refl
      by_action other_action = refuse-IsPrompt _ refl

  pub twilio_execute-IsPrompt : IsPrompt (twilio_execute services settings parameters request)
  unfolding twilio_execute
  twilio_execute-IsPrompt =
      if-IsPrompt (is_missing settings.twilio_from_number) _ _ refl
        (if-IsPrompt (is_missing parameters.customer_phone) _ _ refl (by_action request.action))
    where
      by_action :
          (action : ExecutionActionType)
          → IsPrompt (
              twilio_action services settings parameters request
                (text_or settings.twilio_from_number "")
                (text_or parameters.customer_phone "")
                action)
      by_action create_payment_link = refuse-IsPrompt _ refl
      by_action initiate_payment_retry = refuse-IsPrompt _ refl
      by_action send_email_reminder = refuse-IsPrompt _ refl
      by_action send_sms_reminder =
          or_refuse-IsPrompt _ _ (λ e. refl) (λ id. success-IsPrompt _ refl) _
      by_action send_voice_reminder =
          or_refuse-IsPrompt _ _ (λ e. refl) (λ id. success-IsPrompt _ refl) _
      by_action create_human_escalation = refuse-IsPrompt _ refl
      by_action other_action = refuse-IsPrompt _ refl

  pub resend_execute-IsPrompt : IsPrompt (resend_execute services settings parameters request)
  unfolding resend_execute
  resend_execute-IsPrompt = if-IsPrompt (is_missing settings.resend_from_email) _ _ refl (
      if-IsPrompt (is_missing parameters.customer_email) _ _ refl
        (or_refuse-IsPrompt _ _ (λ e. refl) answered _))
    where
      answered :
          (r : Result String (Option String))
          → IsPrompt (mail_result services settings parameters request r)
      answered (err message) = refuse-IsPrompt _ refl
      answered (ok id) = success-IsPrompt _ refl

  pub escalation_execute-IsPrompt :
      IsPrompt (escalation_execute services settings parameters request)
  unfolding escalation_execute
  escalation_execute-IsPrompt = or_refuse-IsPrompt _ _ (λ e. refl) answered _
    where
      answered :
          (drafted : Bool)
          → IsPrompt (
              if drafted
              then succeed (some (join_text ("ESCALATION_" ∷ settings.time_text ∷ [])))
              else refuse "PROVIDER_UNAVAILABLE")
      answered true = success-IsPrompt _ refl
      answered false = refuse-IsPrompt _ refl
