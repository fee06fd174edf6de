-- ===== src/Worker/Providers/Calls.antt =====
-- apps/worker/src/providers: the calls of the external services, and the results made of their answers.
use fin_tech_ai.Base.{
  ℕ, Bool, true, false, ◌||◌, Option, none, some, [], ◌∷◌, str_eq, String, leb, ◌==◌, join_text,
  if◌then◌else◌, Result, ok, err,
}
use fin_tech_ai.Base.Int.{ℤ}
use fin_tech_ai.Domain.Text.{includes_text}
use fin_tech_ai.Worker.Recovery.{ExecutionRequest, ProviderResult}

-- `parameters` of a request.
pub record RequestParameters : Type 0 where
  pub customer_name : Option String
  pub customer_email : Option String
  pub customer_phone : Option String
  pub mandate_id : Option String
  pub customer_id : Option String
  pub attempt_number : Option String

-- Those that the worker gives: the name, the address and the number alone.
abbrev pub worker_parameters : Option String → Option String → Option String → RequestParameters
worker_parameters name email phone = record {
  customer_name = name;
  customer_email = email;
  customer_phone = phone;
  mandate_id = none;
  customer_id = none;
  attempt_number = none;
}

pub record PaymentLinkBody : Type 0 where
  pub amount : ℤ
  pub currency : String
  pub accept_partial : Bool
  pub description : String
  pub customer_name : String
  pub customer_email : String
  pub customer_contact : String
  pub notify_sms : Bool
  pub notify_email : Bool
  pub reminder_enable : Bool
  pub notes_case_id : String
  pub notes_intervention_id : String
  pub reference_id : String

pub record OrderBody : Type 0 where
  pub amount : ℤ
  pub currency : String
  pub receipt : String
  pub notes_case_id : String
  pub notes_intervention_id : String
  pub notes_attempt_number : String

pub record MandateOrderBody : Type 0 where
  pub amount : ℤ
  pub currency : String
  pub receipt : String
  pub token_id : String
  pub customer_id : Option String

-- An error of a call: its message, its code and the status of the response.
pub record CallError : Type 0 where
  pub message : String
  pub code : Option String
  pub status : Option ℕ

-- The services, by call; an answer is the id that it gives. `create_order` may give none. A mail may be
-- answered by an error, and the language model by a fallback, which is `false`.
pub record ExternalServices : Type 0 where
  pub create_link : PaymentLinkBody → Result CallError String
  pub create_test_link : PaymentLinkBody → Result CallError String
  pub create_order : OrderBody → Result CallError (Option String)
  pub charge_mandate : MandateOrderBody → Result CallError String
  pub send_message : String → String → String → Result CallError String
  pub start_call : String → String → String → Result CallError String
  pub send_mail : String → String → String → Result CallError (Result String (Option String))
  pub draft_ticket : String → Result CallError Bool

-- The environment of the process: an address to send from is there with the keys of its service. Also the random and time parts of references.
pub record ProviderSettings : Type 0 where
  pub enable_test_mode : Bool
  pub razorpay_mode_is_test : Bool
  pub has_razorpay_keys : Bool
  pub twilio_from_number : Option String
  pub resend_from_email : Option String
  pub random_part : String
  pub time_text : String

abbrev pub is_test_mode : ProviderSettings → Bool
is_test_mode settings = settings.enable_test_mode || settings.razorpay_mode_is_test

abbrev pub refuse : String → ProviderResult
refuse code = record {
  success = false;
  external_reference = none;
  recovered_amount = none;
  failure_code = some code;
  retry_after = none;
}

abbrev pub succeed : Option String → ProviderResult
succeed reference = record {
  success = true;
  external_reference = reference;
  recovered_amount = none;
  failure_code = none;
  retry_after = none;
}

abbrev pub succeed_in_full : ExecutionRequest → Option String → ProviderResult
succeed_in_full request reference = record (succeed reference) {
  recovered_amount =
      some (record { amount_minor = request.amount_minor; currency = request.currency });
}

-- `a || b` for a text that may be missing or empty.
abbrev pub text_or : Option String → String → String
text_or none default_text = default_text
text_or (some s) default_text = if str_eq s "" then default_text else s

-- Whether a text is missing or empty: `!s`.
abbrev pub is_missing : Option String → Bool
is_missing none = true
is_missing (some s) = str_eq s ""

-- `mapRazorpayError`, of both adapters: the test mode's own case for 400 gives what all others give.
abbrev pub map_razorpay_error : Option ℕ → String
map_razorpay_error none = "PROVIDER_REJECTED"
map_razorpay_error (some status) =
    if status == 401 || status == 403
    then "INVALID_CREDENTIALS"
    else if status == 429
    then "RATE_LIMITED"
    else if leb 500 status
    then "PROVIDER_UNAVAILABLE"
    else "PROVIDER_REJECTED"

-- A call that throws is refused with a code, one that answers gives a result.
abbrev pub or_refuse :
    {A : Type 0} → (CallError → String) → (A → ProviderResult) → Result CallError A → ProviderResult
or_refuse code answer (err e) = refuse (code e)
or_refuse code answer (ok a) = answer a

-- The `catch` block of `RazorpayAdapter.execute`.
abbrev pub razorpay_code : CallError → String
razorpay_code e =
    if includes_text e.message "Circuit Breaker is OPEN"
    then "PROVIDER_UNAVAILABLE"
    else if str_eq (text_or e.code "") "ECONNABORTED" || includes_text e.message "timeout"
    then "PROVIDER_UNAVAILABLE"
    else map_razorpay_error e.status

abbrev pub link_body :
    ExecutionRequest → RequestParameters → Bool → String → String → PaymentLinkBody
link_body request parameters sms description reference = record {
  amount = request.amount_minor;
  currency = request.currency;
  accept_partial = false;
  description = join_text (description ∷ request.case_id ∷ []);
  customer_name = text_or parameters.customer_name "Customer";
  customer_email = text_or parameters.customer_email "test@example.com";
  customer_contact = text_or parameters.customer_phone "+919999999999";
  notify_sms = sms;
  notify_email = true;
  reminder_enable = sms;
  notes_case_id = request.case_id;
  notes_intervention_id = request.intervention_id;
  reference_id = reference;
}
