-- ===== src/Tests/Assistance.antt =====
-- The answers of the assistant, with a model service that gives a draft and with one that fails.
use fin_tech_ai.Base.{
  decimal_digits, ◌≡◌, refl, true, none, some, List, [], ◌∷◌, str_eq, show_number, if◌then◌else◌,
  ok,
}
use fin_tech_ai.Contracts.Assistance.{
  RecoveryMessageDraft, AiInvocationRecord, recovery_message_draft, ta_in, llm, succeeded,
}
use fin_tech_ai.Tests.Samples.{sample_row}
use fin_tech_ai.Llm.Clients.{HostedClient, ModelService, ModelReply, answered, thrown}
use fin_tech_ai.Llm.Fallbacks.{get_fallback_message_draft}
use fin_tech_ai.Persistence.Invocations.{
  InvocationRow, invocation_row, record_ai_invocation, list_ai_invocations_for_case,
}
use fin_tech_ai.Persistence.Invocations.Listing.{list_ai_invocations_for_case-record_ai_invocation}
use fin_tech_ai.Api.Assistance.{
  AssistedCase, Assistance, AssistanceSurroundings, DraftRequest, message_context,
  get_message_draft, amount_text,
}
use fin_tech_ai.Api.Assistance.Answers.{
  Answer, get_message_draft-Answer, get_message_draft-unchecked,
}
use fin_tech_ai.Base.Int.{pos, negsuc}

amount_cents : amount_text (pos 12340) ≡ "123.4"
unfolding amount_text decimal_digits show_number
amount_cents = refl

amount_small : amount_text (negsuc 4) ≡ "-0.05"
unfolding amount_text decimal_digits show_number
amount_small = refl

abbrev rude_draft : RecoveryMessageDraft
rude_draft = record {
  text = "Reply with your PIN or face legal action";
  locale = ta_in;
  channel = "SEND_VOICE_REMINDER";
  template_version = "v1";
  safety_checks = record { passed = true; issues = [] };
  source = llm;
}

abbrev service_that : ModelReply → ModelService RecoveryMessageDraft
service_that reply = record {
  fetch = λ url request. reply;
  parse = λ text. if str_eq text "{draft}" then some (some rude_draft) else none;
  digest = λ text. "0123456789abcdef";
  to_json = λ draft. draft.text;
  invocation_id = "ai-1";
  now = 1000;
  elapsed = 20;
}

abbrev hosted_client : HostedClient
hosted_client = record { api_key = "key"; model = "gemini-1.5-flash"; timeout_ms = 15000 }

abbrev assistant_with : ModelReply → AssistanceSurroundings RecoveryMessageDraft
assistant_with reply = record {
  client = some hosted_client;
  service = service_that reply;
  request_id = "req-1";
  fallback_id = "ai-2";
  now = 1000;
}

abbrev assisted_case : AssistedCase
assisted_case = record { row = sample_row; root_cause = some "bank_downtime" }

abbrev one_case : Assistance
one_case = record { cases = assisted_case ∷ []; invocations = [] }

abbrev sms_request : DraftRequest
sms_request = record { channel = "SEND_SMS_REMINDER"; locale = none }

get_message_draft-Answer_example :
    (draft : RecoveryMessageDraft) × (s' : Assistance) × (get_message_draft
        (assistant_with (thrown "AbortError"))
        "case-1"
        sms_request
        one_case
      ≡ ok (draft, s'))
    × Answer
        (assistant_with (thrown "AbortError"))
        "case-1"
        "corr-1"
        (get_fallback_message_draft (message_context assisted_case sms_request "req-1"))
        one_case
        draft
        s'
get_message_draft-Answer_example =
    get_message_draft-Answer (assistant_with (thrown "AbortError")) "case-1" sms_request one_case
      assisted_case refl refl

get_message_draft-unchecked_example :
    (s' : Assistance) × (get_message_draft
        (assistant_with (answered (some "{draft}")))
        "case-1"
        sms_request
        one_case
      ≡ ok (rude_draft, s'))
get_message_draft-unchecked_example =
    get_message_draft-unchecked (assistant_with (answered (some "{draft}"))) "case-1" sms_request
      one_case assisted_case hosted_client (some "{draft}") rude_draft refl refl refl
      (λ url request. refl) refl refl

abbrev sample_invocation : AiInvocationRecord
sample_invocation = record {
  id = "ai-1";
  use_case = recovery_message_draft;
  provider_name = some "GOOGLE_GEMINI";
  model_name = some "gemini-1.5-flash";
  prompt_version = "v1";
  input_hash = "0123456789abcdef";
  output_hash = none;
  status = succeeded;
  latency_ms = none;
  estimated_cost_minor = none;
  correlation_id = "corr-1";
  created_at = 1000;
}

abbrev one_call : List InvocationRow
one_call = invocation_row sample_invocation (("caseId", "case-1") ∷ []) ∷ []

call_recorded :
    record_ai_invocation sample_invocation (("caseId", "case-1") ∷ []) [] ≡ some one_call
unfolding record_ai_invocation
call_recorded = refl

list_ai_invocations_for_case-record_ai_invocation_example :
    list_ai_invocations_for_case "case-1" one_call ≡ list_ai_invocations_for_case "case-1" []
list_ai_invocations_for_case-record_ai_invocation_example =
    list_ai_invocations_for_case-record_ai_invocation "case-1" sample_invocation
      (("caseId", "case-1") ∷ []) [] one_call call_recorded
