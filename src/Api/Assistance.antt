-- ===== src/Api/Assistance.antt =====
-- apps/api/src/modules/ai/ai.service.ts: drafts of messages and explanations of decisions, by the language
-- model or by fixed texts. What is sent to the log is left out.
pub mod Answers
use fin_tech_ai.Base.{
  true, false, ℕ, suc, Bool, ◌||◌, Option, none, some, List, [], ◌∷◌, str_eq, String, ◌==◌,
  join_text, show_number, if◌then◌else◌, Result, ok, err, value_or, find_row, matches,
}
use Prim.Native.Nat.{◌/◌, ◌%◌}
use fin_tech_ai.Base.Int.{ℤ, pos, negsuc}
use fin_tech_ai.Persistence.Rows.{CaseRow}
use fin_tech_ai.Persistence.Invocations.{InvocationRow, record_ai_invocation}
use fin_tech_ai.Llm.Prompts.{get_recovery_message_prompt, get_decision_explanation_prompt}
use fin_tech_ai.Llm.Fallbacks.{get_fallback_message_draft, get_fallback_decision_explanation}
use fin_tech_ai.Llm.Clients.{
  ProviderHealth, hosted_health_check, HostedClient, ModelService, StructuredRequest,
  GenerationResult, generate_structured,
}
use fin_tech_ai.Contracts.Assistance.{
  AiUseCase, AiLocale, AiConstraints, AiRequestContext, RecoveryMessageDraft, DecisionExplanation,
  AiInvocationRecord, recovery_message_draft, recovery_decision_explanation, en_in, masked_demo,
  fallback_used,
}

-- A case with its column `rootCause`, which no other service reads.
pub record AssistedCase : Type 0 where
  pub row : CaseRow
  pub root_cause : Option String

pub record Assistance : Type 0 where
  pub cases : List AssistedCase
  pub invocations : List InvocationRow

-- `NotFoundException`, and the table's refusal of an id that is taken.
pub data AssistanceError : Type 0 where
  case_not_found unique_violation : AssistanceError

-- The generated ids and the time; `client` is there where a key is set.
pub record AssistanceSurroundings (T : Type 0) : Type 0 where
  pub client : Option HostedClient
  pub service : ModelService T
  pub request_id : String
  pub fallback_id : String
  pub now : ℕ

pub record DraftRequest : Type 0 where
  pub channel : String
  pub locale : Option AiLocale

abbrev cents_text : ℕ → ℕ → String
cents_text rest last =
    if rest == 0
    then ""
    else if last == 0
    then join_text ("." ∷ show_number (rest / 10) ∷ [])
    else join_text ("." ∷ show_number (rest / 10) ∷ show_number last ∷ [])

abbrev hundredths_text : ℕ → String
hundredths_text n = join_text (show_number (n / 100) ∷ cents_text (n % 100) (n % 10) ∷ [])

-- `Number(amount) / 100` as text, for amounts of at most 15 digits.
unfoldable pub amount_text : ℤ → String
amount_text (pos n) = hundredths_text n
amount_text (negsuc n) = join_text ("-" ∷ hundredths_text (suc n) ∷ [])

-- An empty cause counts as none.
abbrev cause_or_default : Option String → String
cause_or_default none = "insufficient_funds"
cause_or_default (some cause) = if str_eq cause "" then "insufficient_funds" else cause

abbrev is_downtime : Option String → Bool
is_downtime cause = matches (λ c. str_eq c "bank_downtime" || str_eq c "upi_downtime") cause

abbrev context_of :
    AssistedCase → String → AiUseCase → AiLocale → String → AiConstraints → AiRequestContext
context_of c request_id use_case locale channel constraints = record {
  request_id = request_id;
  correlation_id = c.row.correlation_id;
  use_case = use_case;
  locale = locale;
  merchant_display_name = "Razorpay Merchant";
  masked_customer_reference = "CUST-XXXX";
  amount_display = join_text (c.row.currency ∷ " " ∷ amount_text c.row.amount_at_risk_minor ∷ []);
  currency = c.row.currency;
  event_type = "PAYMENT_FAILED";
  failure_reason = cause_or_default c.root_cause;
  root_cause = cause_or_default c.root_cause;
  intervention_type = "SEND_SMS_REMINDER";
  policy_reason_codes = "RISK_LOW" ∷ [];
  max_attempts_remaining = 3;
  channel = channel;
  constraints = constraints;
  data_classification = masked_demo;
  active_network_downtime = is_downtime c.root_cause;
}

abbrev given_locale : Option AiLocale → AiLocale
given_locale none = en_in
given_locale (some locale) = locale

abbrev pub message_context : AssistedCase → DraftRequest → String → AiRequestContext
message_context c dto request_id =
    context_of c request_id recovery_message_draft (given_locale dto.locale) dto.channel (record {
      max_characters = 160;
      forbidden_claims = "guarantee" ∷ "legal action" ∷ [];
      required_disclosure = none;
      allowed_tone = "professional";
    })

abbrev pub explanation_context : AssistedCase → String → AiRequestContext
explanation_context c request_id =
    context_of c request_id recovery_decision_explanation en_in "NONE" (record {
      max_characters = 500;
      forbidden_claims = [];
      required_disclosure = none;
      allowed_tone = "analytical";
    })

abbrev pub fallback_record : AiRequestContext → String → ℕ → AiInvocationRecord
fallback_record context id now = record {
  id = id;
  use_case = context.use_case;
  provider_name = some "FALLBACK";
  model_name = some "FALLBACK";
  prompt_version = "fallback-v1";
  input_hash = "none";
  output_hash = none;
  status = fallback_used;
  latency_ms = none;
  estimated_cost_minor = none;
  correlation_id = context.correlation_id;
  created_at = now;
}

abbrev pub Assisted : Type 0 → Type 0
Assisted T = Result AssistanceError (T × Assistance)

abbrev pub metadata_of : String → List (String × String)
metadata_of case_id = ("caseId", case_id) ∷ []

module _ {T : Type 0} (env : AssistanceSurroundings T) where
  -- The `try` block: what the model gave, with the record written, or nothing.
  abbrev pub recorded :
      String → GenerationResult T → Option T → Assistance → Option (T × Assistance)
  recorded case_id result none s = none
  recorded case_id result (some answer) s =
      elim (record_ai_invocation result.record_ (metadata_of case_id) s.invocations) [
        | none ↦ none
        | some rows ↦ some (answer, record s { invocations = rows })
      ]

  abbrev pub ask_client :
      Option HostedClient → String → StructuredRequest → Assistance → Option (T × Assistance)
  ask_client none case_id request s = none
  ask_client (some client) case_id request s =
      let result = generate_structured env.service client request in
      if result.is_fallback then none else recorded case_id result result.data_ s

  abbrev pub fall_back : String → AiRequestContext → T → Assistance → Assisted T
  fall_back case_id context draft s =
      elim (record_ai_invocation (fallback_record context env.fallback_id env.now)
        (metadata_of case_id) s.invocations) [
          | none ↦ err unique_violation
          | some rows ↦ ok (draft, record s { invocations = rows })
        ]

  abbrev pub assist : String → StructuredRequest → T → Assistance → Assisted T
  assist case_id request fallback s = elim (ask_client env.client case_id request s) [
    | some done ↦ ok done
    | none ↦ fall_back case_id request.context fallback s
  ]

abbrev pub find_assisted : String → List AssistedCase → Option AssistedCase
find_assisted id cases = find_row (λ (c : AssistedCase). c.row.id) id cases

unfoldable pub get_message_draft :
    AssistanceSurroundings RecoveryMessageDraft
    → String
    → DraftRequest
    → Assistance
    → Assisted RecoveryMessageDraft
get_message_draft env case_id dto s = elim (find_assisted case_id s.cases) [
  | none ↦ err case_not_found
  | some c ↦
      let context = message_context c dto env.request_id in
      assist env case_id
        (record {
          context = context;
          system_prompt = "You are a recovery assistant. Output valid JSON.";
          user_prompt = get_recovery_message_prompt context;
        })
        (get_fallback_message_draft context) s
]

unfoldable pub get_decision_explanation :
    AssistanceSurroundings DecisionExplanation → String → Assistance → Assisted DecisionExplanation
get_decision_explanation env case_id s = elim (find_assisted case_id s.cases) [
  | none ↦ err case_not_found
  | some c ↦
      let context = explanation_context c env.request_id in
      assist env case_id
        (record {
          context = context;
          system_prompt =
              "You are an analytical assistant explaining a system decision. Output valid JSON.";
          user_prompt = get_decision_explanation_prompt context;
        })
        (get_fallback_decision_explanation context) s
]

unfoldable get_health : Option HostedClient → ProviderHealth
get_health (some client) = hosted_health_check client
get_health none = record {
  enabled = false;
  provider_name = "FALLBACK";
  model_name = "NONE";
  ready = true;
}
