-- ===== src/Llm/Clients.antt =====
-- libs/llm/src/client: the hosted language model, the deterministic one and the disabled one. The model
-- service, the hash and `JSON.parse` are outside the program.
use fin_tech_ai.Base.{
  not, ℕ, Bool, true, false, Option, none, some, [], ◌∷◌, String, str_eq, join_text, if◌then◌else◌,
}
use fin_tech_ai.Contracts.Assistance.{
  AiUseCase, RecoveryMessageDraft, DecisionExplanation, recovery_message_draft,
  recovery_decision_explanation, llm, llm, AiInvocationStatus, AiRequestContext, AiInvocationRecord,
  succeeded, timeout, provider_error, validation_failed, disabled,
}

pub record StructuredRequest : Type 0 where
  pub context : AiRequestContext
  pub system_prompt : String
  pub user_prompt : String

pub record GenerationResult (T : Type 0) : Type 0 where
  pub data_ : Option T
  pub record_ : AiInvocationRecord
  pub raw_response : Option String
  pub is_fallback : Bool

-- What `fetch` comes to: an answer that is not `ok`; an answer with the text at
-- `candidates[0].content.parts[0].text`, where there is one; or what it or `json` throws, with its name.
pub data ModelReply : Type 0 where
  refused : ModelReply
  answered : Option String → ModelReply
  thrown : String → ModelReply

-- `parse` is `JSON.parse` and the cast to `T`: nothing for a syntax error, and nothing inside for a value
-- that counts as false. `digest` is the first 16 digits of the hash. `elapsed` is the time that passes until
-- the record is complete.
pub record ModelService (T : Type 0) : Type 0 where
  pub fetch : String → StructuredRequest → ModelReply
  pub parse : String → Option (Option T)
  pub digest : String → String
  pub to_json : T → String
  pub invocation_id : String
  pub now : ℕ
  pub elapsed : ℕ

pub record HostedClient : Type 0 where
  pub api_key : String
  pub model : String
  pub timeout_ms : ℕ

-- `text || '{}'`
abbrev pub content_of : Option String → String
content_of none = "{}"
content_of (some text) = if str_eq text "" then "{}" else text

abbrev failure_status : String → AiInvocationStatus
failure_status name = if str_eq name "AbortError" then timeout else provider_error

module _ {T : Type 0} (service : ModelService T) where
  abbrev pub first_record : HostedClient → StructuredRequest → AiInvocationRecord
  first_record client request = record {
    id = service.invocation_id;
    use_case = request.context.use_case;
    provider_name = some "GOOGLE_GEMINI";
    model_name = some client.model;
    prompt_version = "v1";
    input_hash = service.digest (join_text (request.system_prompt ∷ request.user_prompt ∷ []));
    output_hash = none;
    status = succeeded;
    latency_ms = none;
    estimated_cost_minor = none;
    correlation_id = request.context.correlation_id;
    created_at = service.now;
  }

  abbrev pub failed_call : AiInvocationStatus → AiInvocationRecord → GenerationResult T
  failed_call status started = record {
    data_ = none;
    record_ = record started { status = status; latency_ms = some service.elapsed };
    raw_response = none;
    is_fallback = true;
  }

  abbrev read_record : String → AiInvocationRecord → AiInvocationRecord
  read_record content started = record started {
    output_hash = some (service.digest content);
    latency_ms = some service.elapsed;
  }

  abbrev pub parsed_answer : String → Option T → AiInvocationRecord → GenerationResult T
  parsed_answer content parsed started = record {
    data_ = parsed;
    record_ = read_record content started;
    raw_response = some content;
    is_fallback = false;
  }

  abbrev pub read_content : String → AiInvocationRecord → GenerationResult T
  read_content content started = elim (service.parse content) [
    | none ↦ record {
      data_ = none;
      record_ = record (read_record content started) { status = validation_failed };
      raw_response = some content;
      is_fallback = true;
    }
    | some parsed ↦ parsed_answer content parsed started
  ]

  abbrev pub model_url : HostedClient → String
  model_url client = join_text (
      "https://generativelanguage.googleapis.com/v1beta/models/" ∷ client.model
      ∷ ":generateContent?key=" ∷ client.api_key ∷ [])

  unfoldable pub generate_structured : HostedClient → StructuredRequest → GenerationResult T
  generate_structured client request =
      let started = first_record client request in
      if str_eq client.api_key ""
      then failed_call provider_error started
      else elim (service.fetch (model_url client) request) [
        | refused ↦ failed_call provider_error started
        | answered text ↦ read_content (content_of text) started
        | thrown name ↦ failed_call (failure_status name) started
      ]

  unfoldable pub disabled_generate : StructuredRequest → GenerationResult T
  disabled_generate request = record {
    data_ = none;
    record_ = record {
      id = service.invocation_id;
      use_case = request.context.use_case;
      provider_name = none;
      model_name = none;
      prompt_version = "unknown";
      input_hash = "disabled";
      output_hash = none;
      status = disabled;
      latency_ms = none;
      estimated_cost_minor = none;
      correlation_id = request.context.correlation_id;
      created_at = service.now;
    };
    raw_response = none;
    is_fallback = true;
  }

-- What the deterministic client makes up for the two uses.
pub data GeneratedData : Type 0 where
  generated_draft : RecoveryMessageDraft → GeneratedData
  generated_explanation : DecisionExplanation → GeneratedData

abbrev deterministic_data : AiRequestContext → AiUseCase → GeneratedData
deterministic_data context recovery_message_draft = generated_draft (record {
  text = join_text ("Automated deterministic message for " ∷ context.amount_display ∷ []);
  locale = context.locale;
  channel = context.channel;
  template_version = "v1";
  safety_checks = record { passed = true; issues = [] };
  source = llm;
})
deterministic_data context recovery_decision_explanation = generated_explanation (record {
  summary = join_text ("Deterministic evaluation explanation for " ∷ context.failure_reason ∷ []);
  bullet_reasons = "Reason 1" ∷ "Reason 2" ∷ [];
  policy_boundary_statement = "Deterministic statement";
  source = llm;
})

module _ (service : ModelService GeneratedData) where
  unfoldable pub deterministic_generate : Bool → StructuredRequest → GenerationResult GeneratedData
  deterministic_generate should_fail request =
      let started : AiInvocationRecord = record {
        id = service.invocation_id;
        use_case = request.context.use_case;
        provider_name = some "OFFLINE_DETERMINISTIC_PROVIDER";
        model_name = some "DETERMINISTIC_EVAL_MODEL";
        prompt_version = "v1";
        input_hash = service.digest (join_text (request.system_prompt ∷ request.user_prompt ∷ []));
        output_hash = none;
        status = if should_fail then provider_error else succeeded;
        latency_ms = some service.elapsed;
        estimated_cost_minor = some 0;
        correlation_id = request.context.correlation_id;
        created_at = service.now;
      } in
      let made = deterministic_data request.context request.context.use_case in
      if should_fail
      then record { data_ = none; record_ = started; raw_response = none; is_fallback = true }
      else record {
        data_ = some made;
        record_ = record started { output_hash = some (service.digest (service.to_json made)) };
        raw_response = some (service.to_json made);
        is_fallback = false;
      }

pub record ProviderHealth : Type 0 where
  pub enabled : Bool
  pub provider_name : String
  pub model_name : String
  pub ready : Bool

unfoldable pub hosted_health_check : HostedClient → ProviderHealth
hosted_health_check client = record {
  enabled = not (str_eq client.api_key "");
  provider_name = "GOOGLE_GEMINI";
  model_name = client.model;
  ready = not (str_eq client.api_key "");
}

abbrev deterministic_health_check : ProviderHealth
deterministic_health_check = record {
  enabled = true;
  provider_name = "OFFLINE_DETERMINISTIC_PROVIDER";
  model_name = "DETERMINISTIC_EVAL_MODEL";
  ready = true;
}

abbrev disabled_health_check : ProviderHealth
disabled_health_check = record {
  enabled = false;
  provider_name = "DISABLED";
  model_name = "NONE";
  ready = true;
}
