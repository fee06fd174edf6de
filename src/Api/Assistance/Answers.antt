-- ===== src/Api/Assistance/Answers.antt =====
-- apps/api/src/modules/ai/ai.service.ts: who wrote an answer, and what is recorded of it.
use fin_tech_ai.Llm.Prompts.{get_recovery_message_prompt}
use fin_tech_ai.Llm.Fallbacks.{get_fallback_message_draft}
use fin_tech_ai.Contracts.Assistance.{RecoveryMessageDraft}
use fin_tech_ai.Base.{
  ◌⊎◌, ◌≡◌, refl, inl, inr, false, Option, none, some, [], ◌∷◌, ◌++◌, str_eq, String, Bool-cases,
  Option-cases, exists, ok,
}
use fin_tech_ai.Persistence.Invocations.{
  InvocationRow, record_ai_invocation, is_invocation, invocation_row,
}
use fin_tech_ai.Llm.Clients.{
  parsed_answer, first_record, first_record, HostedClient, ModelReply, StructuredRequest,
  GenerationResult, refused, answered, thrown, generate_structured, content_of, read_content,
  model_url,
}
use fin_tech_ai.Contracts.Assistance.{AiInvocationRecord, succeeded, fallback_used}
use fin_tech_ai.Api.Assistance.{
  message_context, find_assisted, AssistedCase, DraftRequest, get_message_draft, Assistance,
  AssistanceSurroundings, recorded, ask_client, fall_back, assist, metadata_of, fallback_record,
}

abbrev pub with_row : InvocationRow → Assistance → Assistance
with_row row s = record s { invocations = s.invocations ++ row ∷ [] }

-- An answer with the state after it: the model's own, parsed from a text whose hash is recorded, or the
-- fixed one.
pub data Answer {T : Type 0} (env : AssistanceSurroundings T) (case_id correlation_id : String)
    (fallback : T) (s : Assistance) : T → Assistance → Type 0 where
  by_model :
      (content : String) (given : T) (r : AiInvocationRecord)
      → env.service.parse content ≡ some (some given)
      → r.status ≡ succeeded
      → r.output_hash ≡ some (env.service.digest content)
      → r.correlation_id ≡ correlation_id
      → Answer env case_id correlation_id fallback s given
          (with_row (invocation_row r (metadata_of case_id)) s)
  by_template :
      (r : AiInvocationRecord)
      → r.status ≡ fallback_used
      → r.correlation_id ≡ correlation_id
      → Answer env case_id correlation_id fallback s fallback
          (with_row (invocation_row r (metadata_of case_id)) s)

-- What comes of asking the model: nothing, or its answer.
abbrev Asked :
    {T : Type 0}
    → AssistanceSurroundings T
    → String
    → String
    → T
    → Assistance
    → Option (T × Assistance)
    → Type 0
Asked {T = T} env case_id correlation_id fallback s result =
    (result ≡ none)
    ⊎ ((t : T) × (s' : Assistance) × (result ≡ some (t, s'))
        × Answer env case_id correlation_id fallback s t s')

module _ {T : Type 0} (env : AssistanceSurroundings T) (case_id : String)
    (request : StructuredRequest) (fallback : T) (s : Assistance) where
  fall_back-Answer :
      exists (is_invocation env.fallback_id) s.invocations ≡ false
      → (t : T) × (s' : Assistance) × (fall_back env case_id request.context fallback s
          ≡ ok (t, s'))
        × Answer env case_id request.context.correlation_id fallback s t s'
  unfolding record_ai_invocation
  fall_back-Answer free =
      let r = fallback_record request.context env.fallback_id env.now in
      (
        fallback,
        with_row (invocation_row r (metadata_of case_id)) s,
        rw (fall_back, free) refl,
        by_template r refl refl,
      )

  recorded-Asked :
      (content : String) (given : T) (result : GenerationResult T)
      → env.service.parse content ≡ some (some given)
      → result.record_.status ≡ succeeded
      → result.record_.output_hash ≡ some (env.service.digest content)
      → result.record_.correlation_id ≡ request.context.correlation_id
      → Asked env case_id request.context.correlation_id fallback s
          (recorded env case_id result (some given) s)
  unfolding record_ai_invocation
  recorded-Asked content given result parsed good hash same =
      elim (Bool-cases (exists (is_invocation result.record_.id) s.invocations)) [
        | inl taken ↦ inl (rw (recorded, taken) refl)
        | inr free ↦ inr (
          given,
          with_row (invocation_row result.record_ (metadata_of case_id)) s,
          rw (recorded, free) refl,
          by_model content given result.record_ parsed good hash same,
        )
      ]

  ask_client-replied :
      (client : HostedClient) (reply : ModelReply)
      → str_eq client.api_key "" ≡ false
      → env.service.fetch (model_url env.service client) request ≡ reply
      → Asked env case_id request.context.correlation_id fallback s
          (ask_client env (some client) case_id request s)
  unfolding generate_structured
  ask_client-replied client refused keyed came = inl (rw (keyed, came) refl)
  ask_client-replied client (thrown name) keyed came = inl (rw (keyed, came) refl)
  ask_client-replied client (answered text) keyed came =
      elim (Option-cases (env.service.parse (content_of text))) [
        | inl bad ↦ inl (rw (keyed, came, read_content, bad) refl)
        | inr (none, empty) ↦ inl (rw (keyed, came, read_content, empty) refl)
        | inr (some given, parsed) ↦
            let started = first_record env.service client request in
            rw (keyed, came, read_content, parsed)
              (recorded-Asked (content_of text) given
                (parsed_answer env.service (content_of text) (some given) started) parsed refl refl
                refl)
      ]

  ask_client-Asked :
      (client : Option HostedClient)
      → Asked env case_id request.context.correlation_id fallback s
          (ask_client env client case_id request s)
  unfolding generate_structured
  ask_client-Asked none = inl refl
  ask_client-Asked (some client) = elim (Bool-cases (str_eq client.api_key "")) [
    | inl keyless ↦ inl (rw keyless refl)
    | inr keyed ↦
        ask_client-replied client (env.service.fetch (model_url env.service client) request) keyed
          refl
  ]

  -- Where the fixed answer can be recorded there is an answer, whatever the model service does.
  assist-Answer :
      exists (is_invocation env.fallback_id) s.invocations ≡ false
      → (t : T) × (s' : Assistance) × (assist env case_id request fallback s ≡ ok (t, s'))
        × Answer env case_id request.context.correlation_id fallback s t s'
  assist-Answer free = elim (ask_client-Asked env.client) [
    | inl silent ↦ rw (assist, silent) (fall_back-Answer free)
    | inr (t, s', given, answer) ↦ (t, s', rw (assist, given) refl, answer)
  ]

  recorded-given :
      (result : GenerationResult T) (given : T)
      → exists (is_invocation result.record_.id) s.invocations ≡ false
      → recorded env case_id result (some given) s
        ≡ some (given, with_row (invocation_row result.record_ (metadata_of case_id)) s)
  unfolding record_ai_invocation
  recorded-given result given free = rw (recorded, free) refl

  -- The answer that the model gives, with the record of the call.
  assist-given :
      (client : HostedClient) (text : Option String) (given : T)
      → env.client ≡ some client
      → str_eq client.api_key "" ≡ false
      → env.service.fetch (model_url env.service client) request ≡ answered text
      → env.service.parse (content_of text) ≡ some (some given)
      → exists (is_invocation env.service.invocation_id) s.invocations ≡ false
      → (s' : Assistance) × (assist env case_id request fallback s ≡ ok (given, s'))
  unfolding generate_structured
  assist-given client text given there keyed came parsed free =
      let started = first_record env.service client request in
      let result = parsed_answer env.service (content_of text) (some given) started in
      let generated : generate_structured env.service client request ≡ result =
        rw (generate_structured, keyed, came, read_content, parsed) refl in
      (
        with_row (invocation_row result.record_ (metadata_of case_id)) s,
        rw (assist, there, ask_client, generated, recorded-given result given free) refl,
      )

-- A draft is given for every case that is there, whatever the model service does, if the id of the
-- fallback's record is free. It is either the model's own, parsed from the text whose hash the record has, or
-- the fixed text of the case. One record is added, with the status SUCCEEDED for the first and FALLBACK_USED
-- for the second, and nothing else changes.
pub get_message_draft-Answer :
    (env : AssistanceSurroundings RecoveryMessageDraft) (case_id : String) (dto : DraftRequest)
    (s : Assistance) (c : AssistedCase)
    → find_assisted case_id s.cases ≡ some c
    → exists (is_invocation env.fallback_id) s.invocations ≡ false
    → (draft : RecoveryMessageDraft) × (s' : Assistance) × (get_message_draft env case_id dto s
        ≡ ok (draft, s'))
      × Answer env case_id c.row.correlation_id
          (get_fallback_message_draft (message_context c dto env.request_id))
          s
          draft
          s'
unfolding get_message_draft
get_message_draft-Answer env case_id dto s c found free =
    let context = message_context c dto env.request_id in
    let fallback = get_fallback_message_draft context in
    let request : StructuredRequest = record {
      context = context;
      system_prompt = "You are a recovery assistant. Output valid JSON.";
      user_prompt = get_recovery_message_prompt context;
    } in
    rw (get_message_draft, found) (assist-Answer env case_id request fallback s free)

-- A draft that the model gives reaches the caller as it is: whatever its text says, however long it is and
-- whatever its locale and channel are, with no fallback, if the text of the service's answer, `{}` where it
-- has none, parses to the draft and the record's id is free.
pub get_message_draft-unchecked :
    (env : AssistanceSurroundings RecoveryMessageDraft) (case_id : String) (dto : DraftRequest)
    (s : Assistance) (c : AssistedCase) (client : HostedClient) (text : Option String)
    (draft : RecoveryMessageDraft)
    → find_assisted case_id s.cases ≡ some c
    → env.client ≡ some client
    → str_eq client.api_key "" ≡ false
    → ((url : String) (request : StructuredRequest) → env.service.fetch url request ≡ answered text)
    → env.service.parse (content_of text) ≡ some (some draft)
    → exists (is_invocation env.service.invocation_id) s.invocations ≡ false
    → (s' : Assistance) × (get_message_draft env case_id dto s ≡ ok (draft, s'))
unfolding get_message_draft
get_message_draft-unchecked env case_id dto s c client text draft found there keyed answers parsed
      free =
    let context = message_context c dto env.request_id in
    let request : StructuredRequest = record {
      context = context;
      system_prompt = "You are a recovery assistant. Output valid JSON.";
      user_prompt = get_recovery_message_prompt context;
    } in
    rw (get_message_draft, found)
      (assist-given env case_id request (get_fallback_message_draft context) s client text draft
        there keyed (answers (model_url env.service client) request) parsed free)
