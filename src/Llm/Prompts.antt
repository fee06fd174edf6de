-- ===== src/Llm/Prompts.antt =====
-- libs/llm/src/prompts: the texts that the language model is asked with.
use fin_tech_ai.Base.{
  Option, none, some, List, [], ◌∷◌, String, str_eq, show_number, join_text, if◌then◌else◌,
}
use fin_tech_ai.Contracts.Assistance.{
  AiLocale, AiDataClassification, AiRequestContext, en_in, hi_in, hinglish, ta_in, kn_in, synthetic,
  masked_demo,
}

abbrev shared_safety_policy : String
shared_safety_policy =
    "\nSAFETY INSTRUCTIONS AND BOUNDARIES:\n1. You are a content generation assistant. You have NO authority to approve, execute, or modify financial actions.\n2. EMPATHETIC COPY: Strictly avoid coercive, threatening, or aggressive debt-collection terminology.\n3. BLAME-FREE TONE: Do not blame the customer. Assume the failure was a minor hiccup or technical error.\n4. Do not claim that a payment has already been successfully processed unless the context explicitly says so.\n5. Do not invent or add penalties, late fees, or interest charges not present in the context.\n6. NEVER ask for or request the customer to reply with their PIN, OTP, CVV, full card number, bank account info, or passwords.\n7. Do not impersonate support personnel or claim a human will call them unless stated in the context.\n8. Make no legal or compliance claims.\n9. Only use the provided synthetic/masked context. Do not invent facts, names, or URLs.\n"

abbrev pub locale_text : AiLocale → String
locale_text en_in = "en-IN"
locale_text hi_in = "hi-IN"
locale_text hinglish = "hinglish"
locale_text ta_in = "ta-IN"
locale_text kn_in = "kn-IN"

abbrev classification_text : AiDataClassification → String
classification_text synthetic = "SYNTHETIC"
classification_text masked_demo = "MASKED_DEMO"

abbrev comma_separated : List String → String
comma_separated [] = ""
comma_separated (s ∷ []) = s
comma_separated (s ∷ (t ∷ ts)) = join_text (s ∷ ", " ∷ comma_separated (t ∷ ts) ∷ [])

-- An empty disclosure counts as none.
abbrev disclosure_line : Option String → String
disclosure_line none = ""
disclosure_line (some text) =
    if str_eq text "" then "" else join_text ("- Required Disclosure: " ∷ text ∷ [])

abbrev voice_line : String → String
voice_line channel =
    if str_eq channel "VOICE_CALL"
    then "- VOICE MODEL TARGET: Sarvam AI Bulbul V3. Generate the script in natural code-mixed Hinglish (Hindi + English) using Latin script. Do not use Devanagari."
    else ""

unfoldable pub get_recovery_message_prompt : AiRequestContext → String
get_recovery_message_prompt context = join_text (
    "\nYou are tasked with generating a payment recovery message draft.\n\n"
    ∷ shared_safety_policy
    ∷ "\n\nCONTEXT:\nData Classification: "
    ∷ classification_text context.data_classification
    ∷ "\nMerchant: "
    ∷ context.merchant_display_name
    ∷ "\nAmount: "
    ∷ context.amount_display
    ∷ "\nCurrency: "
    ∷ context.currency
    ∷ "\nFailure Reason: "
    ∷ context.failure_reason
    ∷ "\nRoot Cause: "
    ∷ context.root_cause
    ∷ "\nChannel: "
    ∷ context.channel
    ∷ "\nLocale: "
    ∷ locale_text context.locale
    ∷ "\n\nCONSTRAINTS:\n- Max Characters: "
    ∷ show_number context.constraints.max_characters
    ∷ "\n- Allowed Tone: "
    ∷ context.constraints.allowed_tone
    ∷ "\n"
    ∷ disclosure_line context.constraints.required_disclosure
    ∷ "\n- Forbidden Claims: "
    ∷ comma_separated context.constraints.forbidden_claims
    ∷ "\n"
    ∷ voice_line context.channel
    ∷ "\n\nRespond in valid JSON matching this schema exactly:\n{\n  \"text\": \"The message draft here\",\n  \"locale\": \""
    ∷ locale_text context.locale
    ∷ "\",\n  \"channel\": \""
    ∷ context.channel
    ∷ "\"\n}\n"
    ∷ [])

unfoldable pub get_decision_explanation_prompt : AiRequestContext → String
get_decision_explanation_prompt context = join_text (
    "\nYou are tasked with generating a human-readable explanation of an already-deterministic recovery decision.\n\n"
    ∷ shared_safety_policy
    ∷ "\n\nCONTEXT:\nData Classification: "
    ∷ classification_text context.data_classification
    ∷ "\nFailure Reason: "
    ∷ context.failure_reason
    ∷ "\nRoot Cause: "
    ∷ context.root_cause
    ∷ "\nIntervention Type: "
    ∷ context.intervention_type
    ∷ "\nPolicy Reason Codes: "
    ∷ comma_separated context.policy_reason_codes
    ∷ "\n\nINSTRUCTIONS:\nExplain why the intervention type was chosen based on the policy reason codes and failure reason.\nDo NOT invent new reason codes or contradict the actual decision.\nDo NOT make promises about recovery success.\n\nRespond in valid JSON matching this schema exactly:\n{\n  \"summary\": \"Short 1-2 sentence summary of the decision.\",\n  \"bulletReasons\": [\"Reason 1\", \"Reason 2\"],\n  \"policyBoundaryStatement\": \"A standard disclaimer that this is a system-generated deterministic decision.\"\n}\n"
    ∷ [])
