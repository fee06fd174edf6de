-- ===== src/Llm/Fallbacks.antt =====
-- libs/llm/src/fallbacks/templates.ts: the texts used where the language model gives none.
use fin_tech_ai.Base.{true, List, [], ◌∷◌, String, str_eq, join_text, if◌then◌else◌}
use fin_tech_ai.Contracts.Assistance.{
  AiLocale, AiRequestContext, RecoveryMessageDraft, DecisionExplanation, en_in, hi_in, hinglish,
  ta_in, kn_in, deterministic_fallback,
}

-- The text and the template's version.
pub record Template : Type 0 where
  pub text : String
  pub version : String

pub data Occasion : Type 0 where
  downtime sms voice other : Occasion

abbrev pub occasion : AiRequestContext → Occasion
occasion context =
    if context.active_network_downtime
    then downtime
    else if str_eq context.channel "SEND_SMS_REMINDER"
    then sms
    else if str_eq context.channel "SEND_VOICE_REMINDER"
    then voice
    else other

abbrev downtime_template : AiRequestContext → AiLocale → Template
downtime_template context hi_in = record {
  text = join_text (
      "Hi, " ∷ context.merchant_display_name
      ∷ " ka payment network issue ke karan fail hua. Kripya doosre payment method (Credit/Debit Card) se try karein."
      ∷ []);
  version = "fallback-downtime-hinglish-v1";
}
downtime_template context hinglish = record {
  text = join_text (
      "Hi, " ∷ context.merchant_display_name
      ∷ " ka payment network issue ke karan fail hua. Kripya doosre payment method (Credit/Debit Card) se try karein."
      ∷ []);
  version = "fallback-downtime-hinglish-v1";
}
downtime_template context ta_in = record {
  text = join_text (
      "வணக்கம், பிணைய பிரச்சனையால் " ∷ context.merchant_display_name
      ∷ " கட்டணம் தோல்வியடைந்தது. வேறு கட்டண முறையை (கார்டு) பயன்படுத்தவும்." ∷ []);
  version = "fallback-downtime-tamil-v1";
}
downtime_template context kn_in = record {
  text = join_text (
      "ನಮಸ್ಕಾರ, ನೆಟ್\u{200c}ವರ್ಕ್ ಸಮಸ್ಯೆಯಿಂದ " ∷ context.merchant_display_name
      ∷ " ಪಾವತಿ ವಿಫಲವಾಗಿದೆ. ದಯವಿಟ್ಟು ಬೇರೆ ಪಾವತಿ ವಿಧಾನವನ್ನು ಬಳಸಿ." ∷ []);
  version = "fallback-downtime-kannada-v1";
}
downtime_template context en_in = record {
  text = join_text (
      "Hi, your payment to " ∷ context.merchant_display_name
      ∷ " failed due to an active network downtime. Please retry using an alternative payment method (like a Card)."
      ∷ []);
  version = "fallback-downtime-v1";
}

abbrev sms_template : AiRequestContext → AiLocale → Template
sms_template context hi_in = record {
  text = join_text (
      "Namaste! " ∷ context.merchant_display_name ∷ " ke liye aapka " ∷ context.amount_display
      ∷ " ka payment pending hai. Abhi pay karein." ∷ []);
  version = "fallback-hinglish-v1";
}
sms_template context hinglish = record {
  text = join_text (
      "Namaste! " ∷ context.merchant_display_name ∷ " ke liye aapka " ∷ context.amount_display
      ∷ " ka payment pending hai. Abhi pay karein." ∷ []);
  version = "fallback-hinglish-v1";
}
sms_template context ta_in = record {
  text = join_text (
      "வணக்கம்! " ∷ context.merchant_display_name ∷ "-க்கான உங்கள் ₹" ∷ context.amount_display
      ∷ " தொகை நிலுவையில் உள்ளது. இப்போதே செலுத்துங்கள்." ∷ []);
  version = "fallback-tamil-v1";
}
sms_template context kn_in = record {
  text = join_text (
      "ನಮಸ್ಕಾರ! " ∷ context.merchant_display_name ∷ " ಗಾಗಿ ನಿಮ್ಮ " ∷ context.amount_display
      ∷ " ಪಾವತಿ ಬಾಕಿ ಇದೆ. ಈಗಲೇ ಪಾವತಿ ಮಾಡಿ." ∷ []);
  version = "fallback-kannada-v1";
}
sms_template context en_in = record {
  text = join_text (
      "Reminder: Payment of " ∷ context.amount_display ∷ " for " ∷ context.merchant_display_name
      ∷ " is due." ∷ []);
  version = "fallback-v1";
}

abbrev voice_template : AiRequestContext → AiLocale → Template
voice_template context hi_in = record {
  text = join_text (
      "Namaste, yeh ek reminder hai. Aapka " ∷ context.merchant_display_name ∷ " ke liye "
      ∷ context.amount_display ∷ " ka payment abhi bhi baaki hai. Kripya apni payment poori karein."
      ∷ []);
  version = "fallback-hinglish-v1";
}
voice_template context hinglish = record {
  text = join_text (
      "Namaste, yeh ek reminder hai. Aapka " ∷ context.merchant_display_name ∷ " ke liye "
      ∷ context.amount_display ∷ " ka payment abhi bhi baaki hai. Kripya apni payment poori karein."
      ∷ []);
  version = "fallback-hinglish-v1";
}
voice_template context ta_in = record {
  text = join_text (
      "வணக்கம், இது ஒரு நினைவூட்டல். " ∷ context.merchant_display_name ∷ "-க்கான உங்கள் "
      ∷ context.amount_display
      ∷ " தொகை இன்னும் நிலுவையில் உள்ளது. தயவுசெய்து உங்கள் கட்டணத்தை முடிக்கவும்." ∷ []);
  version = "fallback-tamil-v1";
}
voice_template context kn_in = record {
  text = join_text (
      "ನಮಸ್ಕಾರ, ಇದು ಒಂದು ಜ್ಞಾಪನೆ. " ∷ context.merchant_display_name ∷ " ಗಾಗಿ ನಿಮ್ಮ "
      ∷ context.amount_display ∷ " ಪಾವತಿ ಇನ್ನೂ ಬಾಕಿ ಇದೆ. ದಯವಿಟ್ಟು ನಿಮ್ಮ ಪಾವತಿಯನ್ನು ಪೂರ್ಣಗೊಳಿಸಿ."
      ∷ []);
  version = "fallback-kannada-v1";
}
voice_template context en_in = record {
  text = join_text (
      "Hello, this is a reminder regarding your payment of " ∷ context.amount_display ∷ " to "
      ∷ context.merchant_display_name ∷ "." ∷ []);
  version = "fallback-v1";
}

abbrev other_template : AiRequestContext → AiLocale → Template
other_template context hi_in = record {
  text = join_text (
      "Priya grahak,\n\nAapka " ∷ context.merchant_display_name ∷ " ke liye "
      ∷ context.amount_display ∷ " ka payment " ∷ context.failure_reason
      ∷ " ki wajah se process nahi ho saka.\n\nKripya apne account mein sufficient funds ensure karein ya payment method update karein.\n\nDhanyavaad."
      ∷ []);
  version = "fallback-hinglish-v1";
}
other_template context hinglish = record {
  text = join_text (
      "Priya grahak,\n\nAapka " ∷ context.merchant_display_name ∷ " ke liye "
      ∷ context.amount_display ∷ " ka payment " ∷ context.failure_reason
      ∷ " ki wajah se process nahi ho saka.\n\nKripya apne account mein sufficient funds ensure karein ya payment method update karein.\n\nDhanyavaad."
      ∷ []);
  version = "fallback-hinglish-v1";
}
other_template context ta_in = record {
  text = join_text (
      "அன்புள்ள வாடிக்கையாளரே,\n\n" ∷ context.merchant_display_name ∷ "-க்கான உங்கள் "
      ∷ context.amount_display ∷ " தொகை " ∷ context.failure_reason
      ∷ " காரணமாக செயலாக்கப்படவில்லை.\n\nதயவுசெய்து போதுமான நிதி இருப்பை உறுதிப்படுத்தவும் அல்லது உங்கள் கட்டண முறையை புதுப்பிக்கவும்.\n\nநன்றி."
      ∷ []);
  version = "fallback-tamil-v1";
}
other_template context kn_in = record {
  text = join_text (
      "ಪ್ರಿಯ ಗ್ರಾಹಕರೇ,\n\n" ∷ context.merchant_display_name ∷ " ಗಾಗಿ ನಿಮ್ಮ "
      ∷ context.amount_display ∷ " ಪಾವತಿ " ∷ context.failure_reason
      ∷ " ಕಾರಣದಿಂದ ಪ್ರಕ್ರಿಯೆಗೊಳ್ಳಲಿಲ್ಲ.\n\nದಯವಿಟ್ಟು ಸಾಕಷ್ಟು ಹಣ ಇರುವುದನ್ನು ಖಚಿತಪಡಿಸಿ ಅಥವಾ ನಿಮ್ಮ ಪಾವತಿ ವಿಧಾನವನ್ನು ನವೀಕರಿಸಿ.\n\nಧನ್ಯವಾದಗಳು."
      ∷ []);
  version = "fallback-kannada-v1";
}
other_template context en_in = record {
  text = join_text (
      "Dear customer,\n\nThis is a notification that a payment of " ∷ context.amount_display
      ∷ " to " ∷ context.merchant_display_name ∷ " was unsuccessful due to "
      ∷ context.failure_reason
      ∷ ".\n\nPlease ensure sufficient funds or update your payment method.\n\nThank you." ∷ []);
  version = "fallback-v1";
}

abbrev template : AiRequestContext → Occasion → AiLocale → Template
template context downtime locale = downtime_template context locale
template context sms locale = sms_template context locale
template context voice locale = voice_template context locale
template context other locale = other_template context locale

unfoldable pub get_fallback_message_draft : AiRequestContext → RecoveryMessageDraft
get_fallback_message_draft context =
    let chosen = template context (occasion context) context.locale in
    record {
      text = chosen.text;
      locale = context.locale;
      channel = context.channel;
      template_version = chosen.version;
      safety_checks = record { passed = true; issues = [] };
      source = deterministic_fallback;
    }

abbrev reasons_or_standard : List String → List String
reasons_or_standard [] = "Standard recovery procedure applied" ∷ []
reasons_or_standard (code ∷ codes) = code ∷ codes

unfoldable pub get_fallback_decision_explanation : AiRequestContext → DecisionExplanation
get_fallback_decision_explanation context = record {
  summary =
      join_text (
        "Based on policy rules, intervention " ∷ context.intervention_type ∷ " was selected." ∷ []);
  bullet_reasons = reasons_or_standard context.policy_reason_codes;
  policy_boundary_statement =
      "This decision was made deterministically based on account history and current failure state.";
  source = deterministic_fallback;
}
