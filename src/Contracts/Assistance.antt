-- ===== src/Contracts/Assistance.antt =====
-- libs/contracts/src/ai.ts: what the language model is asked, what it gives, and the record of a call.
use fin_tech_ai.Base.{ℕ, Bool, Option, List, String}

pub data AiUseCase : Type 0 where
  recovery_message_draft recovery_decision_explanation : AiUseCase

pub data AiLocale : Type 0 where
  en_in hi_in hinglish ta_in kn_in : AiLocale

pub data AiDataClassification : Type 0 where
  synthetic masked_demo : AiDataClassification

pub data AiFallbackSource : Type 0 where
  llm deterministic_fallback : AiFallbackSource

pub data AiInvocationStatus : Type 0 where
  succeeded fallback_used timeout provider_error : AiInvocationStatus
  validation_failed safety_rejected disabled : AiInvocationStatus

pub record AiConstraints : Type 0 where
  pub max_characters : ℕ
  pub forbidden_claims : List String
  pub required_disclosure : Option String
  pub allowed_tone : String

pub record AiRequestContext : Type 0 where
  pub request_id : String
  pub correlation_id : String
  pub use_case : AiUseCase
  pub locale : AiLocale
  pub merchant_display_name : String
  pub masked_customer_reference : String
  pub amount_display : String
  pub currency : String
  pub event_type : String
  pub failure_reason : String
  pub root_cause : String
  pub intervention_type : String
  pub policy_reason_codes : List String
  pub max_attempts_remaining : ℕ
  pub channel : String
  pub constraints : AiConstraints
  pub data_classification : AiDataClassification
  pub active_network_downtime : Bool

pub record SafetyChecks : Type 0 where
  pub passed : Bool
  pub issues : List String

pub record RecoveryMessageDraft : Type 0 where
  pub text : String
  pub locale : AiLocale
  pub channel : String
  pub template_version : String
  pub safety_checks : SafetyChecks
  pub source : AiFallbackSource

pub record DecisionExplanation : Type 0 where
  pub summary : String
  pub bullet_reasons : List String
  pub policy_boundary_statement : String
  pub source : AiFallbackSource

pub record AiInvocationRecord : Type 0 where
  pub id : String
  pub use_case : AiUseCase
  pub provider_name : Option String
  pub model_name : Option String
  pub prompt_version : String
  pub input_hash : String
  pub output_hash : Option String
  pub status : AiInvocationStatus
  pub latency_ms : Option ℕ
  pub estimated_cost_minor : Option ℕ
  pub correlation_id : String
  pub created_at : ℕ
