-- ===== src/Contracts/Policy.antt =====
-- libs/contracts/src/policy.ts: diagnosis, merchant policy and policy decision. `confidence` is in
-- hundredths, as `minimumRecoveryScore` is; the uplifts of the propensity model are in hundredths too.
use fin_tech_ai.Base.{ℕ, Bool, Option, List, String}
use fin_tech_ai.Base.Int.{ℤ}
use fin_tech_ai.Contracts.Reasons.{RootCause, RecoveryReasonCode}
use fin_tech_ai.Contracts.Plan.{InterventionType}

-- `mlPayload` of libs/domain/src/ml/propensity.ts; `amount_minor` is in hundredths of a rupee.
pub record FeatureVector : Type 0 where
  pub days_since_last_payment : ℕ
  pub amount_minor : ℤ
  pub is_card_error : Bool
  pub is_high_value_merchant : Bool
  pub is_first_attempt : Bool
  pub amount_segment : String
  pub customer_location : String
  pub payment_channel : String

pub data RecommendedArm : Type 0 where
  arm_payment_retry arm_payment_link : RecommendedArm

pub record PropensityScore : Type 0 where
  pub probability_of_recovery_with_retry : ℤ
  pub probability_of_recovery_with_link : ℤ
  pub recommended_intervention : RecommendedArm
  pub shadow_feature_vector : FeatureVector

pub record DiagnosisResult : Type 0 where
  pub root_cause : RootCause
  pub confidence : ℕ
  pub reason_codes : List RecoveryReasonCode
  pub candidate_interventions : List InterventionType
  pub recommended_intervention : InterventionType
  pub requires_human_review : Bool
  pub evaluated_at : ℕ
  pub shadow_propensity : Option PropensityScore

pub record ContactRules : Type 0 where
  pub max_messages_per_customer_window : ℕ
  pub message_window_hours : ℕ
  pub required_consent_channels : List String

pub record MerchantRecoveryPolicyConfig : Type 0 where
  pub merchant_id : String
  pub policy_version : String
  pub enabled : Bool
  pub allowed_intervention_types : List InterventionType
  pub max_attempts_per_case : ℕ
  pub max_retry_amount_minor : ℤ
  pub minimum_recovery_score : ℕ
  pub manual_approval_above_amount_minor : ℤ
  pub contact_rules : ContactRules
  pub stale_event_limit_hours : ℕ
  pub supported_currencies : Option (List String)
  pub allow_cross_border : Option Bool
  pub updated_at : ℕ

pub record PolicyDecision : Type 0 where
  pub approved : Bool
  pub reason_codes : List RecoveryReasonCode
  pub requires_human_approval : Bool
  pub stop_case : Bool
  pub escalation_required : Bool
  pub retry_after : Option ℕ
  pub approved_intervention : Option InterventionType

-- libs/domain/src/intervention.ts
pub record ActiveInterventionSummary : Type 0 where
  pub has_active_payment_retry : Bool
  pub has_active_payment_link : Bool
  pub has_active_communication : Bool
