-- ===== src/Evaluation/Dataset.antt =====
-- libs/evaluation/src/dataset/schemas.ts: the cases of the benchmark. An amount is the integer that its
-- text denotes, a time stamp is in milliseconds. The event's own metadata, which no strategy reads, is left
-- out.
use fin_tech_ai.Base.{ℕ, Bool, Option, List, String}
use fin_tech_ai.Base.Int.{ℤ}

pub data ProviderScenario : Type 0 where
  success timeout_once_then_success permanent_failure : ProviderScenario
  invalid_response payment_link_paid_after_event no_customer_response : ProviderScenario

pub record EvaluationGroundTruth : Type 0 where
  pub recoverable : Bool
  pub successful_interventions : List String
  pub unsuccessful_interventions : List String
  pub expected_recovery_amount_minor : ℤ
  pub minimum_attempts : ℕ
  pub maximum_attempts : ℕ
  pub provider_scenario : ProviderScenario
  pub unsafe_conditions : Option (List String)
  pub expected_escalation : Bool
  pub expected_stop : Bool

pub record EvaluationEvent : Type 0 where
  pub event_id : String
  pub event_type : String
  pub amount_minor : ℤ
  pub currency : String
  pub failure_reason : Option String

pub record EvaluationCase : Type 0 where
  pub scenario_id : String
  pub source_event : EvaluationEvent
  pub merchant_policy_reference : String
  pub masked_customer_reference : String
  pub known_allowed_channels : List String
  pub event_timestamp : ℕ
  pub ground_truth : EvaluationGroundTruth
