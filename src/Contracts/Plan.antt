-- ===== src/Contracts/Plan.antt =====
-- libs/contracts/src/plan.ts: interventions and recovery plans.
use fin_tech_ai.Base.{ℕ, Bool, ◌==◌, Option, List, String}
use fin_tech_ai.Contracts.Reasons.{RecoveryReasonCode}

-- `InterventionType`
pub data InterventionType : Type 0 where
  payment_retry payment_link email_reminder sms_reminder : InterventionType
  voice_reminder human_escalation no_action : InterventionType

abbrev pub index_intervention : InterventionType → ℕ
index_intervention payment_retry = 0
index_intervention payment_link = 1
index_intervention email_reminder = 2
index_intervention sms_reminder = 3
index_intervention voice_reminder = 4
index_intervention human_escalation = 5
index_intervention no_action = 6

-- `===` on `InterventionType`.
abbrev pub same_intervention : InterventionType → InterventionType → Bool
same_intervention a b = index_intervention a == index_intervention b

-- `RecoveryPlanStatus`
pub data RecoveryPlanStatus : Type 0 where
  proposed policy_approved policy_rejected superseded : RecoveryPlanStatus
  cancelled executed : RecoveryPlanStatus

abbrev pub index_plan_status : RecoveryPlanStatus → ℕ
index_plan_status proposed = 0
index_plan_status policy_approved = 1
index_plan_status policy_rejected = 2
index_plan_status superseded = 3
index_plan_status cancelled = 4
index_plan_status executed = 5

-- `===` on `RecoveryPlanStatus`.
abbrev pub same_plan_status : RecoveryPlanStatus → RecoveryPlanStatus → Bool
same_plan_status a b = index_plan_status a == index_plan_status b

-- `parameters` holds at most `paymentLinkId`.
pub record RecoveryPlan : Type 0 where
  pub plan_id : String
  pub case_id : String
  pub intervention_type : InterventionType
  pub planned_at : ℕ
  pub reason_codes : List RecoveryReasonCode
  pub policy_version : String
  pub requires_human_approval : Bool
  pub idempotency_key : String
  pub payment_link_id : Option String
  pub plan_status : RecoveryPlanStatus
