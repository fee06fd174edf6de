-- ===== src/Domain/Dunning/State.antt =====
-- `DunningState`, a step's partial update of it, and the channels that merge the update.
use fin_tech_ai.Base.{ℕ, Option, none, some, List}
use fin_tech_ai.Contracts.{
  RevenueCaseState, ActiveInterventionSummary, RecoveryPlan, MerchantRecoveryPolicyConfig,
  PolicyDecision, RevenueEvent, InterventionType, RecoveryCase, DiagnosisResult, PropensityScore,
}

pub record DunningState : Type 0 where
  pub rev_case : RecoveryCase
  pub source_event : RevenueEvent
  pub merchant_policy : MerchantRecoveryPolicyConfig
  pub active_intervention_summary : ActiveInterventionSummary
  pub now : ℕ
  pub diagnosis : Option DiagnosisResult
  pub shadow_propensity : Option PropensityScore
  pub candidates : Option (List InterventionType)
  pub recommended : Option InterventionType
  pub policy_decision : Option PolicyDecision
  pub plan : Option RecoveryPlan
  pub resulting_case_state : Option RevenueCaseState

-- `Partial<DunningState>`: the keys that the steps return.
pub record DunningUpdate : Type 0 where
  pub diagnosis : Option DiagnosisResult
  pub shadow_propensity : Option PropensityScore
  pub candidates : Option (List InterventionType)
  pub recommended : Option InterventionType
  pub policy_decision : Option PolicyDecision
  pub plan : Option RecoveryPlan

abbrev pub no_update : DunningUpdate
no_update = record {
  diagnosis = none;
  shadow_propensity = none;
  candidates = none;
  recommended = none;
  policy_decision = none;
  plan = none;
}

-- A channel's `value: (left, right) => right ?? left`.
abbrev pub right_or_left : {A : Type 0} → Option A → Option A → Option A
right_or_left left none = left
right_or_left left (some a) = some a

abbrev pub merge : DunningState → DunningUpdate → DunningState
merge s u = record s {
  diagnosis = right_or_left s.diagnosis u.diagnosis;
  shadow_propensity = right_or_left s.shadow_propensity u.shadow_propensity;
  candidates = right_or_left s.candidates u.candidates;
  recommended = right_or_left s.recommended u.recommended;
  policy_decision = right_or_left s.policy_decision u.policy_decision;
  plan = right_or_left s.plan u.plan;
}
