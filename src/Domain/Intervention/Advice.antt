-- ===== src/Domain/Intervention/Advice.antt =====
-- The propensity model advises only on the channel.
use fin_tech_ai.Base.{◌≡◌, arith, List, some}
use fin_tech_ai.Base.Int.{ℤ}
use fin_tech_ai.Contracts.{
  RecoveryCase, InterventionType, RecommendedArm, PropensityScore, DiagnosisResult,
  MerchantRecoveryPolicyConfig, ActiveInterventionSummary,
}
use fin_tech_ai.Domain.Intervention.{recommend_intervention, choose_action, choose_channel}

-- Whatever uplifts and arm the model gives for the same features, the recommendation is the same.
pub scores_never_decide :
    (rc : RecoveryCase) (d : DiagnosisResult) (candidates : List InterventionType)
    (policy : MerchantRecoveryPolicyConfig) (active : ActiveInterventionSummary)
    (p : PropensityScore) (retry link : ℤ) (arm : RecommendedArm)
    → let q = record p {
      probability_of_recovery_with_retry = retry;
      probability_of_recovery_with_link = link;
      recommended_intervention = arm;
    } in
      recommend_intervention rc (record d { shadow_propensity = some q }) candidates policy active
      ≡ recommend_intervention rc (record d { shadow_propensity = some p }) candidates policy active
unfolding recommend_intervention choose_action choose_channel
scores_never_decide rc d candidates policy active p retry link arm = ground arith
