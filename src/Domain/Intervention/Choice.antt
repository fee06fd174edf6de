-- ===== src/Domain/Intervention/Choice.antt =====
-- What is selected and recommended stays within what the merchant allows.
use fin_tech_ai.Base.{
  ◌≡◌, ◌≢◌, ◌⊎◌, ◌≤◌, ◌∙◌, refl, Bool-cases, ◌<◌, inl, inr, Bool, true, false, List, [], ◌∷◌, keep,
  arith, ◌&&◌,
}
use fin_tech_ai.Base.Int.{◌≤ℤ◌}
use fin_tech_ai.Contracts.{
  RecoveryCase, transient_bank_or_network_failure, InterventionType, same_intervention,
  payment_retry, no_action, DiagnosisResult, MerchantRecoveryPolicyConfig,
  ActiveInterventionSummary,
}
use fin_tech_ai.Domain.Intervention.{
  prefers_email, choose_channel, choose_action, includes_type, or_no_action, candidates_for,
  select_candidate_interventions, recommend_intervention,
}

same_intervention-eq : (t u : InterventionType) → same_intervention t u ≡ true → t ≡ u
same_intervention-eq t u h = ground arith

includes_type-keep :
    (allowed xs : List InterventionType) (t : InterventionType)
    → includes_type (keep (includes_type allowed) xs) t
      ≡ (includes_type xs t && includes_type allowed t)
includes_type-keep allowed [] t = refl
includes_type-keep allowed (x ∷ xs) t = elim (Bool-cases (same_intervention t x)) [
  | inl here ↦ rw (same_intervention-eq t x here) (ground (arith, includes_type-keep allowed xs x))
  | inr other ↦ ground (arith, other, includes_type-keep allowed xs t)
]

includes_type-or_no_action :
    (xs : List InterventionType) (t : InterventionType)
    → t ≢ no_action
    → includes_type (or_no_action xs) t ≡ includes_type xs t
includes_type-or_no_action [] t h = ground arith
includes_type-or_no_action (x ∷ xs) t h = refl

-- A type other than `NO_ACTION` is a candidate exactly when it fits the root cause and the merchant
-- allows it.
candidates_iff :
    (rc : RecoveryCase) (d : DiagnosisResult) (policy : MerchantRecoveryPolicyConfig)
    (t : InterventionType)
    → t ≢ no_action
    → includes_type (select_candidate_interventions rc d policy) t ≡ (
        includes_type (candidates_for d.root_cause) t
        && includes_type policy.allowed_intervention_types t)
unfolding select_candidate_interventions
candidates_iff rc d policy t h =
    includes_type-or_no_action _ t h
    ∙ includes_type-keep policy.allowed_intervention_types (candidates_for d.root_cause) t

-- A choice among candidates: one of them, or `NO_ACTION`.
abbrev IsChoice : List InterventionType → InterventionType → Type 0
IsChoice candidates t = (includes_type candidates t ≡ true) ⊎ (t ≡ no_action)

choose_channel-IsChoice :
    (b : Bool) (candidates : List InterventionType) (busy : Bool)
    → IsChoice candidates (choose_channel b candidates busy)
      × (choose_channel b candidates busy ≢ payment_retry)
unfolding choose_channel
choose_channel-IsChoice b candidates busy = (ground arith, ground arith)

module _ (rc : RecoveryCase) (d : DiagnosisResult) (policy : MerchantRecoveryPolicyConfig)
    (active : ActiveInterventionSummary) where
  choose_action-IsChoice :
      (candidates : List InterventionType)
      → IsChoice candidates (choose_action rc d candidates policy active)
  unfolding choose_action
  choose_action-IsChoice candidates =
      let b = prefers_email d.shadow_propensity in
      ground (arith, (choose_channel-IsChoice b candidates active.has_active_communication).0)

  choose_action-retry :
      (candidates : List InterventionType)
      → choose_action rc d candidates policy active ≡ payment_retry
      → (includes_type candidates payment_retry ≡ true)
        × (d.root_cause ≡ transient_bank_or_network_failure)
        × (rc.amount_at_risk.amount_minor ≤ℤ policy.max_retry_amount_minor)
        × (rc.attempt_count < policy.max_attempts_per_case)
        × (active.has_active_payment_retry ≡ false)
  unfolding choose_action
  choose_action-retry candidates h =
      let b = prefers_email d.shadow_propensity in
      ground (arith, (choose_channel-IsChoice b candidates active.has_active_communication).1)

  -- What is recommended is a candidate, or `NO_ACTION`.
  recommended_is_candidate :
      (candidates : List InterventionType)
      → let t = recommend_intervention rc d candidates policy active in
        (includes_type candidates t ≡ true) ⊎ (t ≡ no_action)
  unfolding recommend_intervention
  recommended_is_candidate candidates = ground (arith, choose_action-IsChoice candidates)

  -- A payment retry is recommended only for a transient cause, an amount within the merchant's limit,
  -- attempts below the cap, no active retry, and where it is a candidate, the confidence suffices.
  retry_conditions :
      (candidates : List InterventionType)
      → recommend_intervention rc d candidates policy active ≡ payment_retry
      → (includes_type candidates payment_retry ≡ true)
        × (d.root_cause ≡ transient_bank_or_network_failure)
        × (rc.amount_at_risk.amount_minor ≤ℤ policy.max_retry_amount_minor)
        × (rc.attempt_count < policy.max_attempts_per_case)
        × (active.has_active_payment_retry ≡ false)
        × (policy.minimum_recovery_score ≤ d.confidence)
  unfolding recommend_intervention
  retry_conditions candidates h = ground (arith, choose_action-retry candidates)
