-- ===== src/Domain/Intervention.antt =====
-- libs/domain/src/intervention.ts: which interventions fit a root cause, and which one to recommend.
pub mod Choice
pub mod Advice
use fin_tech_ai.Base.{
  ℕ, Bool, true, false, not, ◌&&◌, ◌||◌, Option, none, some, List, [], ◌∷◌, exists, keep, ltb,
  str_eq, ◌==◌, length, if◌then◌else◌,
}
use fin_tech_ai.Base.Int.{ltb_ℤ, leb_ℤ}
use fin_tech_ai.Contracts.{
  RecoveryCase, RootCause, same_cause, transient_bank_or_network_failure, insufficient_funds_likely,
  authentication_or_customer_action_required, mandate_or_subscription_issue, checkout_drop_off,
  invoice_collection_delay, InterventionType, same_intervention, payment_retry, payment_link,
  email_reminder, sms_reminder, human_escalation, no_action, PropensityScore, DiagnosisResult,
  MerchantRecoveryPolicyConfig, ActiveInterventionSummary,
}

-- `list.includes(type)`
abbrev pub includes_type : List InterventionType → InterventionType → Bool
includes_type xs t = exists (same_intervention t) xs

-- The `switch` on the root cause.
unfoldable pub candidates_for : RootCause → List InterventionType
candidates_for transient_bank_or_network_failure =
    payment_retry ∷ payment_link ∷ human_escalation ∷ []
candidates_for insufficient_funds_likely =
    payment_link ∷ sms_reminder ∷ email_reminder ∷ human_escalation ∷ []
candidates_for authentication_or_customer_action_required =
    payment_link ∷ sms_reminder ∷ email_reminder ∷ []
candidates_for mandate_or_subscription_issue = payment_link ∷ email_reminder ∷ human_escalation ∷ []
candidates_for checkout_drop_off = sms_reminder ∷ email_reminder ∷ no_action ∷ []
candidates_for invoice_collection_delay = email_reminder ∷ human_escalation ∷ []
candidates_for _ = human_escalation ∷ no_action ∷ []

abbrev pub or_no_action : List InterventionType → List InterventionType
or_no_action [] = no_action ∷ []
or_no_action (t ∷ ts) = t ∷ ts

unfoldable pub select_candidate_interventions :
    RecoveryCase → DiagnosisResult → MerchantRecoveryPolicyConfig → List InterventionType
unfolding candidates_for
select_candidate_interventions rev_case diagnosis merchant_policy = or_no_action (
    keep (includes_type merchant_policy.allowed_intervention_types)
      (candidates_for diagnosis.root_cause))

abbrev pub needs_customer : RootCause → Bool
needs_customer cause =
    same_cause cause authentication_or_customer_action_required
    || (same_cause cause insufficient_funds_likely
        || same_cause cause mandate_or_subscription_issue)

abbrev pub prefers_email : Option PropensityScore → Bool
prefers_email none = false
prefers_email (some p) = str_eq p.shadow_feature_vector.customer_location "Urban"

abbrev pub link_scores_higher : Option PropensityScore → Bool
link_scores_higher none = false
link_scores_higher (some p) =
    ltb_ℤ p.probability_of_recovery_with_retry p.probability_of_recovery_with_link

-- The last choices, from the communication channels on.
unfoldable pub choose_channel : Bool → List InterventionType → Bool → InterventionType
choose_channel email_first candidates busy =
    let email = includes_type candidates email_reminder && not busy in
    let sms = includes_type candidates sms_reminder && not busy in
    let last = if includes_type candidates human_escalation then human_escalation else no_action in
    if email_first
    then if email then email_reminder else if sms then sms_reminder else last
    else if sms
    then sms_reminder
    else if email
    then email_reminder
    else last

-- From the payment retry on.
unfoldable pub choose_action :
    RecoveryCase
    → DiagnosisResult
    → List InterventionType
    → MerchantRecoveryPolicyConfig
    → ActiveInterventionSummary
    → InterventionType
choose_action rev_case diagnosis candidates policy active =
    let link_free = includes_type candidates payment_link && not active.has_active_payment_link in
    if includes_type candidates payment_retry
      && (same_cause diagnosis.root_cause transient_bank_or_network_failure
          && (leb_ℤ rev_case.amount_at_risk.amount_minor policy.max_retry_amount_minor
              && (ltb rev_case.attempt_count policy.max_attempts_per_case
                  && not active.has_active_payment_retry)))
    then payment_retry
    else if needs_customer diagnosis.root_cause && link_free
    then payment_link
    else if link_scores_higher diagnosis.shadow_propensity
        && (link_free && needs_customer diagnosis.root_cause)
    then payment_link
    else choose_channel (prefers_email diagnosis.shadow_propensity) candidates
        active.has_active_communication

-- `diagnosis.confidence < merchantPolicy.minimumRecoveryScore / 100`
abbrev pub has_low_confidence : DiagnosisResult → MerchantRecoveryPolicyConfig → Bool
has_low_confidence diagnosis policy = ltb diagnosis.confidence policy.minimum_recovery_score

-- `amountMinor >= manualApprovalAboveAmountMinor`
abbrev pub needs_manual_approval : RecoveryCase → MerchantRecoveryPolicyConfig → Bool
needs_manual_approval rev_case policy =
    leb_ℤ policy.manual_approval_above_amount_minor rev_case.amount_at_risk.amount_minor

unfoldable pub recommend_intervention :
    RecoveryCase
    → DiagnosisResult
    → List InterventionType
    → MerchantRecoveryPolicyConfig
    → ActiveInterventionSummary
    → InterventionType
recommend_intervention rev_case diagnosis candidates policy active =
    let can_escalate = includes_type candidates human_escalation in
    if length candidates == 0 || (includes_type candidates no_action && length candidates == 1)
    then no_action
    else if has_low_confidence diagnosis policy
    then if can_escalate then human_escalation else no_action
    else if needs_manual_approval rev_case policy && can_escalate
    then human_escalation
    else choose_action rev_case diagnosis candidates policy active
