-- ===== src/Domain/Policy.antt =====
-- libs/domain/src/policy.ts: whether a merchant's policy lets an intervention go ahead. The checks are
-- made in the order of the source, in three groups; each group's first refusal is the decision.
pub mod Approval
use fin_tech_ai.Base.{
  ℕ, ◌+◌, ◌*◌, Bool, true, false, not, ◌&&◌, ◌||◌, Option, none, some, List, [], ◌∷◌, exists, ltb,
  leb, ◌==◌, str_eq, if◌then◌else◌, String,
}
use fin_tech_ai.Base.Int.{ltb_ℤ, leb_ℤ}
use fin_tech_ai.Contracts.{
  RevenueCaseState, same_state, recovered, failed, stopped, expired, rejected, RecoveryCase,
  same_cause, fraud, RecoveryReasonCode, attempt_limit_reached, consent_missing,
  channel_not_allowed, retry_amount_limit_exceeded, low_confidence_escalation,
  human_approval_required, terminal_case, no_safe_intervention, merchant_policy_excluded,
  fraud_detected, currency_not_supported, cross_border_restricted, InterventionType,
  same_intervention, payment_retry, email_reminder, sms_reminder, voice_reminder, human_escalation,
  no_action, DiagnosisResult, MerchantRecoveryPolicyConfig, PolicyDecision,
  ActiveInterventionSummary,
}
use fin_tech_ai.Domain.Time.{ms_per_hour, is_outside_trai_window}
use fin_tech_ai.Domain.Intervention.{includes_type, has_low_confidence, needs_manual_approval}

pub record PolicyEvaluationInput : Type 0 where
  pub rev_case : RecoveryCase
  pub diagnosis : DiagnosisResult
  pub proposed_intervention : InterventionType
  pub merchant_policy : MerchantRecoveryPolicyConfig
  pub active_intervention_summary : ActiveInterventionSummary
  pub now : ℕ
  pub has_consent_for_intervention : Option Bool
  pub contact_window_limit_reached : Option Bool

abbrev pub is_closed : RevenueCaseState → Bool
is_closed state =
    same_state state recovered
    || (same_state state failed
        || (same_state state stopped || (same_state state expired || same_state state rejected)))

abbrev pub reject : List RecoveryReasonCode → Bool → Bool → Bool → PolicyDecision
reject codes human stop escalation = record {
  approved = false;
  reason_codes = codes;
  requires_human_approval = human;
  stop_case = stop;
  escalation_required = escalation;
  retry_after = none;
  approved_intervention = none;
}

abbrev pub or_else : Option PolicyDecision → PolicyDecision → PolicyDecision
or_else none d = d
or_else (some r) d = r

-- `supportedCurrencies && supportedCurrencies.length > 0`
abbrev pub listed_currencies : Option (List String) → Option (List String)
listed_currencies none = none
listed_currencies (some []) = none
listed_currencies (some (c ∷ cs)) = some (c ∷ cs)

abbrev pub currency_refused : Option (List String) → String → Bool
currency_refused none currency = false
currency_refused (some cs) currency = not (exists (str_eq currency) cs)

abbrev pub domestic_currencies : Option (List String) → List String
domestic_currencies none = "INR" ∷ []
domestic_currencies (some cs) = cs

abbrev pub forbids_cross_border : Option Bool → Bool
forbids_cross_border (some false) = true
forbids_cross_border _ = false

-- Steps 1 to 2.6: the case and its currency.
unfoldable pub case_refusal : PolicyEvaluationInput → Option PolicyDecision
case_refusal input =
    let listed = listed_currencies input.merchant_policy.supported_currencies in
    let currency = input.rev_case.amount_at_risk.currency in
    if is_closed input.rev_case.state
    then some (reject (terminal_case ∷ []) false true false)
    else if not input.merchant_policy.enabled
    then some (reject (merchant_policy_excluded ∷ []) false true false)
    else if same_cause input.diagnosis.root_cause fraud
    then some (reject (fraud_detected ∷ []) false true false)
    else if currency_refused listed currency
    then some (reject (currency_not_supported ∷ []) true true true)
    else if forbids_cross_border input.merchant_policy.allow_cross_border
        && not (exists (str_eq currency) (domestic_currencies listed))
    then some (reject (cross_border_restricted ∷ []) true true true)
    else none

abbrev pub is_unattended : InterventionType → Bool
is_unattended t = not (same_intervention t human_escalation) && not (same_intervention t no_action)

abbrev pub refuses_consent : Option Bool → Bool
refuses_consent (some false) = true
refuses_consent _ = false

-- Steps 3 to 7: the proposed intervention.
unfoldable pub action_refusal : PolicyEvaluationInput → Option PolicyDecision
action_refusal input =
    let policy = input.merchant_policy in
    let proposed = input.proposed_intervention in
    if leb policy.max_attempts_per_case input.rev_case.attempt_count
    then some (reject (attempt_limit_reached ∷ []) false true false)
    else if not (includes_type policy.allowed_intervention_types proposed)
    then some (reject (channel_not_allowed ∷ []) false true false)
    else if has_low_confidence input.diagnosis policy && is_unattended proposed
    then some (reject (low_confidence_escalation ∷ []) true false true)
    else if same_intervention proposed payment_retry
        && ltb_ℤ policy.max_retry_amount_minor input.rev_case.amount_at_risk.amount_minor
    then some (reject (retry_amount_limit_exceeded ∷ []) false true true)
    else if refuses_consent input.has_consent_for_intervention
    then some (reject (consent_missing ∷ []) true true true)
    else none

-- The reasons that step 8, the threshold for manual approval, pushes.
abbrev pub approval_reasons : PolicyEvaluationInput → List RecoveryReasonCode
approval_reasons input =
    if needs_manual_approval input.rev_case input.merchant_policy
    then human_approval_required ∷ []
    else []

abbrev pub push : List RecoveryReasonCode → RecoveryReasonCode → List RecoveryReasonCode
push [] r = r ∷ []
push (c ∷ cs) r = c ∷ push cs r

abbrev pub is_reminder : InterventionType → Bool
is_reminder t =
    same_intervention t email_reminder
    || (same_intervention t sms_reminder || same_intervention t voice_reminder)

abbrev pub is_call_or_sms : InterventionType → Bool
is_call_or_sms t = same_intervention t voice_reminder || same_intervention t sms_reminder

abbrev pub is_reached : Option Bool → Bool
is_reached (some b) = b
is_reached none = false

-- The checks of the contact window.
unfoldable pub contact_refusal : PolicyEvaluationInput → Option PolicyDecision
contact_refusal input =
    if is_reached input.contact_window_limit_reached && is_reminder input.proposed_intervention
    then some (record (reject (attempt_limit_reached ∷ []) false false false) {
      retry_after =
          some (input.now + input.merchant_policy.contact_rules.message_window_hours * ms_per_hour);
    })
    else if is_call_or_sms input.proposed_intervention && is_outside_trai_window input.now
    then some
        (record (reject (push (approval_reasons input) channel_not_allowed) false false false) {
          retry_after = some (input.now + 12 * ms_per_hour);
        })
    else none

-- What is left: nothing to do, or approval.
unfoldable pub final_decision : PolicyEvaluationInput → PolicyDecision
final_decision input =
    let proposed = input.proposed_intervention in
    let escalates = same_intervention proposed human_escalation in
    if same_intervention proposed no_action
    then reject (push (approval_reasons input) no_safe_intervention) false true escalates
    else record {
      approved = true;
      reason_codes = approval_reasons input;
      requires_human_approval =
          needs_manual_approval input.rev_case input.merchant_policy || escalates;
      stop_case = false;
      escalation_required = escalates;
      retry_after = none;
      approved_intervention = some proposed;
    }

unfoldable pub evaluate_recovery_policy : PolicyEvaluationInput → PolicyDecision
evaluate_recovery_policy input =
    or_else (case_refusal input)
      (or_else (action_refusal input) (or_else (contact_refusal input) (final_decision input)))
