-- ===== src/Domain/Dunning/Nodes.antt =====
-- The steps. What they take from outside is in `Surroundings`: the reply of the model service, the two
-- random ids and the local time of the first of next month, 9:00.
use fin_tech_ai.Base.{
  zero, not, suc, ℕ, Option, none, some, List, [], ◌∷◌, ◌+◌, Bool, true, false, ◌&&◌, ◌||◌, Result,
  ok, err, str_eq, join_text, show_number, if◌then◌else◌, leb, ltb, String,
}
use fin_tech_ai.Contracts.{
  no_action, human_escalation, voice_reminder, network_error, sms_reminder, email_reminder,
  bank_timeout, policy_rejected, policy_approved, transient_bank_or_network_failure, payment_link,
  authentication_or_customer_action_required, payment_retry, same_intervention, same_cause,
  RecoveryPlan, RootCause, attempts_today, consents_object, RevenueEvent, PolicyDecision,
  PaymentFailureReason, DiagnosisResult, ContactWindow, InterventionType, RecoveryCase,
  CustomerConsents,
}
use fin_tech_ai.Domain.Errors.{DomainError, plain_error}
use fin_tech_ai.Domain.Text.{upper_failure_reason, is_card_expired}
use fin_tech_ai.Domain.Time.{is_outside_trai_window}
use fin_tech_ai.Domain.Propensity.{MlResponse, score_propensity}
use fin_tech_ai.Domain.Diagnosis.{diagnose_revenue_case}
use fin_tech_ai.Domain.Intervention.{
  includes_type, select_candidate_interventions, recommend_intervention,
}
use fin_tech_ai.Domain.Policy.{PolicyEvaluationInput, evaluate_recovery_policy}
use fin_tech_ai.Domain.Dunning.State.{DunningState, DunningUpdate, no_update}

pub record Surroundings : Type 0 where
  pub ml_response : Option MlResponse
  pub plan_id : String
  pub link_id : String
  pub next_payday : ℕ → ℕ

abbrev pub Node : Type 0
Node = DunningState → Result DomainError DunningUpdate

unfoldable pub score_propensity_node : Option MlResponse → Node
score_propensity_node reply state = ok (record no_update {
  shadow_propensity = some (score_propensity reply state.rev_case state.source_event);
})

unfoldable pub diagnose_node : Node
diagnose_node state =
    let diagnosis =
      diagnose_revenue_case state.rev_case state.source_event state.merchant_policy state.now in
    ok (record no_update {
      diagnosis = some (record diagnosis { shadow_propensity = state.shadow_propensity });
    })

abbrev pub is_network_reason : Option PaymentFailureReason → Bool
is_network_reason (some bank_timeout) = true
is_network_reason (some network_error) = true
is_network_reason _ = false

-- The overrides for an expired card or a needed customer, and for a transient failure.
unfoldable pub override_recommendation :
    RecoveryCase
    → RevenueEvent
    → RootCause
    → List InterventionType
    → InterventionType
    → InterventionType
override_recommendation rev_case event root_cause candidates recommended =
    if (is_card_expired event.failure_reason
        || same_cause root_cause authentication_or_customer_action_required)
      && includes_type candidates payment_link
    then payment_link
    else if (same_cause root_cause transient_bank_or_network_failure
          || is_network_reason (upper_failure_reason event.failure_reason))
        && (ltb rev_case.attempt_count 3 && includes_type candidates payment_retry)
    then payment_retry
    else recommended

recommend_for : DunningState → DiagnosisResult → DunningUpdate
recommend_for state diagnosis =
    let candidates =
      select_candidate_interventions state.rev_case diagnosis state.merchant_policy in
    let informed = record diagnosis { candidate_interventions = candidates } in
    let first =
      recommend_intervention state.rev_case informed candidates state.merchant_policy
        state.active_intervention_summary in
    let recommended =
      override_recommendation state.rev_case state.source_event diagnosis.root_cause candidates
        first in
    record no_update {
      candidates = some candidates;
      recommended = some recommended;
      diagnosis = some (record informed { recommended_intervention = recommended });
    }

unfoldable pub recommend_node : Node
unfolding recommend_for
recommend_node state = elim state.diagnosis [
  | none ↦ err (plain_error "Diagnosis missing")
  | some diagnosis ↦ ok (recommend_for state diagnosis)
]

abbrev is_denied : Option Bool → Bool
is_denied (some false) = true
is_denied _ = false

-- The consent that the event's metadata gives for an intervention. A text has no consent fields.
unfoldable pub has_consent : Option CustomerConsents → InterventionType → Bool
has_consent (some (consents_object email sms voice)) email_reminder = not (is_denied email)
has_consent (some (consents_object email sms voice)) sms_reminder = not (is_denied sms)
has_consent (some (consents_object email sms voice)) voice_reminder = not (is_denied voice)
has_consent _ _ = true

-- `x || d` for a number that may be missing.
abbrev number_or : Option ℕ → ℕ → ℕ
number_or none d = d
number_or (some zero) d = d
number_or (some (suc n)) d = suc n

unfoldable pub has_many_attempts : Option ContactWindow → ℕ → Bool
has_many_attempts (some (attempts_today n)) max_messages =
    leb (number_or (some max_messages) 3) (number_or n 0)
has_many_attempts _ max_messages = false

unfoldable pub policy_input :
    DunningState → DiagnosisResult → InterventionType → PolicyEvaluationInput
policy_input state diagnosis recommended = record {
  rev_case = state.rev_case;
  diagnosis = diagnosis;
  proposed_intervention = recommended;
  merchant_policy = state.merchant_policy;
  active_intervention_summary = state.active_intervention_summary;
  now = state.now;
  has_consent_for_intervention =
      some (has_consent state.source_event.metadata.customer_consents recommended);
  contact_window_limit_reached = some (
      is_outside_trai_window state.now
      || has_many_attempts state.source_event.metadata.contact_window
          state.merchant_policy.contact_rules.max_messages_per_customer_window);
}

-- The step `recommend` has set `recommended` when this one runs.
unfoldable pub evaluate_policy_node : Node
unfolding policy_input
evaluate_policy_node state = elim state.diagnosis [
  | none ↦ err (plain_error "Diagnosis missing")
  | some diagnosis ↦ elim state.recommended [
    | none ↦ err (plain_error "recommended missing")
    | some recommended ↦ ok (record no_update {
      policy_decision = some (evaluate_recovery_policy (policy_input state diagnosis recommended));
    })
  ]
]

abbrev pub intervention_text : InterventionType → String
intervention_text payment_retry = "PAYMENT_RETRY"
intervention_text payment_link = "PAYMENT_LINK"
intervention_text email_reminder = "EMAIL_REMINDER"
intervention_text sms_reminder = "SMS_REMINDER"
intervention_text voice_reminder = "VOICE_REMINDER"
intervention_text human_escalation = "HUMAN_ESCALATION"
intervention_text no_action = "NO_ACTION"

-- The key by which a plan is made once.
unfoldable pub plan_key : String → String → InterventionType → ℕ → String
plan_key case_id policy_version recommended attempt_count = join_text (
    case_id
    ∷ "_"
    ∷ policy_version
    ∷ "_"
    ∷ intervention_text recommended
    ∷ "_"
    ∷ show_number (attempt_count + 1)
    ∷ [])

abbrev is_insufficient_funds : Option String → Bool
is_insufficient_funds none = false
is_insufficient_funds (some s) = str_eq s "insufficient_funds"

unfoldable pub make_plan :
    Surroundings → DunningState → InterventionType → PolicyDecision → RecoveryPlan
make_plan env state recommended decision = record {
  plan_id = env.plan_id;
  case_id = state.rev_case.case_id;
  intervention_type = recommended;
  planned_at =
      if is_insufficient_funds state.rev_case.root_cause
        && same_intervention recommended payment_retry
      then env.next_payday state.now
      else state.now;
  reason_codes = decision.reason_codes;
  policy_version = state.merchant_policy.policy_version;
  requires_human_approval = decision.requires_human_approval;
  idempotency_key =
      plan_key state.rev_case.case_id state.merchant_policy.policy_version recommended
        state.rev_case.attempt_count;
  payment_link_id =
      if same_intervention recommended payment_link
      then some (join_text ("plink_" ∷ env.link_id ∷ []))
      else none;
  plan_status = if decision.approved then policy_approved else policy_rejected;
}

-- The steps before have set `recommended` and `policyDecision` when this one runs.
unfoldable pub create_plan_node : Surroundings → Node
unfolding make_plan
create_plan_node env state = elim state.recommended [
  | none ↦ err (plain_error "recommended missing")
  | some recommended ↦ elim state.policy_decision [
    | none ↦ err (plain_error "policyDecision missing")
    | some decision ↦
        ok (record no_update { plan = some (make_plan env state recommended decision) })
  ]
]
