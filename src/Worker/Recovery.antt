-- ===== src/Worker/Recovery.antt =====
-- apps/worker/src/processors/recovery-plan-execution.processor.ts, and the choice of a provider in
-- apps/worker/src/providers/provider.factory.ts. Each call of a repository is a transaction of its own: a job
-- that throws keeps what its earlier calls have written. The model threads the database through one job, and
-- the provider's `execute` is a parameter, which may throw.
pub mod Settlement
pub mod Process
pub mod Safety
use fin_tech_ai.Domain.Errors.{plain_error, DomainError}
use fin_tech_ai.Base.{
  ℕ, zero, suc, ◌+◌, ◌*◌, ◌≤◌, ◌<◌, ◌≡◌, ◌≢◌, refl, sym, ◌∙◌, inl, inr, Bool, true, false, not,
  ◌&&◌, ◌||◌, Option, none, some, List, [], ◌∷◌, ◌++◌, map, arith, str_eq, eq_iff, String, leb, ltb,
  ◌==◌, if◌then◌else◌, Bool-cases, Option-cases, is_some, length, keep, exists, find, Result, ok,
  err, ◌>>=◌, value_or, find_row, update_row, matches, update_all,
}
use fin_tech_ai.Base.Int.{ℤ, ltb_ℤ, ◌-ℤ◌}
use fin_tech_ai.Persistence.Rows.{Database, ExecutionJob, InterventionStatus, InterventionRow}
use fin_tech_ai.Persistence.Settlement.{ExecutionResult, persist_execution_result}
use fin_tech_ai.Persistence.Execution.{
  PrepareInterventionCommand, prepare_intervention_for_execution,
}
use fin_tech_ai.Persistence.Locking.{claim_execution_lock}
use fin_tech_ai.Contracts.{
  no_action, human_escalation, voice_reminder, sms_reminder, recovered, email_reminder,
  awaiting_customer_action, payment_retry, detected, payment_link, Money, RevenueCaseState,
  RecoveryPlan, InterventionType,
}

-- `ExecutionActionType`; `other_action` is `NO_ACTION`, which the mapping leaves as it is.
pub data ExecutionActionType : Type 0 where
  create_payment_link initiate_payment_retry send_email_reminder send_sms_reminder :
      ExecutionActionType
  send_voice_reminder create_human_escalation other_action : ExecutionActionType

unfoldable pub action_type : InterventionType → ExecutionActionType
action_type payment_link = create_payment_link
action_type payment_retry = initiate_payment_retry
action_type email_reminder = send_email_reminder
action_type sms_reminder = send_sms_reminder
action_type voice_reminder = send_voice_reminder
action_type human_escalation = create_human_escalation
action_type no_action = other_action

-- `InterventionExecutionRequest`, less the customer's name and addresses.
pub record ExecutionRequest : Type 0 where
  pub intervention_id : String
  pub case_id : String
  pub merchant_id : String
  pub action : ExecutionActionType
  pub amount_minor : ℤ
  pub currency : String
  pub idempotency_key : String

-- `ProviderExecutionResult`
pub record ProviderResult : Type 0 where
  pub success : Bool
  pub external_reference : Option String
  pub recovered_amount : Option Money
  pub failure_code : Option String
  pub retry_after : Option ℕ

abbrev pub Provider : Type 0
Provider = ExecutionRequest → Result DomainError ProviderResult

-- `getProvider(actionType)` and its `execute`.
abbrev pub run_provider : Provider → ExecutionRequest → Result DomainError ProviderResult
run_provider provider request = elim request.action [
  | other_action ↦ err (plain_error "No provider configured for action type")
  | create_payment_link ↦ provider request
  | initiate_payment_retry ↦ provider request
  | send_email_reminder ↦ provider request
  | send_sms_reminder ↦ provider request
  | send_voice_reminder ↦ provider request
  | create_human_escalation ↦ provider request
]

pub data JobResult : Type 0 where
  discarded stopped_case : String → JobResult
  executed : InterventionStatus → String → JobResult
  reconciled : InterventionStatus → JobResult

abbrev is_timeout : Option String → Bool
is_timeout none = false
is_timeout (some code) = str_eq code "PROVIDER_TIMEOUT"

unfoldable pub execution_status : ProviderResult → InterventionStatus
execution_status result =
    if result.success
    then InterventionStatus.succeeded
    else if is_timeout result.failure_code
    then InterventionStatus.ambiguous
    else InterventionStatus.failed

-- What a payment retry recovered of the amount at risk.
unfoldable pub retry_outcome : Option Money → ℤ → RevenueCaseState × Option ℤ
retry_outcome none at_risk = (RevenueCaseState.failed, none)
retry_outcome (some m) at_risk =
    if ltb_ℤ m.amount_minor at_risk
    then (detected, some (at_risk -ℤ m.amount_minor))
    else (recovered, none)

-- Success, by the kind of action.
unfoldable pub success_outcome :
    ExecutionActionType → Option Money → ℤ → RevenueCaseState × Option ℤ
success_outcome create_payment_link m at_risk = (awaiting_customer_action, none)
success_outcome send_email_reminder m at_risk = (awaiting_customer_action, none)
success_outcome send_sms_reminder m at_risk = (awaiting_customer_action, none)
success_outcome send_voice_reminder m at_risk = (awaiting_customer_action, none)
success_outcome initiate_payment_retry m at_risk = retry_outcome m at_risk
success_outcome create_human_escalation m at_risk = (recovered, none)
success_outcome other_action m at_risk = (recovered, none)

-- The next state of the case and the amount that is left at risk, where it changes.
unfoldable pub next_case_state :
    ExecutionActionType → ProviderResult → ℤ → RevenueCaseState × Option ℤ
next_case_state action result at_risk =
    if result.success
    then success_outcome action result.recovered_amount at_risk
    else if is_timeout result.failure_code
    then (RevenueCaseState.ambiguous, none)
    else (RevenueCaseState.failed, none)

-- A field that is set only where the provider's is not empty.
abbrev not_empty : Option String → Option String
not_empty none = none
not_empty (some s) = if str_eq s "" then none else some s

abbrev pub execution_result : String → ProviderResult → ℕ → ExecutionResult
execution_result id result now = record {
  intervention_id = id;
  status = execution_status result;
  executed_at = now;
  recovered_amount = result.recovered_amount;
  external_reference = not_empty result.external_reference;
  failure_code = not_empty result.failure_code;
  retry_after = result.retry_after;
}
