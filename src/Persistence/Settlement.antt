-- ===== src/Persistence/Settlement.antt =====
-- libs/persistence/src/repositories/prisma/execution.ts: the result of an execution, its retry
-- and its refusal.
use fin_tech_ai.Persistence.Execution.{system_audit, intervention_audit}
use fin_tech_ai.Base.{
  zero, suc, ℕ, ◌+◌, Bool, true, false, Option, none, some, [], ◌∷◌, ◌++◌, is_some, if◌then◌else◌,
  Result, ok, err, String,
}
use fin_tech_ai.Base.Int.{negsuc, ℤ, pos}
use fin_tech_ai.Contracts.{retryable, RevenueCaseState, same_state, Money}
use fin_tech_ai.Domain.Errors.{DomainError, plain_error}
use fin_tech_ai.Persistence.Rows.{
  CaseRow, InterventionStatus, InterventionRow, OutcomeRow, Database, find_case, find_intervention,
  find_outcome, write_audit, update_case, moved_to, update_intervention,
}

-- `InterventionExecutionResult`
pub record ExecutionResult : Type 0 where
  pub intervention_id : String
  pub status : InterventionStatus
  pub executed_at : ℕ
  pub recovered_amount : Option Money
  pub external_reference : Option String
  pub failure_code : Option String
  pub retry_after : Option ℕ

-- A column that is given `undefined` keeps its value.
abbrev pub given_or : {A : Type 0} → Option A → Option A → Option A
given_or none old = old
given_or (some a) old = some a

-- `recoveredAmount?.amountMinor || null`
abbrev amount_or_null : Option Money → Option ℤ
amount_or_null none = none
amount_or_null (some m) = elim m.amount_minor [
  | pos zero ↦ none
  | pos (suc n) ↦ some (pos (suc n))
  | negsuc n ↦ some (negsuc n)
]

abbrev pub completed : ExecutionResult → InterventionRow → InterventionRow
completed result r = record r {
  status = result.status;
  execution_completed_at = some result.executed_at;
  external_reference = given_or result.external_reference r.external_reference;
  failure_code = given_or result.failure_code r.failure_code;
  retry_after = given_or result.retry_after r.retry_after;
}

abbrev is_succeeded : InterventionStatus → Bool
is_succeeded InterventionStatus.succeeded = true
is_succeeded _ = false

abbrev pub amount_given : Option ℤ → ℤ → ℤ
amount_given none old = old
amount_given (some a) old = a

-- Step 3, the state of the case, with the case as it was read. The log gets its entry whether or not the
-- version still fits.
unfoldable pub settle_read : Option CaseRow → RevenueCaseState → Option ℤ → ℕ → Database → Database
settle_read none target remaining now db = db
settle_read (some existing) target remaining now db =
    if same_state existing.state target
    then db
    else write_audit (system_audit "STATE_TRANSITIONED" existing target now) (
        update_case existing.id existing.version
          (λ r. record (moved_to target (existing.version + 1) now r) {
            amount_at_risk_minor = amount_given remaining r.amount_at_risk_minor;
          })
          db)

abbrev pub new_outcome : ExecutionResult → OutcomeRow
new_outcome result = record {
  intervention_id = result.intervention_id;
  status = result.status;
  recovered_amount_minor = amount_or_null result.recovered_amount;
}

-- Steps 1, 2 and the first entry of the log.
abbrev pub record_result : ExecutionResult → InterventionRow → ℕ → Database → Database
record_result result row now db =
    let action =
      if is_succeeded result.status then "INTERVENTION_SUCCESS" else "INTERVENTION_FAILED" in
    write_audit (intervention_audit action row now) (
      update_intervention result.intervention_id (completed result)
        (record db { outcomes = db.outcomes ++ new_outcome result ∷ [] }))

unfoldable pub persist_from :
    InterventionRow
    → Option CaseRow
    → ExecutionResult
    → RevenueCaseState
    → Option ℤ
    → ℕ
    → Database
    → Result DomainError Database
persist_from row read result target remaining now db =
    if is_some (find_outcome result.intervention_id db)
    then err (plain_error "Unique constraint failed")
    else ok (settle_read read target remaining now (record_result result row now db))

unfoldable pub persist_execution_result :
    ExecutionResult → RevenueCaseState → Option ℤ → ℕ → Database → Result DomainError Database
persist_execution_result result target remaining now db =
    elim (find_intervention result.intervention_id db) [
      | none ↦ err (plain_error "Intervention not found")
      | some row ↦ persist_from row (find_case row.case_id db) result target remaining now db
    ]

abbrev pub put_off : ℕ → InterventionRow → InterventionRow
put_off until row = record row {
  status = InterventionStatus.retry_scheduled;
  retry_after = some until;
}

unfoldable pub retry_from : Option CaseRow → String → ℕ → ℕ → Database → Database
retry_from none intervention_id until now db =
    update_intervention intervention_id (put_off until) db
retry_from (some existing) intervention_id until now db =
    let db' = update_intervention intervention_id (put_off until) db in
    if same_state existing.state retryable
    then db'
    else update_case existing.id existing.version (moved_to retryable (existing.version + 1) now)
        db'

unfoldable pub schedule_retry : String → ℕ → ℕ → Database → Database
schedule_retry intervention_id delay_ms now db = elim (find_intervention intervention_id db) [
  | none ↦ db
  | some row ↦ retry_from (find_case row.case_id db) intervention_id (now + delay_ms) now db
]

-- `update` throws where no row has the id.
unfoldable pub block_execution : String → Database → Result DomainError Database
block_execution intervention_id db =
    if is_some (find_intervention intervention_id db)
    then ok (
        update_intervention intervention_id
          (λ r. record r {
            status = InterventionStatus.stopped;
            failure_code = some "POLICY_BLOCKED";
          })
          db)
    else err (plain_error "Record to update not found")
