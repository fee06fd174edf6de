-- ===== src/Worker/Reconciliation.antt =====
-- apps/worker/src/processors/reconciliation.processor.ts and stale-lock-scanner.processor.ts.
use fin_tech_ai.Persistence.Execution.Results.{persist_refused}
use fin_tech_ai.Contracts.{RevenueCaseState, same_state}
use fin_tech_ai.Domain.Errors.{plain_error, DomainError}
use fin_tech_ai.Base.{
  ℕ, ◌≡◌, inl, inr, Bool, true, false, not, none, some, arith, String, if◌then◌else◌, Bool-cases,
  Result, ok, err,
}
use fin_tech_ai.Persistence.Rows.{
  InterventionStatus, Database, OutcomeRow, CaseRow, find_case, find_outcome,
}
use fin_tech_ai.Persistence.Settlement.{persist_from, ExecutionResult, persist_execution_result}
use fin_tech_ai.Persistence.Locking.{escalate_stale_locks}
use fin_tech_ai.Persistence.Planning.{CaseContext, get_case_with_source_event_and_merchant_policy}
use fin_tech_ai.Worker.Recovery.{
  reconciled, discarded, ExecutionActionType, other_action, JobResult,
}

-- `ReconciliationJob`, as far as it is read.
pub record ReconciliationJob : Type 0 where
  pub intervention_id : String
  pub case_id : String
  pub action : ExecutionActionType

abbrev has_provider : ExecutionActionType → Bool
has_provider other_action = false
has_provider _ = true

abbrev failed_result : ReconciliationJob → ℕ → ExecutionResult
failed_result job now = record {
  intervention_id = job.intervention_id;
  status = InterventionStatus.failed;
  executed_at = now;
  recovered_amount = none;
  external_reference = none;
  failure_code = some "PROVIDER_REJECTED";
  retry_after = none;
}

unfoldable pub reconcile_case :
    CaseContext → ReconciliationJob → ℕ → Database → Result DomainError JobResult × Database
reconcile_case context job now db =
    if not (same_state context.rev_case.state RevenueCaseState.ambiguous)
    then (ok (discarded "INVALID_STATE"), db)
    else if not (has_provider job.action)
    then (err (plain_error "No provider configured for action type"), db)
    else elim (persist_execution_result (failed_result job now) RevenueCaseState.failed none now
        db) [ err e ↦ (err e, db) | ok db' ↦ (ok (reconciled InterventionStatus.failed), db') ]

-- `process`
unfoldable pub reconcile :
    ReconciliationJob → ℕ → Database → Result DomainError JobResult × Database
reconcile job now db = elim (get_case_with_source_event_and_merchant_policy job.case_id db) [
  | none ↦ (ok (discarded "CASE_NOT_FOUND"), db)
  | some context ↦ reconcile_case context job now db
]

-- `handleCron`: the locks of five minutes ago.
unfoldable pub scan_stale_locks : ℕ → Database → Database
scan_stale_locks now db = (escalate_stale_locks 5 now db).1

-- An intervention that has an outcome is never reconciled: for a case that exists, every attempt leaves the
-- database as it is, and where the case is `AMBIGUOUS` it throws.
pub reconcile_settles_nothing :
    (job : ReconciliationJob) (now : ℕ) (db : Database) (o : OutcomeRow) (c : CaseRow)
    → find_outcome job.intervention_id db ≡ some o
    → find_case job.case_id db ≡ some c
    → ((reconcile job now db).1 ≡ db)
      × (c.state ≡ RevenueCaseState.ambiguous
          → (e : DomainError) × ((reconcile job now db).0 ≡ err e))
unfolding reconcile reconcile_case persist_execution_result persist_from
    get_case_with_source_event_and_merchant_policy
reconcile_settles_nothing job now db o c outcome found =
    let (e, refused) =
      persist_refused (failed_result job now) RevenueCaseState.failed none now db o outcome in
    (
      ground (arith, refused),
      λ open_case. elim (Bool-cases (has_provider job.action)) [
        | inl known ↦ (e, ground (arith, refused))
        | inr unknown ↦ (plain_error "No provider configured for action type", ground arith)
      ],
    )
