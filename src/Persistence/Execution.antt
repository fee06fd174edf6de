-- ===== src/Persistence/Execution.antt =====
-- libs/persistence/src/repositories/prisma/execution.ts: an intervention is prepared, or its case is given to
-- a person or stopped. A transaction that throws leaves the database as it was, so it returns the new
-- database only on success. What a transaction reads at its start is an argument of its `_from` part: under
-- read committed another transaction may have changed the row since. Random ids and the clock are arguments.
pub mod Versions
pub mod Locks
pub mod Results
use fin_tech_ai.Base.{
  zero, suc, ℕ, ◌+◌, ◌*◌, Bool, true, false, not, ◌&&◌, ◌||◌, Option, none, some, List, [], ◌∷◌,
  ◌++◌, leb, ◌==◌, exists, keep, str_eq, is_some, matches, update_row, update_all, if◌then◌else◌,
  Result, ok, err, String, length, map,
}
use fin_tech_ai.Base.Int.{negsuc, ℤ, pos}
use fin_tech_ai.Contracts.{
  stopped, retryable, escalated, executing, queued, RevenueCaseState, same_state, InterventionType,
  same_intervention, Money,
}
use fin_tech_ai.Domain.Errors.{DomainError, plain_error}
use fin_tech_ai.Persistence.Rows.{
  CaseRow, InterventionStatus, InterventionRow, OutcomeRow, OutboxRow, AuditRow, Database,
  find_case, find_intervention, find_intervention_by_key, find_outcome, write_audit, update_case,
  case_updated, moved_to, update_intervention,
}

pub record PrepareInterventionCommand : Type 0 where
  pub plan_id : String
  pub case_id : String
  pub merchant_id : String
  pub intervention_type : InterventionType
  pub idempotency_key : String
  pub attempt_count : ℕ

abbrev pub system_audit : String → CaseRow → RevenueCaseState → ℕ → AuditRow
system_audit action existing next now = record {
  timestamp = now;
  actor_type = "SYSTEM";
  action = action;
  entity_type = "RevenueCase";
  entity_id = existing.id;
  correlation_id = existing.correlation_id;
  previous_state = some existing.state;
  next_state = some next;
}

abbrev pub intervention_audit : String → InterventionRow → ℕ → AuditRow
intervention_audit action row now = record {
  timestamp = now;
  actor_type = "SYSTEM";
  action = action;
  entity_type = "Intervention";
  entity_id = row.id;
  correlation_id = row.correlation_id;
  previous_state = none;
  next_state = none;
}

abbrev new_intervention : PrepareInterventionCommand → String → CaseRow → InterventionRow
new_intervention command id existing = record {
  id = id;
  plan_id = command.plan_id;
  case_id = command.case_id;
  intervention_type = command.intervention_type;
  status = InterventionStatus.pending;
  idempotency_key = command.idempotency_key;
  attempt_number = command.attempt_count;
  correlation_id = existing.correlation_id;
  locked_at = none;
  locked_by = none;
  execution_completed_at = none;
  external_reference = none;
  failure_code = none;
  retry_after = none;
}

-- `@@unique([caseId, interventionType, attemptNumber])`
abbrev pub is_same_attempt : PrepareInterventionCommand → InterventionRow → Bool
is_same_attempt command r =
    str_eq r.case_id command.case_id
    && (same_intervention r.intervention_type command.intervention_type
        && r.attempt_number == command.attempt_count)

abbrev insert_intervention : InterventionRow → Database → Database
insert_intervention row db = record db { interventions = db.interventions ++ row ∷ [] }

abbrev pub is_queued : RevenueCaseState → Bool
is_queued s = same_state s queued

-- The transition to `EXECUTING`, where the case read was queued.
unfoldable pub start_executing : CaseRow → ℕ → Database → Result DomainError Database
start_executing existing now db =
    if not (is_queued existing.state)
    then ok db
    else if case_updated existing.id existing.version db
    then ok (
        write_audit (system_audit "STATE_TRANSITIONED" existing executing now) (
          update_case existing.id existing.version (moved_to executing (existing.version + 1) now)
            db))
    else err (plain_error "Optimistic concurrency failure while transitioning to EXECUTING")

unfoldable pub prepare_intervention_from :
    CaseRow
    → PrepareInterventionCommand
    → String
    → ℕ
    → Database
    → Result DomainError (InterventionRow × Database)
prepare_intervention_from existing command id now db =
    elim (find_intervention_by_key command.idempotency_key db) [
      | some row ↦ ok (row, db)
      | none ↦
          if exists (is_same_attempt command) db.interventions
          then err (plain_error "Unique constraint failed")
          else elim (start_executing existing now
              (insert_intervention (new_intervention command id existing) db)) [
                | err e ↦ err e
                | ok db' ↦ ok (
                  new_intervention command id existing,
                  write_audit
                      (intervention_audit "INTERVENTION_PREPARED"
                        (new_intervention command id existing) now)
                      db',
                )
              ]
    ]

unfoldable pub prepare_intervention_for_execution :
    PrepareInterventionCommand
    → String
    → ℕ
    → Database
    → Result DomainError (InterventionRow × Database)
prepare_intervention_for_execution command id now db = elim (find_case command.case_id db) [
  | none ↦ err (plain_error "Case not found")
  | some existing ↦ prepare_intervention_from existing command id now db
]

abbrev pub is_handed_over : RevenueCaseState → Bool
is_handed_over s = same_state s escalated || same_state s stopped

-- The body of both `markCase…AfterWorkflowFailure`.
unfoldable pub mark_case_from : RevenueCaseState → String → CaseRow → ℕ → Database → Database
mark_case_from target action existing now db =
    if is_handed_over existing.state
    then db
    else if case_updated existing.id existing.version db
    then write_audit (system_audit action existing target now)
        (update_case existing.id existing.version (moved_to target (existing.version + 1) now) db)
    else db

unfoldable pub mark_case_for_escalation_after_workflow_failure : String → ℕ → Database → Database
mark_case_for_escalation_after_workflow_failure case_id now db = elim (find_case case_id db) [
  | none ↦ db
  | some existing ↦ mark_case_from escalated "CASE_ESCALATED" existing now db
]

unfoldable pub mark_case_for_stop_after_workflow_failure : String → ℕ → Database → Database
mark_case_for_stop_after_workflow_failure case_id now db = elim (find_case case_id db) [
  | none ↦ db
  | some existing ↦ mark_case_from stopped "CASE_STOPPED" existing now db
]
