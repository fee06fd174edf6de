-- ===== src/Tests/Repositories.antt =====
-- Runs of the repositories.
use fin_tech_ai.Persistence.Evolution.{RowEvolves}
use fin_tech_ai.Base.{◌+◌, ◌≤◌, ◌≡◌, refl, none, some, [], ◌∷◌, arith, ok, ◌>>=◌, value_or}
use fin_tech_ai.Contracts.{
  stopped, queued, executing, recovered, escalated, policy_checked, payment_retry,
}
use fin_tech_ai.Tests.Samples.{
  sample_row, row_in, db_with, db_executing, sample_plan, sample_intervention, fifty_rupees,
}
use fin_tech_ai.Persistence.Steps.{Run, Step, Run-RowEvolves}
use fin_tech_ai.Persistence.Execution.Locks.{winners, winners-bounded}
use fin_tech_ai.Persistence.Execution.Versions.{stale_reads_write_nothing}
use fin_tech_ai.Persistence.Execution.Results.{persist_keeps_lock, escalate_one-escalates}
use fin_tech_ai.Persistence.Planning.Plans.{
  create_plan-any_state, create_plan-replay, enqueue_plan-moves,
}
use fin_tech_ai.Persistence.Rows.{
  OutboxStatus, moved_to, find_intervention, InterventionRow, InterventionStatus, OutboxRow,
  CaseRow, Database, find_case, ExecutionJob,
}
use fin_tech_ai.Persistence.Planning.{
  find_outbox_by_key, store_plan, create_plan_with_planning_outcome, create_plan_from,
  enqueue_plan_with_outbox, enqueue_plan_from, CreatePlanCommand,
}
use fin_tech_ai.Persistence.Locking.{escalate_one}
use fin_tech_ai.Persistence.Settlement.{
  persist_from, record_result, ExecutionResult, persist_execution_result, settle_read,
}
use fin_tech_ai.Persistence.Execution.{
  PrepareInterventionCommand, mark_case_from, prepare_intervention_from,
}

-- A queued case is stopped.
abbrev db_stopped : Database
db_stopped = mark_case_from stopped "CASE_STOPPED" (row_in queued) 2000 (db_with (row_in queued))

Run-RowEvolves_example :
    (c' : CaseRow) × (find_case "case-1" db_stopped ≡ some c') × RowEvolves (row_in queued) c'
Run-RowEvolves_example =
    Run-RowEvolves {db = db_with (row_in queued)} {db' = db_stopped}
      (Run.then_step Run.start (Step.mark_case stopped "CASE_STOPPED" (row_in queued) 2000))
      "case-1" (row_in queued) refl

winners-bounded_example :
    winners "int-1" (("worker-1", 1) ∷ ("worker-2", 2) ∷ []) (db_executing executing) ≤ 1
winners-bounded_example =
    winners-bounded "int-1" (("worker-1", 1) ∷ ("worker-2", 2) ∷ []) (db_executing executing)

abbrev newer_row : CaseRow
newer_row = record sample_row { version = 2 }

abbrev sample_prepare : PrepareInterventionCommand
sample_prepare = record {
  plan_id = "plan-1";
  case_id = "case-1";
  merchant_id = "merchant-1";
  intervention_type = payment_retry;
  idempotency_key = "plan-1-PAYMENT_RETRY-1";
  attempt_count = 1;
}

stale_reads_write_nothing_example :
    (queued ≡ queued
      → value_or (db_with newer_row) (
          prepare_intervention_from (row_in queued) sample_prepare "int-1" 5 (db_with newer_row)
          >>= λ p. ok p.1)
        ≡ db_with newer_row)
    × (mark_case_from stopped "CASE_STOPPED" (row_in queued) 5 (db_with newer_row)
        ≡ db_with newer_row)
stale_reads_write_nothing_example =
    stale_reads_write_nothing (row_in queued) newer_row sample_prepare stopped "CASE_STOPPED"
      "int-1" 5 (db_with newer_row) refl (λ e. omega (arith, e))

abbrev sample_result : ExecutionResult
sample_result = record {
  intervention_id = "int-1";
  status = InterventionStatus.succeeded;
  executed_at = 3000;
  recovered_amount = some fifty_rupees;
  external_reference = some "pay-2";
  failure_code = none;
  retry_after = none;
}

abbrev db_recovered : Database
db_recovered =
    settle_read (find_case "case-1" (db_executing executing)) recovered none 3000
      (record_result sample_result sample_intervention 3000 (db_executing executing))

result_stored :
    persist_execution_result sample_result recovered none 3000 (db_executing executing)
    ≡ ok db_recovered
unfolding persist_execution_result persist_from
result_stored = refl

persist_keeps_lock_example :
    (r' : InterventionRow) × (find_intervention "int-1" db_recovered ≡ some r')
    × (r'.status ≡ InterventionStatus.succeeded)
    × (r'.locked_by ≡ some "worker-1")
    × (r'.locked_at ≡ some 1000)
persist_keeps_lock_example =
    persist_keeps_lock sample_result recovered none 3000 (db_executing executing) db_recovered
      result_stored sample_intervention refl

-- The case has been recovered when the scan comes.
escalate_one-escalates_example :
    let after = (escalate_one sample_intervention 400000 (0, db_executing recovered)).1 in
    (find_intervention "int-1" after
      ≡ some (record sample_intervention {
        locked_at = none;
        locked_by = none;
        status = InterventionStatus.failed;
        failure_code = some "SYSTEM_CRASH";
      }))
    × (find_case "case-1" after
        ≡ some (record (row_in recovered) { state = escalated; version = 2; updated_at = 400000 }))
escalate_one-escalates_example =
    escalate_one-escalates sample_intervention (row_in recovered) 400000 0 (db_executing recovered)
      refl refl refl

abbrev sample_command : CreatePlanCommand
sample_command = record { plan = sample_plan; resulting_case_state = policy_checked }

abbrev db_planned : Database
db_planned = store_plan sample_command sample_row 1000 (db_with sample_row)

plan_created :
    create_plan_with_planning_outcome sample_command 1000 (db_with sample_row)
    ≡ ok (sample_plan, db_planned)
unfolding create_plan_with_planning_outcome create_plan_from
plan_created = refl

abbrev other_command : CreatePlanCommand
other_command = record {
  plan = record sample_plan { plan_id = "plan-2" };
  resulting_case_state = escalated;
}

create_plan-replay_example :
    create_plan_with_planning_outcome other_command 2000 db_planned ≡ ok (sample_plan, db_planned)
create_plan-replay_example =
    create_plan-replay sample_command other_command 1000 2000 (db_with sample_row) db_planned
      sample_plan plan_created refl refl

abbrev sample_job : ExecutionJob
sample_job = record {
  job_id = "plan-1-enqueue";
  plan_id = "plan-1";
  case_id = "case-1";
  merchant_id = "merchant-1";
  correlation_id = "corr-1";
  plan_idempotency_key = sample_plan.idempotency_key;
  requested_at = 1500;
  attempt = 1;
}

abbrev db_queued : Database
db_queued = value_or db_planned (
    enqueue_plan_with_outbox "case-1" "plan-1" "plan-1-enqueue" sample_job "corr-1" "outbox-1" 1500
      db_planned)

plan_enqueued :
    enqueue_plan_with_outbox "case-1" "plan-1" "plan-1-enqueue" sample_job "corr-1" "outbox-1" 1500
      db_planned
    ≡ ok db_queued
unfolding enqueue_plan_with_outbox enqueue_plan_from
plan_enqueued = refl

enqueue_plan-moves_example :
    (c : CaseRow) × (e : OutboxRow) × (find_case "case-1" db_planned ≡ some c)
    × (c.state ≡ policy_checked)
    × (find_case "case-1" db_queued ≡ some (moved_to queued (c.version + 1) 1500 c))
    × (find_outbox_by_key "plan-1-enqueue" db_queued ≡ some e)
    × (e.status ≡ OutboxStatus.pending)
    × (e.payload ≡ sample_job)
enqueue_plan-moves_example =
    enqueue_plan-moves "case-1" "plan-1" "plan-1-enqueue" sample_job "corr-1" "outbox-1" 1500
      db_planned db_queued refl plan_enqueued

-- The case has been recovered when the plan comes.
create_plan-any_state_example :
    (db' : Database) × (create_plan_with_planning_outcome sample_command 1000
        (db_with (row_in recovered))
      ≡ ok (sample_plan, db'))
    × (find_case "case-1" db' ≡ some (moved_to policy_checked 2 1000 (row_in recovered)))
create_plan-any_state_example =
    create_plan-any_state sample_command 1000 (db_with (row_in recovered)) (row_in recovered) refl
      refl refl
