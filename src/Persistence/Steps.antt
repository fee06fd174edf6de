-- ===== src/Persistence/Steps.antt =====
-- The repositories as a system of steps: any number of processes call them, in any order and at any time.
use mathlib.Core.Path.{subst}
use fin_tech_ai.Base.Int.{ℤ}
use fin_tech_ai.Contracts.{escalated, stopped, RevenueCaseState}
use fin_tech_ai.Base.{
  ◌+◌, List, [], ◌∷◌, length, ◌==◌, Bool-cases, inl, inr, some, arith, ◌≡◌, Option-cases, ℕ, inl,
  inr, Option, String, Bool-cases, is_some, ok, ◌>>=◌, value_or,
}
use fin_tech_ai.Persistence.Rows.{
  find_case, InterventionRow, find_intervention, ExecutionJob, CaseRow, Database,
}
use fin_tech_ai.Persistence.Evolution.{RowEvolves, Evolves, Evolves-refl, Evolves-trans}
use fin_tech_ai.Persistence.Locking.{
  clear_outbox, escalate_each, stale_interventions, escalate_one, escalate_stale_locks,
  claim_execution_lock, release_stale_locks,
}
use fin_tech_ai.Persistence.Execution.{
  mark_case_for_escalation_after_workflow_failure, prepare_intervention_for_execution,
  mark_case_for_stop_after_workflow_failure, PrepareInterventionCommand, prepare_intervention_from,
  mark_case_from,
}
use fin_tech_ai.Persistence.Settlement.{
  persist_from, retry_from, ExecutionResult, persist_execution_result, schedule_retry,
  block_execution,
}
use fin_tech_ai.Persistence.Execution.Versions.{
  escalate_one-Evolves, retry_from-Evolves, persist_from-Evolves, prepare_intervention_from-Evolves,
  mark_case_from-Evolves,
}
use fin_tech_ai.Persistence.Rows.{EventRow, OutboxRow}
use fin_tech_ai.Persistence.Intake.{IngestionSurroundings, IngestionCommand}
use fin_tech_ai.Persistence.Ingestion.{ingest_from}
use fin_tech_ai.Persistence.Ingestion.Cases.{ingest_from-Evolves}
use fin_tech_ai.Persistence.Captures.{capture_payment, capture_payment-Evolves}
use fin_tech_ai.Persistence.Outbox.{claim_pending_outbox_events, find_outbox, update_outbox}
use fin_tech_ai.Persistence.Planning.{CreatePlanCommand, create_plan_from, enqueue_plan_from}
use fin_tech_ai.Persistence.Planning.Plans.{create_plan_from-Evolves, enqueue_plan_from-Evolves}

-- One transaction. What it read of a case before, `existing`, may be of any age.
pub data Step (db : Database) : Database → Type 0 where
  create_plan :
      (existing : CaseRow) (command : CreatePlanCommand) (now : ℕ)
      → Step db (value_or db (create_plan_from existing command now db >>= λ p. ok p.1))
  enqueue_plan :
      (existing : CaseRow) (plan_id key : String) (payload : ExecutionJob)
      (correlation_id id : String) (now : ℕ)
      → Step db
          (value_or db (enqueue_plan_from existing plan_id key payload correlation_id id now db))
  prepare :
      (existing : CaseRow) (command : PrepareInterventionCommand) (id : String) (now : ℕ)
      → Step db (value_or db (prepare_intervention_from existing command id now db >>= λ p. ok p.1))
  mark_case :
      (target : RevenueCaseState) (action : String) (existing : CaseRow) (now : ℕ)
      → Step db (mark_case_from target action existing now db)
  claim_lock :
      (intervention_id worker_id : String) (now : ℕ)
      → Step db (claim_execution_lock intervention_id worker_id now db).1
  release_locks : (minutes now : ℕ) → Step db (release_stale_locks minutes now db).1
  escalate_lock :
      (stale : InterventionRow) (now count : ℕ) → Step db (escalate_one stale now (count, db)).1
  clear_locks : (minutes now : ℕ) → Step db (clear_outbox minutes now db)
  persist_result :
      (row : InterventionRow) (read : Option CaseRow) (result : ExecutionResult)
      (target : RevenueCaseState) (remaining : Option ℤ) (now : ℕ)
      → Step db (value_or db (persist_from row read result target remaining now db))
  retry_later :
      (read : Option CaseRow) (intervention_id : String) (until now : ℕ)
      → Step db (retry_from read intervention_id until now db)
  ingest :
      (read : Option EventRow) (env : IngestionSurroundings) (command : IngestionCommand)
      → Step db (value_or db (ingest_from read env command db >>= λ p. ok p.1))
  capture : (existing : CaseRow) (now : ℕ) → Step db (value_or db (capture_payment existing now db))
  claim_outbox :
      (batch_size lock_duration_ms : ℕ) (worker_id : String) (now : ℕ)
      → Step db (claim_pending_outbox_events batch_size lock_duration_ms worker_id now db).1
  write_outbox :
      (id : String) (f : OutboxRow → OutboxRow) → Step db (value_or db (update_outbox id f db))
  block : (intervention_id : String) → Step db (value_or db (block_execution intervention_id db))

pub data Run (db : Database) : Database → Type 0 where
  start : Run db db
  then_step : {mid db' : Database} → Run db mid → Step mid db' → Run db db'

step-Evolves : {db db' : Database} → Step db db' → Evolves db db'
unfolding claim_execution_lock release_stale_locks block_execution claim_pending_outbox_events
    update_outbox
step-Evolves {db = db} (create_plan existing command now) =
    create_plan_from-Evolves existing command now db
step-Evolves {db = db} (enqueue_plan existing plan_id key payload c id now) =
    enqueue_plan_from-Evolves existing plan_id key payload c id now db
step-Evolves {db = db} (prepare existing command id now) =
    prepare_intervention_from-Evolves existing command id now db
step-Evolves {db = db} (mark_case target action existing now) =
    mark_case_from-Evolves target action existing now db
step-Evolves {db = db} (claim_lock intervention_id worker_id now) = Evolves-refl db
step-Evolves {db = db} (release_locks minutes now) = Evolves-refl db
step-Evolves {db = db} (escalate_lock stale now count) = escalate_one-Evolves stale now count db
step-Evolves {db = db} (clear_locks minutes now) = Evolves-refl db
step-Evolves {db = db} (persist_result row read result target remaining now) =
    persist_from-Evolves row read result target remaining now db
step-Evolves {db = db} (retry_later read intervention_id until now) =
    retry_from-Evolves read intervention_id until now db
step-Evolves {db = db} (ingest read env command) = ingest_from-Evolves read env command db
step-Evolves {db = db} (capture existing now) = capture_payment-Evolves existing now db
step-Evolves {db = db} (claim_outbox batch_size lock_duration_ms worker_id now) = Evolves-refl db
step-Evolves {db = db} (write_outbox id f) = elim (Bool-cases (is_some (find_outbox id db))) [
  | inl there ↦ rw (update_outbox, there) (Evolves-refl db)
  | inr missing ↦ rw (update_outbox, missing) (Evolves-refl db)
]
step-Evolves {db = db} (block intervention_id) =
    elim (Bool-cases (is_some (find_intervention intervention_id db))) [
      | inl there ↦ rw (block_execution, there) (Evolves-refl db)
      | inr missing ↦ rw (block_execution, missing) (Evolves-refl db)
    ]

Run-Evolves : {db db' : Database} → Run db db' → Evolves db db'
Run-Evolves {db = db} start = Evolves-refl db
Run-Evolves {db = db} (then_step {mid = mid} {db' = db'} run step) =
    Evolves-trans db mid db' (Run-Evolves run) (step-Evolves step)

-- Along every run of the repositories, in any order and with what the `_from` parts have read of any age,
-- no case is lost, its attempt count and its source event stay as they are, its version never falls, and at
-- an equal version the whole row is as it was.
pub Run-RowEvolves :
    {db db' : Database}
    → Run db db'
    → (id : String) (c : CaseRow) → find_case id db ≡ some c
    → (c' : CaseRow) × (find_case id db' ≡ some c') × RowEvolves c c'
Run-RowEvolves run id c found = Run-Evolves run id c found

-- A run that does one thing, and one run after another.
pub once : {db db' : Database} → Step db db' → Run db db'
once step = then_step start step

pub Run-append : {a b c : Database} → Run a b → Run b c → Run a c
Run-append run start = run
Run-append run (then_step more step) = then_step (Run-append run more) step

-- The operations that read a case themselves.
pub stop-Run :
    (case_id : String) (now : ℕ) (db : Database)
    → Run db (mark_case_for_stop_after_workflow_failure case_id now db)
unfolding mark_case_for_stop_after_workflow_failure
stop-Run case_id now db = elim (Option-cases (find_case case_id db)) [
  | inl missing ↦ rw (mark_case_for_stop_after_workflow_failure, missing) start
  | inr (c, found) ↦
      rw (mark_case_for_stop_after_workflow_failure, found)
        (once (mark_case stopped "CASE_STOPPED" c now))
]

pub escalate-Run :
    (case_id : String) (now : ℕ) (db : Database)
    → Run db (mark_case_for_escalation_after_workflow_failure case_id now db)
unfolding mark_case_for_escalation_after_workflow_failure
escalate-Run case_id now db = elim (Option-cases (find_case case_id db)) [
  | inl missing ↦ rw (mark_case_for_escalation_after_workflow_failure, missing) start
  | inr (c, found) ↦
      rw (mark_case_for_escalation_after_workflow_failure, found)
        (once (mark_case escalated "CASE_ESCALATED" c now))
]

pub persist-Run :
    (result : ExecutionResult) (target : RevenueCaseState) (remaining : Option ℤ) (now : ℕ)
    (db : Database)
    → Run db (value_or db (persist_execution_result result target remaining now db))
unfolding persist_execution_result
persist-Run result target remaining now db =
    elim (Option-cases (find_intervention result.intervention_id db)) [
      | inl missing ↦ rw (persist_execution_result, missing) start
      | inr (row, found) ↦
          rw (persist_execution_result, found)
            (once (persist_result row (find_case row.case_id db) result target remaining now))
    ]

schedule_retry-Run :
    (intervention_id : String) (delay_ms now : ℕ) (db : Database)
    → Run db (schedule_retry intervention_id delay_ms now db)
unfolding schedule_retry
schedule_retry-Run intervention_id delay_ms now db =
    elim (Option-cases (find_intervention intervention_id db)) [
      | inl missing ↦ rw (schedule_retry, missing) start
      | inr (row, found) ↦
          rw (schedule_retry, found)
            (once (retry_later (find_case row.case_id db) intervention_id (now + delay_ms) now))
    ]

pub prepare_for-Run :
    (command : PrepareInterventionCommand) (id : String) (now : ℕ) (db : Database)
    (row : InterventionRow) (db' : Database)
    → prepare_intervention_for_execution command id now db ≡ ok (row, db')
    → Run db db'
unfolding prepare_intervention_for_execution
prepare_for-Run command id now db row db' h = elim (Option-cases (find_case command.case_id db)) [
  | inl missing ↦ absurd (ground (arith, missing, h))
  | inr (c, found) ↦
      let prepared : prepare_intervention_from c command id now db ≡ ok (row, db') =
        ground (arith, found, h) in
      subst (λ r. Run db (value_or db (r >>= λ p. ok p.1))) prepared
        (once (prepare c command id now))
]

-- The scan for stale locks takes a transaction for each of them, and one for the outbox.
escalate_each-Run :
    (stale : List InterventionRow) (now count : ℕ) (db : Database)
    → Run db (escalate_each stale now (count, db)).1
unfolding escalate_each
escalate_each-Run [] now count db = start
escalate_each-Run (r ∷ rs) now count db =
    let one = escalate_one r now (count, db) in
    Run-append (once (escalate_lock r now count)) (escalate_each-Run rs now one.0 one.1)

escalate_stale_locks-Run :
    (minutes now : ℕ) (db : Database) → Run db (escalate_stale_locks minutes now db).1
unfolding escalate_stale_locks
escalate_stale_locks-Run minutes now db =
    let found = stale_interventions minutes now db in
    elim (Bool-cases (length found == 0)) [
      | inl quiet ↦ rw quiet start
      | inr some_found ↦
          rw some_found (then_step (escalate_each-Run found now 0 db) (clear_locks minutes now))
    ]
