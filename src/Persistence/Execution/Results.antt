-- ===== src/Persistence/Execution/Results.antt =====
-- The result of an execution, and the scan for stale locks after it.
use mathlib.Core.Option.{none}
use fin_tech_ai.Base.{
  find_row-append_new, find_row-key, find_row-update_row, ℕ, ◌+◌, ◌≡◌, refl, inl, inr, true, false,
  Option, some, arith, eq_iff, Option-cases, ok, err,
}
use fin_tech_ai.Persistence.Rows.{
  InterventionStatus, has_version, InterventionRow, CaseRow, Database, find_intervention, find_case,
}
use fin_tech_ai.Persistence.Execution.{
  DomainError, find_outcome, OutcomeRow, escalated, plain_error, ℤ, moved_to, RevenueCaseState,
  is_handed_over,
}
use fin_tech_ai.Persistence.Settlement.{
  new_outcome, completed, record_result, persist_execution_result, ExecutionResult, settle_read,
  persist_from,
}
use fin_tech_ai.Persistence.Locking.{crashed, escalate_one}

settle_read-interventions :
    (read : Option CaseRow) (target : RevenueCaseState) (remaining : Option ℤ) (now : ℕ)
    (db : Database)
    → ((settle_read read target remaining now db).interventions ≡ db.interventions)
      × ((settle_read read target remaining now db).outcomes ≡ db.outcomes)
unfolding settle_read
settle_read-interventions none target remaining now db = (refl, refl)
settle_read-interventions (some c) target remaining now db = ground arith

module _ (result : ExecutionResult) (target : RevenueCaseState) (remaining : Option ℤ) (now : ℕ)
    (db db' : Database)
    (stored : persist_execution_result result target remaining now db ≡ ok db') where
  persist-tables :
      (r : InterventionRow)
      → find_intervention result.intervention_id db ≡ some r
      → (db'.interventions ≡ (record_result result r now db).interventions)
        × (db'.outcomes ≡ (record_result result r now db).outcomes)
  unfolding persist_execution_result persist_from
  persist-tables r found = ground (
    arith,
    settle_read-interventions (find_case r.case_id db) target remaining now
        (record_result result r now db),
  )

  -- Storing the result of an execution sets the status of the intervention, and leaves its lock held.
  pub persist_keeps_lock :
      (r : InterventionRow)
      → find_intervention result.intervention_id db ≡ some r
      → (r' : InterventionRow) × (find_intervention result.intervention_id db' ≡ some r')
        × (r'.status ≡ result.status)
        × (r'.locked_by ≡ r.locked_by)
        × (r'.locked_at ≡ r.locked_at)
  unfolding persist_execution_result persist_from
  persist_keeps_lock r found =
      let written =
        find_row-update_row (λ (r : InterventionRow). r.id) result.intervention_id
          result.intervention_id (λ _. true) (completed result) db.interventions (λ r. refl) in
      let (same, _) = persist-tables r found in
      (
        completed result r,
        ground (arith, written, same, eq_iff result.intervention_id result.intervention_id),
        refl,
        refl,
        refl,
      )

  -- An execution has one outcome: a second result for the same intervention is refused, whatever it says.
  persist_again_fails :
      (result' : ExecutionResult) (target' : RevenueCaseState) (remaining' : Option ℤ) (later : ℕ)
      → result'.intervention_id ≡ result.intervention_id
      → persist_execution_result result' target' remaining' later db'
        ≡ err (plain_error "Unique constraint failed")
  unfolding persist_execution_result persist_from
  persist_again_fails result' target' remaining' later same =
      elim (Option-cases (find_intervention result.intervention_id db)) [
        | inl missing ↦ ground arith
        | inr (r, found) ↦
            let (r', there, _, _, _) = persist_keeps_lock r found in
            let kept =
              find_row-append_new (λ (o : OutcomeRow). o.intervention_id) result.intervention_id
                db.outcomes (new_outcome result) in
            let (_, outcomes) = persist-tables r found in
            ground
              (arith, there, kept, outcomes, eq_iff result.intervention_id result.intervention_id)
      ]

-- One step of the scan for stale locks gives the intervention the status FAILED with the code SYSTEM_CRASH and
-- frees its lock, and moves its case to `ESCALATED` at the next version, in whatever state the case is but
-- `ESCALATED` and `STOPPED`: also a case that has been recovered. All other columns of the two rows stay.
pub escalate_one-escalates :
    (r : InterventionRow) (c : CaseRow) (now count : ℕ) (db : Database)
    → find_intervention r.id db ≡ some r
    → find_case r.case_id db ≡ some c
    → is_handed_over c.state ≡ false
    → let after = (escalate_one r now (count, db)).1 in
      (find_intervention r.id after
        ≡ some (record r {
          locked_at = none;
          locked_by = none;
          status = InterventionStatus.failed;
          failure_code = some "SYSTEM_CRASH";
        }))
      × (find_case r.case_id after
          ≡ some (record c { state = escalated; version = c.version + 1; updated_at = now }))
unfolding escalate_one
escalate_one-escalates r c now count db found case_found live =
    let freed =
      find_row-update_row (λ (r : InterventionRow). r.id) r.id r.id (λ _. true) crashed
        db.interventions (λ r. refl) in
    let key_c = find_row-key (λ (r : CaseRow). r.id) r.case_id db.cases c case_found in
    let moved =
      find_row-update_row (λ (r : CaseRow). r.id) r.case_id r.case_id (has_version c.version)
        (moved_to escalated (c.version + 1) now) db.cases (λ r. refl) in
    (
      ground (arith, freed, eq_iff r.id r.id),
      ground (arith, key_c, moved, eq_iff r.case_id r.case_id),
    )

-- Where there is an outcome, no result is stored.
pub persist_refused :
    (result : ExecutionResult) (target : RevenueCaseState) (remaining : Option ℤ) (now : ℕ)
    (db : Database) (o : OutcomeRow)
    → find_outcome result.intervention_id db ≡ some o
    → (e : DomainError) × (persist_execution_result result target remaining now db ≡ err e)
unfolding persist_execution_result persist_from
persist_refused result target remaining now db o there =
    elim (Option-cases (find_intervention result.intervention_id db)) [
      | inl missing ↦ (plain_error "Intervention not found", ground arith)
      | inr (r, found) ↦ (plain_error "Unique constraint failed", ground arith)
    ]
