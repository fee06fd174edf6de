-- ===== src/Persistence/Execution/Versions.antt =====
-- Every operation of the execution repository changes a case only with its version, and none with a stale
-- version.
use mathlib.Core.Option.{none}
use fin_tech_ai.Base.{
  arith, ◌≢◌, some, ◌≡◌, exists, ok, ◌>>=◌, is_some, Option, value_or, Option-cases, ◌+◌, refl, inl,
  inr, Bool-cases, String, ℕ,
}
use fin_tech_ai.Persistence.Rows.{update_intervention, CaseRow, Database, find_case, update_case}
use fin_tech_ai.Persistence.Evolution.{Evolves, Evolves-refl, Evolves-update_case}
use fin_tech_ai.Persistence.Execution.{
  queued, is_same_attempt, find_intervention_by_key, PrepareInterventionCommand,
  prepare_intervention_from, find_outcome, retryable, same_state, ℤ, executing, InterventionRow,
  case_updated, is_handed_over, is_queued, moved_to, RevenueCaseState, start_executing,
  mark_case_from,
}
use fin_tech_ai.Persistence.Settlement.{
  settle_read, persist_from, retry_from, put_off, record_result, ExecutionResult,
}
use fin_tech_ai.Persistence.Locking.{escalate_one}

-- The write that all operations share: a case moved to a state at the next version, and a log entry.
Evolves-move :
    (db : Database) (id : String) (s : RevenueCaseState) (v now : ℕ)
    → Evolves db (update_case id v (moved_to s (v + 1) now) db)
Evolves-move db id s v now =
    Evolves-update_case id v (moved_to s (v + 1) now) db (λ r. refl) (λ r. refl) (λ r. refl)
      (λ r. refl)

-- Marking a case, from whatever was read before, keeps the versions.
pub mark_case_from-Evolves :
    (target : RevenueCaseState) (action : String) (existing : CaseRow) (now : ℕ) (db : Database)
    → Evolves db (mark_case_from target action existing now db)
unfolding mark_case_from
mark_case_from-Evolves target action existing now db =
    elim (Bool-cases (is_handed_over existing.state)) [
      | inl done ↦ rw done (Evolves-refl db)
      | inr live ↦ elim (Bool-cases (case_updated existing.id existing.version db)) [
        | inl fits ↦ rw (live, fits) (Evolves-move db existing.id target existing.version now)
        | inr stale ↦ rw (live, stale) (Evolves-refl db)
      ]
    ]

settle_read-Evolves :
    (read : Option CaseRow) (target : RevenueCaseState) (remaining : Option ℤ) (now : ℕ)
    (db : Database)
    → Evolves db (settle_read read target remaining now db)
unfolding settle_read
settle_read-Evolves none target remaining now db = Evolves-refl db
settle_read-Evolves (some c) target remaining now db =
    elim (Bool-cases (same_state c.state target)) [
      | inl there ↦ rw there (Evolves-refl db)
      | inr other ↦
          rw other (
            Evolves-update_case c.id c.version _ db (λ r. refl) (λ r. refl) (λ r. refl) (λ r. refl))
    ]

-- Storing the result of an execution, from whatever was read before, keeps the versions.
pub persist_from-Evolves :
    (row : InterventionRow) (read : Option CaseRow) (result : ExecutionResult)
    (target : RevenueCaseState) (remaining : Option ℤ) (now : ℕ) (db : Database)
    → Evolves db (value_or db (persist_from row read result target remaining now db))
unfolding persist_from
persist_from-Evolves row read result target remaining now db =
    elim (Bool-cases (is_some (find_outcome result.intervention_id db))) [
      | inl there ↦ rw (persist_from, there) (Evolves-refl db)
      | inr first ↦
          rw (persist_from, first)
            (settle_read-Evolves read target remaining now (record_result result row now db))
    ]

-- So does the schedule of a retry.
pub retry_from-Evolves :
    (read : Option CaseRow) (intervention_id : String) (until now : ℕ) (db : Database)
    → Evolves db (retry_from read intervention_id until now db)
unfolding retry_from
retry_from-Evolves none intervention_id until now db = Evolves-refl db
retry_from-Evolves (some c) intervention_id until now db =
    elim (Bool-cases (same_state c.state retryable)) [
      | inl there ↦ rw there (Evolves-refl db)
      | inr other ↦ rw other (
          Evolves-move (update_intervention intervention_id (put_off until) db) c.id retryable
            c.version now)
    ]

-- So does one step of the scan for stale locks.
pub escalate_one-Evolves :
    (stale : InterventionRow) (now count : ℕ) (db : Database)
    → Evolves db (escalate_one stale now (count, db)).1
unfolding escalate_one
escalate_one-Evolves stale now count db = elim (Option-cases (find_case stale.case_id db)) [
  | inl missing ↦ rw (escalate_one, missing) (Evolves-refl db)
  | inr (c, found) ↦ elim (Bool-cases (is_handed_over c.state)) [
    | inl done ↦ rw (escalate_one, found, done) (Evolves-refl db)
    | inr live ↦
        rw (escalate_one, found, live)
          (Evolves-update_case c.id c.version _ db (λ r. refl) (λ r. refl) (λ r. refl) (λ r. refl))
  ]
]

-- A job that prepares its intervention, from whatever was read before.
pub prepare_intervention_from-Evolves :
    (existing : CaseRow) (command : PrepareInterventionCommand) (id : String) (now : ℕ)
    (db : Database)
    → Evolves db
        (value_or db (prepare_intervention_from existing command id now db >>= λ p. ok p.1))
unfolding prepare_intervention_from start_executing
prepare_intervention_from-Evolves existing command id now db =
    elim (Option-cases (find_intervention_by_key command.idempotency_key db)) [
      | inr (row, there) ↦ rw (prepare_intervention_from, there) (Evolves-refl db)
      | inl new ↦ elim (Bool-cases (exists (is_same_attempt command) db.interventions)) [
        | inl twice ↦ rw (prepare_intervention_from, new, twice) (Evolves-refl db)
        | inr first ↦ elim (Bool-cases (is_queued existing.state)) [
          | inr other ↦
              rw (prepare_intervention_from, new, first, start_executing, other) (Evolves-refl db)
          | inl waiting ↦ elim (Bool-cases (case_updated existing.id existing.version db)) [
            | inl fits ↦
                rw (prepare_intervention_from, new, first, start_executing, waiting, fits)
                  (Evolves-move db existing.id executing existing.version now)
            | inr stale ↦
                rw (prepare_intervention_from, new, first, start_executing, waiting, stale)
                  (Evolves-refl db)
          ]
        ]
      ]
    ]

-- What was read of a case at version `v` while another transaction has set another version writes nothing:
-- neither the preparation of an intervention of a queued case nor either mark.
pub stale_reads_write_nothing :
    (existing current : CaseRow) (command : PrepareInterventionCommand) (target : RevenueCaseState)
    (action id : String) (now : ℕ) (db : Database)
    → find_case existing.id db ≡ some current
    → current.version ≢ existing.version
    → (existing.state ≡ queued
        → value_or db (prepare_intervention_from existing command id now db >>= λ p. ok p.1) ≡ db)
      × (mark_case_from target action existing now db ≡ db)
unfolding prepare_intervention_from start_executing mark_case_from
stale_reads_write_nothing existing current command target action id now db found changed =
    (λ waiting. ground arith, ground arith)
