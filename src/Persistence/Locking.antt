-- ===== src/Persistence/Locking.antt =====
-- libs/persistence/src/repositories/prisma/execution.ts: claiming, releasing and escalating the locks
-- of interventions.
use fin_tech_ai.Persistence.Execution.{is_handed_over, system_audit}
use fin_tech_ai.Base.{
  ℕ, ◌+◌, ◌*◌, Bool, false, not, Option, none, some, List, [], ◌∷◌, leb, ◌==◌, keep, is_some,
  matches, update_row, update_all, if◌then◌else◌, String, length,
}
use fin_tech_ai.Contracts.{escalated}
use fin_tech_ai.Persistence.Rows.{
  InterventionStatus, InterventionRow, OutboxRow, Database, find_case, find_intervention,
  write_audit, update_case, moved_to, update_intervention,
}

abbrev pub is_unlocked : InterventionRow → Bool
is_unlocked r = not (is_some r.locked_by)

abbrev pub locked_for : String → ℕ → InterventionRow → InterventionRow
locked_for worker_id now r = record r { locked_at = some now; locked_by = some worker_id }

unfoldable pub claim_execution_lock : String → String → ℕ → Database → Bool × Database
claim_execution_lock intervention_id worker_id now db = (
  matches is_unlocked (find_intervention intervention_id db),
  record db {
    interventions =
        update_row (λ (r : InterventionRow). r.id) intervention_id is_unlocked
          (locked_for worker_id now) db.interventions;
  },
)

-- `lockedAt <= now - minutes`
abbrev pub is_stale : ℕ → ℕ → Option ℕ → Bool
is_stale minutes now none = false
is_stale minutes now (some t) = leb (t + minutes * 60000) now

abbrev release_intervention : InterventionRow → InterventionRow
release_intervention r = record r { locked_at = none; locked_by = none }

abbrev pub release_outbox : OutboxRow → OutboxRow
release_outbox r = record r { locked_at = none; locked_by = none }

abbrev pub clear_outbox : ℕ → ℕ → Database → Database
clear_outbox minutes now db = record db {
  outbox =
      update_all (λ (r : OutboxRow). is_stale minutes now r.locked_at) release_outbox db.outbox;
}

unfoldable pub release_stale_locks : ℕ → ℕ → Database → ℕ × Database
release_stale_locks minutes now db = (
  length (keep (λ (r : InterventionRow). is_stale minutes now r.locked_at) db.interventions)
      + length (keep (λ (r : OutboxRow). is_stale minutes now r.locked_at) db.outbox),
  clear_outbox minutes now (record db {
    interventions =
        update_all (λ (r : InterventionRow). is_stale minutes now r.locked_at) release_intervention
          db.interventions;
  }),
)

abbrev pub crashed : InterventionRow → InterventionRow
crashed r = record r {
  locked_at = none;
  locked_by = none;
  status = InterventionStatus.failed;
  failure_code = some "SYSTEM_CRASH";
}

-- One round of the loop of `escalateStaleLocks`, and the count. The audit row is written whether or not
-- the version still fits; within the transaction it does.
unfoldable pub escalate_one : InterventionRow → ℕ → ℕ × Database → ℕ × Database
escalate_one stale now (count, db) =
    let db' = update_intervention stale.id crashed db in
    elim (find_case stale.case_id db') [
      | none ↦ (count, db')
      | some existing ↦ if is_handed_over existing.state then (count, db') else (
        count + 1,
        write_audit (system_audit "CASE_ESCALATED" existing escalated now) (
            update_case existing.id existing.version (moved_to escalated (existing.version + 1) now)
              db'),
      )
    ]

unfoldable pub escalate_each : List InterventionRow → ℕ → ℕ × Database → ℕ × Database
escalate_each [] now acc = acc
escalate_each (r ∷ rs) now acc = escalate_each rs now (escalate_one r now acc)

unfoldable pub stale_interventions : ℕ → ℕ → Database → List InterventionRow
stale_interventions minutes now db =
    keep (λ (r : InterventionRow). is_stale minutes now r.locked_at) db.interventions

unfoldable pub escalate_stale_locks : ℕ → ℕ → Database → ℕ × Database
unfolding stale_interventions
escalate_stale_locks minutes now db =
    let stale = stale_interventions minutes now db in
    let (count, db') = escalate_each stale now (0, db) in
    if length stale == 0 then (0, db) else (count, clear_outbox minutes now db')
