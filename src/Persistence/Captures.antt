-- ===== src/Persistence/Captures.antt =====
-- apps/api/src/modules/events/razorpay-events.processor.ts, its transaction: a captured payment recovers the
-- case. The case as it was read is an argument.
use fin_tech_ai.Base.{
  find_row-update_row, ℕ, ◌+◌, ◌≡◌, ◌≢◌, refl, inl, inr, Bool, true, false, ◌||◌, some, arith,
  eq_iff, String, ◌==◌, if◌then◌else◌, Bool-cases, Result, ok, err, value_or,
}
use fin_tech_ai.Contracts.{RevenueCaseState, same_state, recovered, failed, stopped}
use fin_tech_ai.Persistence.Rows.{
  CaseRow, AuditRow, Database, find_case, write_audit, update_case, case_updated, moved_to,
}
use fin_tech_ai.Persistence.Evolution.{Evolves, Evolves-refl, Evolves-update_case}
use fin_tech_ai.Persistence.Rows.{has_version}
use fin_tech_ai.Base.{◌⊎◌}

pub data CaptureError : Type 0 where
  version_mismatch : String → CaptureError

-- The states that a capture leaves alone.
abbrev pub is_finished : RevenueCaseState → Bool
is_finished s = same_state s recovered || (same_state s failed || same_state s stopped)

abbrev pub webhook_audit : String → CaseRow → RevenueCaseState → ℕ → AuditRow
webhook_audit action existing next now = record {
  timestamp = now;
  actor_type = "SYSTEM";
  action = action;
  entity_type = "REVENUE_CASE";
  entity_id = existing.id;
  correlation_id = existing.correlation_id;
  previous_state = some existing.state;
  next_state = some next;
}

unfoldable pub capture_payment : CaseRow → ℕ → Database → Result CaptureError Database
capture_payment existing now db =
    if is_finished existing.state
    then ok db
    else if case_updated existing.id existing.version db
    then ok (
        write_audit (webhook_audit "PAYMENT_CAPTURED_WEBHOOK" existing recovered now) (
          update_case existing.id existing.version (moved_to recovered (existing.version + 1) now)
            db))
    else err (version_mismatch existing.id)

pub capture_payment-Evolves :
    (existing : CaseRow) (now : ℕ) (db : Database)
    → Evolves db (value_or db (capture_payment existing now db))
unfolding capture_payment
capture_payment-Evolves existing now db = elim (Bool-cases (is_finished existing.state)) [
  | inl done ↦ rw done (Evolves-refl db)
  | inr live ↦ elim (Bool-cases (case_updated existing.id existing.version db)) [
    | inl fits ↦
        rw (live, fits)
          (Evolves-update_case existing.id existing.version _ db (λ r. refl) (λ r. refl) (λ r. refl)
            (λ r. refl))
    | inr stale ↦ rw (live, stale) (Evolves-refl db)
  ]
]

-- A capture that succeeds without a change found the case recovered, failed or stopped; any other that
-- succeeds moves the case, at the version that was read, to `RECOVERED`, and one whose version has been
-- overtaken fails.
pub capture_payment-moves :
    (existing current : CaseRow) (now : ℕ) (db : Database)
    → find_case existing.id db ≡ some current
    → ((is_finished existing.state ≡ true) × (capture_payment existing now db ≡ ok db))
      ⊎ ((is_finished existing.state ≡ false)
          × (current.version ≢ existing.version)
          × (capture_payment existing now db ≡ err (version_mismatch existing.id)))
      ⊎ ((is_finished existing.state ≡ false)
          × (db' : Database) × (capture_payment existing now db ≡ ok db')
          × (find_case existing.id db'
              ≡ some (moved_to recovered (existing.version + 1) now current)))
unfolding capture_payment
capture_payment-moves existing current now db found =
    let moved =
      find_row-update_row (λ (r : CaseRow). r.id) existing.id existing.id
        (has_version existing.version) (moved_to recovered (existing.version + 1) now) db.cases
        (λ r. refl) in
    elim (Bool-cases (is_finished existing.state)) [
      | inl done ↦ inl (done, rw done refl)
      | inr live ↦ elim (Bool-cases (current.version == existing.version)) [
        | inr stale ↦ inr (inl (live, ground (arith, stale), ground (arith, live, stale, found)))
        | inl fits ↦ inr (
            inr (
              live,
              write_audit (webhook_audit "PAYMENT_CAPTURED_WEBHOOK" existing recovered now) (
                  update_case existing.id existing.version
                    (moved_to recovered (existing.version + 1) now) db),
              ground (arith, live, fits, found),
              ground (arith, moved, found, fits, eq_iff existing.id existing.id),
            ))
      ]
    ]
