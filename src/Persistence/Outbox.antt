-- ===== src/Persistence/Outbox.antt =====
-- libs/persistence/src/repositories/prisma/outbox.ts: the events that wait for the queue. Rows are in the
-- order of creation. An `update` throws where no row has the id. The clock and the worker's random id are
-- arguments.
pub mod Claims
use fin_tech_ai.Base.{
  ℕ, zero, suc, ◌+◌, ◌*◌, ◌≤◌, ◌<◌, ◌≡◌, ◌≢◌, refl, sym, ◌∙◌, inl, inr, Bool, true, false, not,
  ◌&&◌, ◌||◌, Option, none, some, List, [], ◌∷◌, ◌++◌, map, arith, str_eq, eq_iff, String, leb, ltb,
  ◌==◌, join_text, show_number, if◌then◌else◌, Bool-cases, Option-cases, is_some, length, keep,
  exists, find, Result, ok, err, ◌>>=◌, value_or, find_row, update_row, matches, update_all,
}
use fin_tech_ai.Base.{take}
use fin_tech_ai.Domain.Errors.{DomainError, plain_error}
use fin_tech_ai.Persistence.Rows.{OutboxRow, OutboxStatus, Database}

abbrev is_pending : OutboxStatus → Bool
is_pending OutboxStatus.pending = true
is_pending OutboxStatus.published = false
is_pending OutboxStatus.failed = false

-- `"lockedAt" IS NULL OR "lockedAt" < now`
abbrev is_free : ℕ → Option ℕ → Bool
is_free now none = true
is_free now (some until) = ltb until now

abbrev pub is_claimable : ℕ → OutboxRow → Bool
is_claimable now r = is_pending r.status && (leb r.available_at now && is_free now r.locked_at)

abbrev pub claimed_until : ℕ → String → OutboxRow → OutboxRow
claimed_until until worker_id r = record r { locked_at = some until; locked_by = some worker_id }

abbrev pub is_among : List OutboxRow → OutboxRow → Bool
is_among rows r = exists (λ (s : OutboxRow). str_eq s.id r.id) rows

-- The rows of the inner `SELECT`.
unfoldable pub claimable_rows : ℕ → ℕ → Database → List OutboxRow
claimable_rows batch_size now db = take batch_size (keep (is_claimable now) db.outbox)

unfoldable pub claim_pending_outbox_events :
    ℕ → ℕ → String → ℕ → Database → List OutboxRow × Database
unfolding claimable_rows
claim_pending_outbox_events batch_size lock_duration_ms worker_id now db =
    let rows = claimable_rows batch_size now db in
    let claim = claimed_until (now + lock_duration_ms) worker_id in
    (map claim rows, record db { outbox = update_all (is_among rows) claim db.outbox })

abbrev pub find_outbox : String → Database → Option OutboxRow
find_outbox id db = find_row (λ (r : OutboxRow). r.id) id db.outbox

-- `outboxEvent.update({ where: { id }, data })`
unfoldable pub update_outbox :
    String → (OutboxRow → OutboxRow) → Database → Result DomainError Database
update_outbox id f db =
    if is_some (find_outbox id db)
    then ok (record db { outbox = update_row (λ (r : OutboxRow). r.id) id (λ _. true) f db.outbox })
    else err (plain_error "Record to update not found")

abbrev pub published_at : ℕ → OutboxRow → OutboxRow
published_at now r = record r {
  status = OutboxStatus.published;
  published_at = some now;
  locked_at = none;
  locked_by = none;
}

abbrev pub rescheduled_to : ℕ → String → OutboxRow → OutboxRow
rescheduled_to next_available_at error_msg r = record r {
  attempts = r.attempts + 1;
  available_at = next_available_at;
  last_error = some error_msg;
  locked_at = none;
  locked_by = none;
}

abbrev pub failed_with : String → OutboxRow → OutboxRow
failed_with error_msg r = record r {
  status = OutboxStatus.failed;
  last_error = some error_msg;
  attempts = r.attempts + 1;
  locked_at = none;
  locked_by = none;
}

unfoldable pub mark_outbox_published : String → ℕ → Database → Result DomainError Database
unfolding update_outbox
mark_outbox_published event_id now db = update_outbox event_id (published_at now) db

unfoldable pub reschedule_outbox_event :
    String → ℕ → String → Database → Result DomainError Database
unfolding update_outbox
reschedule_outbox_event event_id next_available_at error_msg db =
    update_outbox event_id (rescheduled_to next_available_at error_msg) db

unfoldable pub mark_outbox_failed : String → String → Database → Result DomainError Database
unfolding update_outbox
mark_outbox_failed event_id error_msg db = update_outbox event_id (failed_with error_msg) db
