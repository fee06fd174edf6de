-- ===== src/Api/Publisher.antt =====
-- apps/api/src/modules/outbox-publisher/outbox-publisher.service.ts: the events of the outbox go to the queue.
-- The queue is outside the program: what it does with a call is a parameter, an error message or nothing, and
-- `sent` lists the jobs that it took. Connecting to it is left out.
pub mod Publishing
use fin_tech_ai.Base.{
  ℕ, zero, suc, ◌+◌, ◌*◌, ◌≤◌, ◌<◌, ◌≡◌, ◌≢◌, refl, sym, ◌∙◌, inl, inr, Bool, true, false, not,
  ◌&&◌, ◌||◌, Option, none, some, List, [], ◌∷◌, ◌++◌, map, arith, str_eq, eq_iff, String, leb, ltb,
  ◌==◌, join_text, show_number, if◌then◌else◌, Bool-cases, Option-cases, is_some, length, keep,
  exists, find, Result, ok, err, ◌>>=◌, value_or, find_row, update_row, matches, update_all,
}
use Prim.Native.Nat.{◌^◌}
use fin_tech_ai.Base.{join_text}
use fin_tech_ai.Domain.Errors.{DomainError, plain_error}
use fin_tech_ai.Persistence.Rows.{ExecutionJob, OutboxRow, OutboxStatus, Database}
use fin_tech_ai.Persistence.Outbox.{
  claim_pending_outbox_events, mark_outbox_published, reschedule_outbox_event, mark_outbox_failed,
}

pub record Publisher : Type 0 where
  pub db : Database
  pub sent : List ExecutionJob

-- `error.message`
abbrev message_of : DomainError → String
message_of (plain_error s) = s
message_of _ = ""

-- The state after a write to the outbox, or what is thrown, in the state as it was.
abbrev pub Published : Type 0
Published = Result (String × Publisher) Publisher

abbrev pub written : List ExecutionJob → Database → Result DomainError Database → Published
written sent old (ok db) = ok (record { db = db; sent = sent })
written sent old (err e) = err (message_of e, record { db = old; sent = sent })

-- The `try` block for an event.
unfoldable pub try_publish : (ExecutionJob → Option String) → OutboxRow → ℕ → Publisher → Published
try_publish add event now s =
    let sent = s.sent ++ event.payload ∷ [] in
    if str_eq event.event_type "INTERVENTION_ENQUEUED"
    then elim (add event.payload) [
      | some message ↦ err (message, s)
      | none ↦ written sent s.db (mark_outbox_published event.id now s.db)
    ]
    else written s.sent s.db (
        mark_outbox_failed event.id (join_text ("Unknown event type: " ∷ event.event_type ∷ []))
          s.db)

-- The `catch` block: what it throws itself ends the loop.
unfoldable pub handle_failure : OutboxRow → String → ℕ → Publisher → Published
handle_failure event message now s =
    if leb 3 event.attempts
    then written s.sent s.db (mark_outbox_failed event.id message s.db)
    else written s.sent s.db
        (reschedule_outbox_event event.id (now + 2 ^ event.attempts * 1000) message s.db)

unfoldable pub publish_one : (ExecutionJob → Option String) → OutboxRow → ℕ → Publisher → Published
publish_one add event now s = elim (try_publish add event now s) [
  | ok s' ↦ ok s'
  | err (message, s') ↦ handle_failure event message now s'
]

unfoldable pub publish_each :
    (ExecutionJob → Option String) → List OutboxRow → ℕ → Publisher → Publisher
publish_each add [] now s = s
publish_each add (event ∷ events) now s = elim (publish_one add event now s) [
  | ok s' ↦ publish_each add events now s'
  | err (message, s') ↦ s'
]

abbrev pub batch_size : ℕ
batch_size = 10

abbrev pub lock_duration_ms : ℕ
lock_duration_ms = 30000

-- `poll`, where no other call of it is on: `isProcessing` keeps a second one out.
unfoldable pub poll : (ExecutionJob → Option String) → String → ℕ → Publisher → Publisher
poll add worker_id now s =
    let (events, db) = claim_pending_outbox_events batch_size lock_duration_ms worker_id now s.db in
    publish_each add events now (record s { db = db })
