-- ===== src/Api/Publisher/Publishing.antt =====
-- What becomes of an event of the outbox that the publisher has claimed.
use fin_tech_ai.Persistence.Rows.{OutboxStatus}
use fin_tech_ai.Base.{
  ◌⊎◌, find_row-update_row, ℕ, ◌+◌, ◌*◌, ◌≤◌, ◌<◌, ◌≡◌, ◌≢◌, refl, inl, inr, true, Option, some,
  List, [], ◌∷◌, ◌++◌, arith, str_eq, eq_iff, String, leb, join_text, Bool-cases, Option-cases, ok,
  update_row,
}
use Prim.Native.Nat.{◌^◌}
use fin_tech_ai.Persistence.Rows.{ExecutionJob, OutboxRow, Database}
use fin_tech_ai.Persistence.Outbox.{
  find_outbox, update_outbox, mark_outbox_published, reschedule_outbox_event, mark_outbox_failed,
  published_at, rescheduled_to, failed_with,
}
use fin_tech_ai.Api.Publisher.{none, Publisher, try_publish, handle_failure, publish_one}

update_outbox-found :
    (id : String) (f : OutboxRow → OutboxRow) (db : Database) (r : OutboxRow)
    → find_outbox id db ≡ some r
    → ((r : OutboxRow) → (f r).id ≡ r.id)
    → (db' : Database) × (update_outbox id f db ≡ ok db')
      × (find_outbox id db' ≡ some (f r))
      × (db'.cases ≡ db.cases)
unfolding update_outbox
update_outbox-found id f db r found same =
    let written =
      find_row-update_row (λ (r : OutboxRow). r.id) id id (λ _. true) f db.outbox same in
    (
      record db { outbox = update_row (λ (r : OutboxRow). r.id) id (λ _. true) f db.outbox },
      rw (update_outbox, found) refl,
      ground (arith, found, written, eq_iff id id),
      refl,
    )

-- The fate of a claimed event: what becomes of its row `r`, and whether its job was sent.
pub data Fate (add : ExecutionJob → Option String) (event : OutboxRow) (now : ℕ) (r : OutboxRow)
    (sent : List ExecutionJob) : OutboxRow → List ExecutionJob → Type 0 where
  was_published :
      event.event_type ≡ "INTERVENTION_ENQUEUED"
      → add event.payload ≡ none
      → Fate add event now r sent
          (record r {
            status = OutboxStatus.published;
            published_at = some now;
            locked_at = none;
            locked_by = none;
          })
          (sent ++ event.payload ∷ [])
  was_rescheduled :
      (message : String)
      → event.event_type ≡ "INTERVENTION_ENQUEUED"
      → add event.payload ≡ some message
      → event.attempts < 3
      → Fate add event now r sent
          (record r {
            attempts = r.attempts + 1;
            available_at = now + 2 ^ event.attempts * 1000;
            last_error = some message;
            locked_at = none;
            locked_by = none;
          })
          sent
  was_failed :
      (message : String)
      → ((event.event_type ≢ "INTERVENTION_ENQUEUED")
          ⊎ ((add event.payload ≡ some message) × (3 ≤ event.attempts)))
      → Fate add event now r sent
          (record r {
            status = OutboxStatus.failed;
            last_error = some message;
            attempts = r.attempts + 1;
            locked_at = none;
            locked_by = none;
          })
          sent

module _ (add : ExecutionJob → Option String) (event : OutboxRow) (now : ℕ) (s : Publisher)
    (r : OutboxRow) (found : find_outbox event.id s.db ≡ some r) where
  handle_failure-Fate :
      (message : String)
      → event.event_type ≡ "INTERVENTION_ENQUEUED"
      → add event.payload ≡ some message
      → (s' : Publisher) × (r' : OutboxRow) × (handle_failure event message now s ≡ ok s')
        × (find_outbox event.id s'.db ≡ some r')
        × Fate add event now r s.sent r' s'.sent
        × (s'.db.cases ≡ s.db.cases)
  unfolding handle_failure mark_outbox_failed reschedule_outbox_event
  handle_failure-Fate message known refused = elim (Bool-cases (leb 3 event.attempts)) [
    | inl spent ↦
        let (db', done, there, cases) =
          update_outbox-found event.id (failed_with message) s.db r found (λ r. refl) in
        (
          record { db = db'; sent = s.sent },
          failed_with message r,
          rw (spent, done) refl,
          there,
          was_failed message (inr (refused, ground (arith, spent))),
          cases,
        )
    | inr again ↦
        let next = now + 2 ^ event.attempts * 1000 in
        let (db', done, there, cases) =
          update_outbox-found event.id (rescheduled_to next message) s.db r found (λ r. refl) in
        (
          record { db = db'; sent = s.sent },
          rescheduled_to next message r,
          rw (again, done) refl,
          there,
          was_rescheduled message known refused (ground (arith, again)),
          cases,
        )
  ]

  -- An event of the outbox that the publisher handles gets the status PUBLISHED after the queue took its job;
  -- or, where the queue refused it, one more attempt and a later time, while it has had fewer than three; or the
  -- status FAILED, for its type or for three attempts. In each case its lock is freed and its other columns
  -- stay. No case is touched, so the case of a failed event stays in its state.
  pub publish_one-Fate :
      (s' : Publisher) × (r' : OutboxRow) × (publish_one add event now s ≡ ok s')
      × (find_outbox event.id s'.db ≡ some r')
      × Fate add event now r s.sent r' s'.sent
      × (s'.db.cases ≡ s.db.cases)
  unfolding publish_one try_publish mark_outbox_published mark_outbox_failed
  publish_one-Fate = elim (Bool-cases (str_eq event.event_type "INTERVENTION_ENQUEUED")) [
    | inr unknown ↦
        let message = join_text ("Unknown event type: " ∷ event.event_type ∷ []) in
        let (db', done, there, cases) =
          update_outbox-found event.id (failed_with message) s.db r found (λ r. refl) in
        (
          record { db = db'; sent = s.sent },
          failed_with message r,
          rw (publish_one, try_publish, unknown, done) refl,
          there,
          was_failed message
              (inl (ground (arith, unknown, eq_iff event.event_type "INTERVENTION_ENQUEUED"))),
          cases,
        )
    | inl known ↦ elim (Option-cases (add event.payload)) [
      | inr (message, refused) ↦
          let (s', r', done, there, fate, cases) =
            handle_failure-Fate message
              (ground (arith, known, eq_iff event.event_type "INTERVENTION_ENQUEUED")) refused in
          (s', r', rw (publish_one, try_publish, known, refused) done, there, fate, cases)
      | inl taken ↦
          let (db', done, there, cases) =
            update_outbox-found event.id (published_at now) s.db r found (λ r. refl) in
          (
            record { db = db'; sent = s.sent ++ event.payload ∷ [] },
            published_at now r,
            rw (publish_one, try_publish, known, taken, done) refl,
            there,
            was_published (ground (arith, known, eq_iff event.event_type "INTERVENTION_ENQUEUED"))
                taken,
            cases,
          )
    ]
  ]
