-- ===== src/Persistence/Ingestion/Effects.antt =====
-- What the ingestion of an event does to the tables.
use mathlib.Core.Path.{subst}
use fin_tech_ai.Domain.Qualification.{QualificationResult}
use fin_tech_ai.Base.{
  false, none, Result-cases, exists, Option, ok, ◌≡◌, find_row-update_row, find_row-append_new, ℕ,
  refl, ◌∙◌, inl, inr, true, [], ◌∷◌, ◌++◌, arith, str_eq, eq_iff, String, Bool-cases, Option-cases,
  update_row,
}
use fin_tech_ai.Contracts.{payment_recovered, same_event_type, RecoveryCase, RevenueEvent}
use fin_tech_ai.Persistence.Rows.{MerchantRow, find_event_by_key, CaseRow, Database}
use fin_tech_ai.Persistence.Evolution.{Evolves-same, Evolves-trans, Evolves, Evolves-refl}
use fin_tech_ai.Persistence.Intake.{
  ingestion_config, IngestionResult, stored_event, resolve_merchant, resolve_customer, create_event,
  IngestionCommand, IngestionSurroundings,
}
use fin_tech_ai.Persistence.Ingestion.{
  ingest_new, new_case, is_same_case, settle_event, create_case, recovered_at, recover_case,
  find_active_case,
}

Evolves-append :
    (new : CaseRow) (db : Database) → Evolves db (record db { cases = db.cases ++ new ∷ [] })
Evolves-append new db id c h = (
  c,
  ground (arith, find_row-append_new (λ (r : CaseRow). r.id) id db.cases new, h),
  ground arith,
)

Evolves-recover :
    (id : String) (now : ℕ) (db : Database)
    → Evolves db (record db {
      cases = update_row (λ (r : CaseRow). r.id) id (λ _. true) (recovered_at now) db.cases;
    })
Evolves-recover id now db j c h =
    let read =
      find_row-update_row (λ (r : CaseRow). r.id) id j (λ _. true) (recovered_at now) db.cases
        (λ r. refl) in
    elim (Bool-cases (str_eq id j)) [
      | inr other ↦ (c, read ∙ rw (other) h, ground arith)
      | inl here ↦ (recovered_at now c, ground (arith, read, h, eq_iff id j), ground arith)
    ]

recover_case-Evolves :
    (e : RevenueEvent) (now : ℕ) (db : Database) → Evolves db (recover_case e now db).1
unfolding recover_case
recover_case-Evolves e now db = elim (Option-cases (find_active_case e db)) [
  | inl nothing ↦ rw (recover_case, nothing) (Evolves-refl db)
  | inr (r, found) ↦ rw (recover_case, found) (Evolves-recover r.id now db)
]

create_case-Evolves :
    (new : CaseRow) (e : RevenueEvent) (db db' : Database)
    → create_case new e db ≡ ok db'
    → Evolves db db'
unfolding create_case
create_case-Evolves new e db db' h = elim (Bool-cases (exists (is_same_case new) db.cases)) [
  | inl taken ↦ absurd (ground (arith, taken, h))
  | inr free ↦
      Evolves-trans db (record db { cases = db.cases ++ new ∷ [] }) db' (Evolves-append new db)
        (Evolves-same (record db { cases = db.cases ++ new ∷ [] }) db' (ground (arith, free, h)))
]

recover_case-events :
    (e : RevenueEvent) (now : ℕ) (db : Database) → (recover_case e now db).1.events ≡ db.events
unfolding recover_case
recover_case-events e now db = ground arith

create_case-events :
    (new : CaseRow) (e : RevenueEvent) (db db' : Database)
    → create_case new e db ≡ ok db'
    → db'.events ≡ db.events
unfolding create_case
create_case-events new e db db' h = ground (arith, h)

-- Step 7 keeps the versions and the events.
pub settle_event-Evolves :
    (env : IngestionSurroundings) (e : RevenueEvent) (q : QualificationResult) (db db' : Database)
    (rc : Option RecoveryCase)
    → settle_event env e q db ≡ ok (rc, db')
    → Evolves db db' × (db'.events ≡ db.events)
unfolding settle_event
settle_event-Evolves env e q db db' rc h =
    elim (Bool-cases (same_event_type e.event_type payment_recovered)) [
      | inl recovery ↦
          let moved : (recover_case e env.now db).1 ≡ db' = ground (arith, recovery, h) in
          subst (λ d. Evolves db d × (d.events ≡ db.events)) moved
            (recover_case-Evolves e env.now db, recover_case-events e env.now db)
      | inr other ↦ elim (Option-cases (new_case env e q)) [
        | inl nothing ↦
            let same : db ≡ db' = ground (arith, other, nothing, h) in
            subst (λ d. Evolves db d × (d.events ≡ db.events)) same (Evolves-refl db, refl)
        | inr (new, some_case) ↦ elim (Result-cases (create_case new e db)) [
          | inl (refused, failed) ↦ absurd (ground (arith, other, some_case, failed, h))
          | inr (db'', created) ↦
              let same : db'' ≡ db' = ground (arith, other, some_case, created, h) in
              subst (λ d. Evolves db d × (d.events ≡ db.events)) same
                (
                  create_case-Evolves new e db db'' created,
                  create_case-events new e db db'' created,
                )
        ]
      ]
    ]

-- What an ingestion that is no replay goes through: the event that is stored, and the database that holds
-- it before the last step.
pub record Ingested (env : IngestionSurroundings) (command : IngestionCommand) (db after : Database)
    (result : IngestionResult) : Type 0 where
  pub segment : String
  pub stored : Database
  new_key : find_event_by_key command.idempotency_key db ≡ none
  pub cases_kept : stored.cases ≡ db.cases
  pub event_added : stored.events ≡ (
      db.events
      ++ record { event = result.event; ingestion_idempotency_key = command.idempotency_key } ∷ [])
  pub event_kind : result.event.event_type ≡ command.event.event_type
  pub event_amount : result.event.amount ≡ command.event.amount
  pub qualified : result.qualification ≡ env.qualify result.event ingestion_config segment
  pub settled :
      settle_event env result.event result.qualification stored ≡ ok (result.revenue_case, after)
  pub first_time : result.idempotent_replay ≡ false

module _ (env : IngestionSurroundings) (command : IngestionCommand) (db : Database) where
  resolve_merchant-kept :
      (m : MerchantRow) (db' : Database)
      → resolve_merchant env command.merchant_reference db ≡ ok (m, db')
      → (db'.cases ≡ db.cases) × (db'.events ≡ db.events)
  unfolding resolve_merchant
  resolve_merchant-kept m db' h = ground (arith, h)

  resolve_customer-kept :
      (m : MerchantRow)
      → ((resolve_customer env command m db).1.cases ≡ db.cases)
        × ((resolve_customer env command m db).1.events ≡ db.events)
  unfolding resolve_customer
  resolve_customer-kept m = ground arith

create_event-added :
    (e : RevenueEvent) (key : String) (now : ℕ) (db db' : Database)
    → create_event e key now db ≡ ok db'
    → (find_event_by_key key db ≡ none)
      × (db'.cases ≡ db.cases)
      × (db'.events ≡ (db.events ++ record { event = e; ingestion_idempotency_key = key } ∷ []))
unfolding create_event
create_event-added e key now db db' h = ground (arith, h)

pub ingest_new-Ingested :
    (env : IngestionSurroundings) (command : IngestionCommand) (db after : Database)
    (result : IngestionResult)
    → ingest_new env command db ≡ ok (result, after)
    → Ingested env command db after result
unfolding ingest_new stored_event
ingest_new-Ingested env command db after result h =
    elim (Result-cases (resolve_merchant env command.merchant_reference db)) [
      | inl (e, failed) ↦ absurd (ground (arith, failed, h))
      | inr ((m, db1), found) ↦
          let (customer, db2) = resolve_customer env command m db1 in
          let e = stored_event env command m customer in
          elim (Result-cases (create_event e command.idempotency_key env.now db2)) [
            | inl (x, failed) ↦ absurd (ground (arith, found, failed, h))
            | inr (db3, created) ↦
                let q = env.qualify e ingestion_config m.segment in
                elim (Result-cases (settle_event env e q db3)) [
                  | inl (x, failed) ↦ absurd (ground (arith, found, created, failed, h))
                  | inr ((rc, db4), done) ↦
                      let answer : IngestionResult = record {
                        event = e;
                        qualification = q;
                        revenue_case = rc;
                        correlation_id = e.correlation_id;
                        idempotent_replay = false;
                      } in
                      let same_answer : answer ≡ result = ground (arith, found, created, done, h) in
                      let same_after : db4 ≡ after = ground (arith, found, created, done, h) in
                      let (cases1, events1) = resolve_merchant-kept env command db m db1 found in
                      let (cases2, events2) = resolve_customer-kept env command db1 m in
                      let (new, cases3, events3) =
                        create_event-added e command.idempotency_key env.now db2 db3 created in
                      subst (λ d. Ingested env command db d result) same_after
                        (subst (λ a. Ingested env command db db4 a) same_answer
                          (record {
                            segment = m.segment;
                            stored = db3;
                            new_key = ground (arith, new, events1, events2);
                            cases_kept = cases3 ∙ cases2 ∙ cases1;
                            event_added = ground (arith, events1, events2, events3);
                            event_kind = refl;
                            event_amount = refl;
                            qualified = refl;
                            settled = done;
                            first_time = refl;
                          }))
                ]
          ]
    ]
