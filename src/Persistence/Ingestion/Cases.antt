-- ===== src/Persistence/Ingestion/Cases.antt =====
-- The cases that the ingestion of an event opens or recovers, and its replays.
use fin_tech_ai.Persistence.Planning.{to_recovery_case}
use fin_tech_ai.Contracts.{same_state, recovered}
use fin_tech_ai.Persistence.Ingestion.{is_recoverable, create_case, settle_event, new_case}
use fin_tech_ai.Contracts.{same_event_type, payment_recovered}
use fin_tech_ai.Base.{
  find-reverse, ◌++◌, ◌+◌, ◌≢◌, ◌&&◌, not, str_eq, String, ap, find_row-update_row,
  find_row-append_new, ℕ, ◌≡◌, refl, sym, ◌∙◌, inl, inr, true, false, Option, none, some, List, [],
  ◌∷◌, arith, eq_iff, Bool-cases, Option-cases, exists, ok, ◌>>=◌, value_or, find_row,
}
use mathlib.Core.Path.{subst}
use fin_tech_ai.Base.{Result-cases}
use fin_tech_ai.Contracts.{RevenueEvent, payment_recovered, same_event_type}
use fin_tech_ai.Persistence.Rows.{CaseRow, EventRow, Database, find_case, find_event_by_key}
use fin_tech_ai.Persistence.Evolution.{Evolves, Evolves-refl, Evolves-trans, Evolves-same}
use fin_tech_ai.Persistence.Intake.{
  IngestionSurroundings, IngestionCommand, IngestionResult, replay,
}
use fin_tech_ai.Persistence.Ingestion.{
  new_case, is_same_case, recovered_at, recover_case, find_active_case, create_case, settle_event,
  ingest_new, ingest_from, ingest_event_and_create_case_if_eligible,
}
use fin_tech_ai.Persistence.Ingestion.Effects.{ingest_new-Ingested, settle_event-Evolves}

ingest_new-Evolves :
    (env : IngestionSurroundings) (command : IngestionCommand) (db after : Database)
    (result : IngestionResult)
    → ingest_new env command db ≡ ok (result, after)
    → Evolves db after
ingest_new-Evolves env command db after result h =
    let i = ingest_new-Ingested env command db after result h in
    let (last, _) =
      settle_event-Evolves env result.event result.qualification i.stored after result.revenue_case
        i.settled in
    Evolves-trans db i.stored after (Evolves-same db i.stored i.cases_kept) last

-- The ingestion of an event keeps the versions, whatever its first read found.
pub ingest_from-Evolves :
    (read : Option EventRow) (env : IngestionSurroundings) (command : IngestionCommand)
    (db : Database)
    → Evolves db (value_or db (ingest_from read env command db >>= λ p. ok p.1))
unfolding ingest_from replay
ingest_from-Evolves (some e) env command db = Evolves-refl db
ingest_from-Evolves none env command db = elim (Result-cases (ingest_new env command db)) [
  | inl (refused, failed) ↦ rw (ingest_from, failed) (Evolves-refl db)
  | inr ((result, after), done) ↦
      rw (ingest_from, done) (ingest_new-Evolves env command db after result done)
]

module _ (env : IngestionSurroundings) (command : IngestionCommand) (db after : Database)
    (result : IngestionResult)
    (done : ingest_event_and_create_case_if_eligible env command db ≡ ok (result, after)) where
  key_stored :
      (e : EventRow) × (find_event_by_key command.idempotency_key after ≡ some e)
      × (e.event.event_id ≡ result.event.event_id)
  unfolding ingest_event_and_create_case_if_eligible ingest_from replay
  key_stored = elim (Option-cases (find_event_by_key command.idempotency_key db)) [
    | inr (e, there) ↦ (e, ground (arith, there, done), ground (arith, there, done))
    | inl new ↦
        let i = ingest_new-Ingested env command db after result (ground (arith, new, done)) in
        let (_, kept) =
          settle_event-Evolves env result.event result.qualification i.stored after
            result.revenue_case i.settled in
        let row : EventRow = record {
          event = result.event;
          ingestion_idempotency_key = command.idempotency_key;
        } in
        let read =
          find_row-append_new (λ (e : EventRow). e.ingestion_idempotency_key)
            command.idempotency_key db.events row in
        (
          row,
          ground (
            arith,
            kept,
            i.event_added,
            read,
            new,
            eq_iff command.idempotency_key command.idempotency_key,
          ),
          refl,
        )
  ]

  -- An event whose key has come in before is a replay, whatever it says: it answers with the same event and
  -- changes nothing.
  pub ingest-replay :
      (env' : IngestionSurroundings) (command' : IngestionCommand)
      → command'.idempotency_key ≡ command.idempotency_key
      → (result' : IngestionResult) × (ingest_event_and_create_case_if_eligible env' command' after
          ≡ ok (result', after))
        × (result'.idempotent_replay ≡ true)
        × (result'.event.event_id ≡ result.event.event_id)
  unfolding ingest_event_and_create_case_if_eligible ingest_from replay
  ingest-replay env' command' same =
      let (e, there, event) = key_stored in
      (
        replay env' e after,
        rw (ingest_event_and_create_case_if_eligible, same, there) refl,
        refl,
        event,
      )

-- An event of a recovered payment moves a case of its merchant and customer that is not recovered, if none
-- that is newer is such a case, to `RECOVERED` at the next version, with the time as the end of the case: also
-- from a final state such as `STOPPED`. Every other case stays as it is.
pub recover_case-moves :
    (e : RevenueEvent) (now : ℕ) (older newer : List CaseRow) (r : CaseRow) (db : Database)
    (other : String)
    → db.cases ≡ older ++ r ∷ newer
    → r.merchant_id ≡ e.merchant_id
    → r.customer_id ≡ e.customer_id
    → same_state r.state recovered ≡ false
    → exists
        (λ (c : CaseRow).
          str_eq c.merchant_id e.merchant_id
          && (str_eq c.customer_id e.customer_id && not (same_state c.state recovered)))
        newer
      ≡ false
    → find_case r.id db ≡ some r
    → other ≢ r.id
    → let after = (recover_case e now db).1 in
      (find_case r.id after
        ≡ some (record r {
          state = recovered;
          terminal_at = some now;
          version = r.version + 1;
          updated_at = now;
        }))
      × (find_case other after ≡ find_case other db)
unfolding recover_case find_active_case
recover_case-moves e now older newer r db other rows merchant customer live newest found different =
    let chosen : find_active_case e db ≡ some r =
      rw (find_active_case, rows)
        (find-reverse (is_recoverable e) older r newer
          (ground (
            arith,
            merchant,
            customer,
            live,
            eq_iff r.merchant_id e.merchant_id,
            eq_iff r.customer_id e.customer_id,
          ))
          newest) in
    let moved = λ (j : String).
      find_row-update_row (λ (r : CaseRow). r.id) r.id j (λ _. true) (recovered_at now) db.cases
        (λ r. refl) in
    (
      ground (arith, chosen, found, moved r.id, eq_iff r.id r.id),
      ground (arith, chosen, moved other, different, eq_iff r.id other),
    )

no_same_case :
    (new : CaseRow) (rows : List CaseRow)
    → exists (is_same_case new) rows ≡ false
    → find_row (λ (r : CaseRow). r.id) new.id rows ≡ none
no_same_case new [] h = refl
no_same_case new (r ∷ rows) h = ground (arith, h, no_same_case new rows)

-- A case that is created can be read.
create_case-found :
    (new : CaseRow) (e : RevenueEvent) (db db' : Database)
    → create_case new e db ≡ ok db'
    → find_case new.id db' ≡ some new
unfolding create_case
create_case-found new e db db' h = elim (Bool-cases (exists (is_same_case new) db.cases)) [
  | inl taken ↦ absurd (ground (arith, taken, h))
  | inr free ↦ ground (
    arith,
    h,
    free,
    no_same_case new db.cases free,
    find_row-append_new (λ (r : CaseRow). r.id) new.id db.cases new,
    eq_iff new.id new.id,
  )
]

-- An ingestion that asks for a case opens it; one that asks for none leaves the cases alone.
pub ingest-opens :
    (env : IngestionSurroundings) (command : IngestionCommand) (db after : Database)
    (result : IngestionResult)
    → ingest_new env command db ≡ ok (result, after)
    → same_event_type result.event.event_type payment_recovered ≡ false
    → ((new : CaseRow)
        → new_case env result.event result.qualification ≡ some new
        → (find_case new.id after ≡ some new) × (result.revenue_case ≡ some (to_recovery_case new)))
      × (new_case env result.event result.qualification ≡ none
          → (after.cases ≡ db.cases) × (result.revenue_case ≡ none))
unfolding settle_event
ingest-opens env command db after result done other =
    let i = ingest_new-Ingested env command db after result done in
    (
      λ new asked. elim (Result-cases (create_case new result.event i.stored)) [
        | inl (refused, failed) ↦ absurd (ground (arith, other, asked, failed, i.settled))
        | inr (db', created) ↦
            let same : db' ≡ after = ground (arith, other, asked, created, i.settled) in
            (
              subst (λ d. find_case new.id d ≡ some new) same
                  (create_case-found new result.event i.stored db' created),
              ground (arith, other, asked, created, i.settled),
            )
      ],
      λ nothing.
          let same : i.stored ≡ after = ground (arith, other, nothing, i.settled) in
          (ap (λ d. d.cases) (sym same) ∙ i.cases_kept, ground (arith, other, nothing, i.settled)),
    )
