-- ===== src/Api/Events/Opening.antt =====
-- Which events open a case, and what a replay answers.
use fin_tech_ai.Base.{
  ap, ℕ, ◌≡◌, refl, inl, inr, true, false, none, some, arith, String, Bool-cases, ok,
}
use mathlib.Core.Path.{subst}
use fin_tech_ai.Base.{ap, Result-cases}
use fin_tech_ai.Contracts.{
  payment_failed, Money, detected, payment_recovered, same_event_type, RevenueEvent,
}
use fin_tech_ai.Domain.Qualification.{qualify_revenue_event, MerchantConfig}
use fin_tech_ai.Persistence.Rows.{EventRow, CaseRow, Database, find_case, find_event_by_key}
use fin_tech_ai.Persistence.Intake.{
  replay, IngestionSurroundings, IngestionResult, ingestion_config,
}
use fin_tech_ai.Persistence.Ingestion.{
  new_case, ingest_new, ingest_from, ingest_event_and_create_case_if_eligible,
}
use fin_tech_ai.Persistence.Ingestion.Effects.{ingest_new-Ingested}
use fin_tech_ai.Persistence.Ingestion.Cases.{ingest-opens}
use fin_tech_ai.Persistence.Planning.{to_recovery_case}
use fin_tech_ai.Api.Events.{
  IngestEventDto, IngestEventResponse, ingest_event, ingestion_command, qualifying,
  to_event_response,
}

-- The case that an eligible event asks for.
abbrev opened_case : IngestionSurroundings → RevenueEvent → CaseRow
opened_case env e = record {
  id = env.case_id;
  source_event_id = e.event_id;
  merchant_id = e.merchant_id;
  customer_id = e.customer_id;
  amount_at_risk_minor = e.amount.amount_minor;
  currency = e.amount.currency;
  state = detected;
  attempt_count = 0;
  version = 1;
  correlation_id = e.correlation_id;
  created_at = env.now;
  updated_at = env.now;
  terminal_at = none;
}

-- An eligible event asks for a case in `DETECTED`; another event asks for none.
qualified-new_case :
    (env : IngestionSurroundings) (e : RevenueEvent) (config : MerchantConfig) (segment : String)
    (now : ℕ)
    → let q = qualify_revenue_event e config segment now in
      ((q.eligible ≡ true) → new_case env e q ≡ some (opened_case env e))
      × ((q.eligible ≡ false) → new_case env e q ≡ none)
unfolding qualify_revenue_event
qualified-new_case env e config segment now = (λ h. ground (arith, h), λ h. ground (arith, h))

-- What is known of the answer to an event that is new and no recovery.
record Answered (env : IngestionSurroundings) (dto : IngestEventDto) (db after : Database)
    (r : IngestionResult) : Type 0 where
  e : RevenueEvent
  amount_kept : e.amount.amount_minor ≡ dto.amount_minor
  opens :
      (r.qualification.eligible ≡ true)
      → (find_case env.case_id after ≡ some (opened_case env e))
        × (r.revenue_case ≡ some (to_recovery_case (opened_case env e)))
  opens_not :
      (r.qualification.eligible ≡ false) → (after.cases ≡ db.cases) × (r.revenue_case ≡ none)
  first_time : r.idempotent_replay ≡ false

module _ (hash : String → String) (env : IngestionSurroundings) (dto : IngestEventDto)
    (key : String) (db after : Database) where
  repository-Answered :
      (r : IngestionResult)
      → same_event_type dto.event_type payment_recovered ≡ false
      → ingest_new (qualifying env) (ingestion_command hash dto key) db ≡ ok (r, after)
      → Answered env dto db after r
  unfolding ingestion_command
  repository-Answered r other done =
      let command = ingestion_command hash dto key in
      let i = ingest_new-Ingested (qualifying env) command db after r done in
      let (opens, opens_not) =
        ingest-opens (qualifying env) command db after r done
          (ground (arith, other, i.event_kind)) in
      let (asks, asks_not) =
        qualified-new_case (qualifying env) r.event ingestion_config i.segment env.now in
      record {
        e = r.event;
        amount_kept = ap (λ (m : Money). m.amount_minor) i.event_amount;
        opens = λ worth. opens (opened_case env r.event) (ground (arith, i.qualified, asks, worth));
        opens_not = λ barred. opens_not (ground (arith, i.qualified, asks_not, barred));
        first_time = i.first_time;
      }

  -- An event with a new key, that is no recovery of a payment, opens a case exactly where it is eligible: in
  -- `DETECTED`, at version 1, without attempts and with the whole amount at risk. Where it is not eligible
  -- it leaves the cases alone.
  pub ingest_event-opens :
      (response : IngestEventResponse)
      → find_event_by_key key db ≡ none
      → same_event_type dto.event_type payment_recovered ≡ false
      → ingest_event hash env dto key db ≡ ok (response, after)
      → (response.case_created ≡ response.eligible)
        × ((response.eligible ≡ true)
            → (c : CaseRow) × (find_case env.case_id after ≡ some c)
              × (c.state ≡ detected)
              × (c.version ≡ 1)
              × (c.attempt_count ≡ 0)
              × (c.amount_at_risk_minor ≡ dto.amount_minor))
        × ((response.eligible ≡ false) → after.cases ≡ db.cases)
  unfolding ingest_event ingest_event_and_create_case_if_eligible ingest_from ingestion_command
  ingest_event-opens response new other h =
      elim (Result-cases (ingest_new (qualifying env) (ingestion_command hash dto key) db)) [
        | inl (refused, failed) ↦ absurd (ground (arith, new, failed, h))
        | inr ((r, after'), done) ↦
            let same : after' ≡ after = ground (arith, new, done, h) in
            let answer : to_event_response r ≡ response = ground (arith, new, done, h) in
            let a = repository-Answered r other (
              subst
                (λ d. ingest_new (qualifying env) (ingestion_command hash dto key) db ≡ ok (r, d))
                same done) in
            subst
              (λ p.
                (p.case_created ≡ p.eligible)
                × ((p.eligible ≡ true)
                    → (c : CaseRow) × (find_case env.case_id after ≡ some c)
                      × (c.state ≡ detected)
                      × (c.version ≡ 1)
                      × (c.attempt_count ≡ 0)
                      × (c.amount_at_risk_minor ≡ dto.amount_minor))
                × ((p.eligible ≡ false) → after.cases ≡ db.cases))
              answer
              (
                elim (Bool-cases r.qualification.eligible) [
                  | inl worth ↦ ground (arith, worth, (a.opens worth).1, a.first_time)
                  | inr barred ↦ ground (arith, barred, (a.opens_not barred).1, a.first_time)
                ],
                λ worth. (opened_case env a.e, (a.opens worth).0, refl, refl, refl, a.amount_kept),
                λ barred. (a.opens_not barred).0,
              )
      ]

  -- A replay of a failed payment changes nothing, but reports the event as not eligible, also where it opened a
  -- case: the stored event is qualified without its failure reason.
  pub ingest_event-replay_ineligible :
      (e : EventRow)
      → find_event_by_key key db ≡ some e
      → e.event.event_type ≡ payment_failed
      → (response : IngestEventResponse) × (ingest_event hash env dto key db ≡ ok (response, db))
        × (response.idempotent_replay ≡ true)
        × (response.eligible ≡ false)
        × (response.case_created ≡ false)
  unfolding ingest_event ingest_event_and_create_case_if_eligible ingest_from ingestion_command
      replay qualify_revenue_event
  ingest_event-replay_ineligible e there kind = (
    to_event_response (replay (qualifying env) e db),
    rw (ingest_event, ingest_event_and_create_case_if_eligible, there) refl,
    refl,
    ground (arith, kind),
    ground arith,
  )
