-- ===== src/Tests/Intake.antt =====
-- Events and webhooks that come in.
use fin_tech_ai.Base.{
  keep, str_eq, ◌≢◌, arith, eq_iff, List, ◌≡◌, ◌≢◌, refl, true, false, none, some, [], ◌∷◌, arith,
  str_eq, eq_iff, String, exists, ok, err, value_or,
}
use fin_tech_ai.Base.Int.{pos}
use fin_tech_ai.Tests.Samples.{sample_event, sample_row, row_in, db_with}
use fin_tech_ai.Contracts.{
  escalated, RevenueEvent, detected, stopped, recovered, payment_failed, payment_recovered,
  network_error,
}
use fin_tech_ai.Domain.Qualification.{qualify_revenue_event}
use fin_tech_ai.Persistence.Rows.{CaseRow, Database, find_case}
use fin_tech_ai.Persistence.Intake.{
  IngestionSurroundings, IngestionCommand, IngestionResult, resolve_merchant, resolve_customer,
  stored_event, create_event, replay,
}
use fin_tech_ai.Persistence.Ingestion.{
  ingest_event_and_create_case_if_eligible, ingest_from, ingest_new, settle_event, create_case,
  recover_case,
}
use fin_tech_ai.Persistence.Ingestion.Cases.{ingest-replay, recover_case-moves}
use fin_tech_ai.Api.Events.{
  IngestEventDto, IngestEventResponse, ingest_event, ingestion_command, to_event_response,
}
use fin_tech_ai.Api.Events.Opening.{ingest_event-opens, ingest_event-replay_ineligible}
use fin_tech_ai.Api.Webhooks.{
  Delivery, deliver_all, WebhookState, handle_webhook, ignored_duplicate, queue_failed,
  handle_webhook-once,
}
use fin_tech_ai.Api.Razorpay.{RazorpayPayload}

abbrev failed_payment : IngestEventDto
failed_payment = record {
  external_event_id = "pay-2";
  merchant_reference = "shop-1";
  customer_reference = "buyer-1";
  customer_masked_reference = "B***";
  consent_email = "GRANTED";
  consent_sms = "DENIED";
  consent_voice = "UNKNOWN";
  customer_email = none;
  customer_phone = some "+910000000000";
  event_type = payment_failed;
  occurred_at = 1000;
  amount_minor = pos 5000;
  currency = "INR";
  failure_reason = some network_error;
  metadata = none;
}

abbrev arriving : IngestionSurroundings
arriving = record {
  qualify = λ e config segment. qualify_revenue_event e config segment 2000;
  demo_config = none;
  encrypt = λ s. s;
  merchant_id = "merchant-2";
  customer_id = "customer-2";
  event_id = "event-2";
  case_id = "case-2";
  now = 2000;
}

abbrev shop_db : Database
shop_db = db_with sample_row

abbrev failed_command : IngestionCommand
failed_command = ingestion_command (λ s. s) failed_payment "key-2"

abbrev taken_in : IngestionResult × Database
taken_in =
    value_or
      (
        replay arriving (record { event = sample_event; ingestion_idempotency_key = "" }) shop_db,
        shop_db,
      )
      (ingest_event_and_create_case_if_eligible arriving failed_command shop_db)

taken_in_first :
    ingest_event_and_create_case_if_eligible arriving failed_command shop_db ≡ ok taken_in
unfolding ingest_event_and_create_case_if_eligible ingest_from ingest_new resolve_merchant
    resolve_customer stored_event create_event settle_event create_case ingestion_command
    qualify_revenue_event replay
taken_in_first = refl

ingest-replay_example :
    (result' : IngestionResult) × (ingest_event_and_create_case_if_eligible arriving failed_command
        taken_in.1
      ≡ ok (result', taken_in.1))
    × (result'.idempotent_replay ≡ true)
    × (result'.event.event_id ≡ taken_in.0.event.event_id)
ingest-replay_example =
    ingest-replay arriving failed_command shop_db taken_in.1 taken_in.0 taken_in_first arriving
      failed_command refl

abbrev late_payment : RevenueEvent
late_payment = record sample_event { event_type = payment_recovered }

abbrev other_id : String
other_id = "case-0"

-- An older case of the customer, and a newer one of another.
abbrev old_row : CaseRow
old_row = record sample_row { id = "case-0"; state = escalated }

abbrev other_row : CaseRow
other_row = record sample_row { id = "case-9"; customer_id = "customer-9" }

abbrev three_cases : Database
three_cases = record (db_with sample_row) { cases = old_row ∷ row_in stopped ∷ other_row ∷ [] }

case_0-case_1 : other_id ≢ "case-1"
case_0-case_1 = λ e. ground (arith, e, eq_iff other_id "case-1")

recover_case-moves_example :
    let after = (recover_case late_payment 2000 three_cases).1 in
    (find_case "case-1" after
      ≡ some (record (row_in stopped) {
        state = recovered;
        terminal_at = some 2000;
        version = 2;
        updated_at = 2000;
      }))
    × (find_case "case-0" after ≡ some old_row)
recover_case-moves_example =
    recover_case-moves late_payment 2000 (old_row ∷ []) (other_row ∷ []) (row_in stopped)
      three_cases "case-0" refl refl refl refl refl refl case_0-case_1

abbrev answered : IngestEventResponse × Database
answered =
    value_or (to_event_response taken_in.0, shop_db)
      (ingest_event (λ s. s) arriving failed_payment "key-2" shop_db)

answered_first : ingest_event (λ s. s) arriving failed_payment "key-2" shop_db ≡ ok answered
unfolding ingest_event ingest_event_and_create_case_if_eligible ingest_from ingest_new
    resolve_merchant resolve_customer stored_event create_event settle_event create_case
    ingestion_command qualify_revenue_event replay
answered_first = refl

ingest_event-opens_example :
    (answered.0.case_created ≡ answered.0.eligible)
    × ((answered.0.eligible ≡ true)
        → (c : CaseRow) × (find_case "case-2" answered.1 ≡ some c)
          × (c.state ≡ detected)
          × (c.version ≡ 1)
          × (c.attempt_count ≡ 0)
          × (c.amount_at_risk_minor ≡ pos 5000))
    × ((answered.0.eligible ≡ false) → answered.1.cases ≡ shop_db.cases)
ingest_event-opens_example =
    ingest_event-opens (λ s. s) arriving failed_payment "key-2" shop_db answered.1 answered.0 refl
      refl answered_first

ingest_event-replay_ineligible_example :
    (response : IngestEventResponse) × (ingest_event
        (λ s. s)
        arriving
        failed_payment
        "key-1"
        shop_db
      ≡ ok (response, shop_db))
    × (response.idempotent_replay ≡ true)
    × (response.eligible ≡ false)
    × (response.case_created ≡ false)
ingest_event-replay_ineligible_example =
    ingest_event-replay_ineligible (λ s. s) arriving failed_payment "key-1" shop_db shop_db
      (record { event = sample_event; ingestion_idempotency_key = "key-1" }) refl refl

abbrev quiet : WebhookState String
quiet = record { event_ids = "evt-0" ∷ []; jobs = [] }

new_id : exists (str_eq "evt-1") quiet.event_ids ≡ false
new_id = refl

abbrev delivery : String
delivery = "evt-1"

given_id : delivery ≢ ""
given_id = λ e. ground (arith, e, eq_iff delivery "")

abbrev later : List (Delivery String)
later =
    record { queue_takes = true; payload = "body"; event_id = some "evt-2" }
    ∷ record { queue_takes = true; payload = "body"; event_id = some "evt-1" }
    ∷ []

handle_webhook-once_example :
    let (result, s') = handle_webhook false "body" (some "evt-1") quiet in
    let after = deliver_all later s' in
    (handle_webhook true "body" (some "evt-1") after ≡ (ok ignored_duplicate, after))
    × (keep (λ (job : String × String). str_eq "evt-1" job.0) after.jobs ≡ [])
    × (result ≡ err queue_failed)
handle_webhook-once_example =
    handle_webhook-once false true "body" "body" "evt-1" later quiet given_id new_id

abbrev captured_payload : RazorpayPayload
captured_payload = record { event = "payment.captured"; case_id = some "case-1" }
