-- ===== src/Tests/Delivery.antt =====
-- What goes out: the outbox, the rounds of the orchestrator and the providers.
use fin_tech_ai.Domain.Errors.{DomainError}
use fin_tech_ai.Base.{◌⊎◌, err}
use fin_tech_ai.Base.{
  ◌≤◌, ◌≡◌, ◌≢◌, refl, true, false, none, some, [], ◌∷◌, arith, length, exists, ok,
}
use fin_tech_ai.Base.Int.{pos}
use fin_tech_ai.Tests.Samples.{empty_db}
use fin_tech_ai.Persistence.Rows.{
  ExecutionJob, OutboxRow, OutboxStatus, InterventionStatus, Database,
}
use fin_tech_ai.Persistence.Outbox.{is_among, find_outbox, claim_pending_outbox_events}
use fin_tech_ai.Persistence.Outbox.Claims.{claim-exclusive}
use fin_tech_ai.Api.Publisher.{Publisher, publish_one}
use fin_tech_ai.Api.Publisher.Publishing.{Fate, publish_one-Fate}
use fin_tech_ai.Worker.Recovery.{
  ExecutionRequest, ProviderResult, initiate_payment_retry, other_action, execution_status,
}
use fin_tech_ai.Worker.Providers.Calls.{ExternalServices, ProviderSettings, worker_parameters}
use fin_tech_ai.Worker.Providers.{configured_provider}
use fin_tech_ai.Worker.Providers.Outcomes.{configured_provider-never_ambiguous}

abbrev waiting_job : ExecutionJob
waiting_job = record {
  job_id = "plan-1-enqueue";
  plan_id = "plan-1";
  case_id = "case-1";
  merchant_id = "merchant-1";
  correlation_id = "corr-1";
  plan_idempotency_key = "case-1_v1_PAYMENT_RETRY_1";
  requested_at = 1000;
  attempt = 1;
}

abbrev waiting_event : OutboxRow
waiting_event = record {
  id = "out-1";
  aggregate_type = "RecoveryPlan";
  aggregate_id = "plan-1";
  event_type = "INTERVENTION_ENQUEUED";
  payload = waiting_job;
  status = OutboxStatus.pending;
  idempotency_key = "plan-1-enqueue";
  attempts = 2;
  available_at = 1000;
  published_at = none;
  last_error = none;
  locked_at = none;
  locked_by = none;
  created_at = 1000;
}

abbrev waiting_db : Database
waiting_db = record empty_db { outbox = waiting_event ∷ [] }

claim-exclusive_example :
    let (rows, db') = claim_pending_outbox_events 10 30000 "w-1" 2000 waiting_db in
    let (rows', _) = claim_pending_outbox_events 10 30000 "w-2" 31000 db' in
    (length rows ≤ 10) × (exists (is_among rows) rows' ≡ false)
claim-exclusive_example =
    claim-exclusive 10 30000 "w-1" 2000 waiting_db 10 30000 "w-2" 31000 (omega arith)

abbrev publishing : Publisher
publishing = record { db = waiting_db; sent = [] }

publish_one-Fate_example :
    (s' : Publisher) × (r' : OutboxRow) × (publish_one
        (λ job. some "queue is down")
        waiting_event
        2000
        publishing
      ≡ ok s')
    × (find_outbox "out-1" s'.db ≡ some r')
    × Fate (λ job. some "queue is down") waiting_event 2000 waiting_event [] r' s'.sent
    × (s'.db.cases ≡ [])
publish_one-Fate_example =
    publish_one-Fate (λ job. some "queue is down") waiting_event 2000 publishing waiting_event refl

abbrev services_up : ExternalServices
services_up = record {
  create_link = λ body. ok "plink_1";
  create_test_link = λ body. ok "plink_2";
  create_order = λ body. ok (some "order_1");
  charge_mandate = λ body. ok "order_2";
  send_message = λ text from to. ok "sms_1";
  start_call = λ text from to. ok "call_1";
  send_mail = λ from to subject. ok (ok (some "mail_1"));
  draft_ticket = λ case_id. ok true;
}

abbrev live_settings : ProviderSettings
live_settings = record {
  enable_test_mode = false;
  razorpay_mode_is_test = true;
  has_razorpay_keys = true;
  twilio_from_number = some "+1000";
  resend_from_email = some "pay@example.com";
  random_part = "abcd";
  time_text = "1";
}

abbrev retry_request : ExecutionRequest
retry_request = record {
  intervention_id = "int-1";
  case_id = "case-1";
  merchant_id = "merchant-1";
  action = initiate_payment_retry;
  amount_minor = pos 5000;
  currency = "INR";
  idempotency_key = "plan-1-PAYMENT_RETRY-1";
}

configured_provider-never_ambiguous_example :
    ((initiate_payment_retry ≡ other_action)
      × (e : DomainError) × (configured_provider services_up live_settings
            (worker_parameters none none none)
            retry_request
          ≡ err e))
    ⊎ ((initiate_payment_retry ≢ other_action)
        × (result : ProviderResult) × (configured_provider services_up live_settings
              (worker_parameters none none none)
              retry_request
            ≡ ok result)
        × (execution_status result ≢ InterventionStatus.ambiguous))
configured_provider-never_ambiguous_example =
    configured_provider-never_ambiguous services_up live_settings (worker_parameters none none none)
      retry_request
