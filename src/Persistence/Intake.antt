-- ===== src/Persistence/Intake.antt =====
-- libs/persistence/src/repositories/prisma/ingestion.ts, steps 1 to 5: the merchant, the customer and the
-- event of an ingestion. Generated ids, the clock, the encryption of personal data and the configuration that
-- a demo merchant is given are parameters.
use fin_tech_ai.Base.{
  ℕ, Bool, true, ◌&&◌, ◌||◌, Option, none, some, [], ◌∷◌, ◌++◌, str_eq, String, if◌then◌else◌,
  is_some, exists, find, Result, ok, err, find_row,
}
use mathlib.Core.Option
use fin_tech_ai.Persistence.Planning.{to_recovery_case}
use fin_tech_ai.Base.Int.{pos}
use fin_tech_ai.Contracts.{
  RevenueCaseState, RevenueEvent, payment_failed, subscription_failed, invoice_overdue,
  checkout_abandoned, same_event_type, MerchantRecoveryPolicyConfig, RecoveryCase,
}
use fin_tech_ai.Domain.Qualification.{MerchantConfig, QualificationResult}
use fin_tech_ai.Persistence.Rows.{
  CaseRow, EventRow, MerchantRow, CustomerRow, AuditRow, Database, find_event_by_key, find_merchant,
  write_audit,
}
use fin_tech_ai.Persistence.Planning.{to_recovery_case}

pub record IngestionCommand : Type 0 where
  pub event : RevenueEvent
  pub idempotency_key : String
  pub merchant_reference : String
  pub customer_reference : String
  pub customer_masked_reference : String
  pub consent_email : String
  pub consent_sms : String
  pub consent_voice : String
  pub customer_email : Option String
  pub customer_phone : Option String

pub record IngestionResult : Type 0 where
  pub event : RevenueEvent
  pub qualification : QualificationResult
  pub revenue_case : Option RecoveryCase
  pub correlation_id : String
  pub idempotent_replay : Bool

-- `MerchantNotFound`, `ConcurrencyConflictError`, and a unique constraint other than that of the key.
pub data IngestionError : Type 0 where
  merchant_not_found concurrency_conflict unique_violation : IngestionError

-- `demo_config` is there where `ALLOW_DEMO_ENTITY_CREATION` is `true`. The ids are the generated ones.
pub record IngestionSurroundings : Type 0 where
  pub qualify : RevenueEvent → MerchantConfig → String → QualificationResult
  pub demo_config : Option MerchantRecoveryPolicyConfig
  pub encrypt : String → String
  pub merchant_id : String
  pub customer_id : String
  pub event_id : String
  pub case_id : String
  pub now : ℕ

-- The configuration that every merchant's events are qualified with.
abbrev pub ingestion_config : MerchantConfig
ingestion_config = record {
  supported_event_types =
      payment_failed ∷ subscription_failed ∷ invoice_overdue ∷ checkout_abandoned ∷ [];
  minimum_amount_minor = pos 100;
  event_max_age_hours = 24;
  excluded_merchant_segments = [];
  supported_currencies = "INR" ∷ "USD" ∷ [];
}

abbrev segment_or_default : Option MerchantRow → String
segment_or_default none = "default"
segment_or_default (some m) = m.segment

-- The event that a replay answers with: the stored one, without its failure reason.
abbrev pub heuristic_event : EventRow → RevenueEvent
heuristic_event e = record e.event { failure_reason = none }

abbrev pub find_case_of_event : String → Database → Option CaseRow
find_case_of_event event_id db = find_row (λ (r : CaseRow). r.source_event_id) event_id db.cases

-- Step 1, for an event that is there.
unfoldable pub replay : IngestionSurroundings → EventRow → Database → IngestionResult
replay env e db = record {
  event = heuristic_event e;
  qualification =
      env.qualify (heuristic_event e) ingestion_config
        (segment_or_default (find_merchant e.event.merchant_id db));
  revenue_case = Option.map to_recovery_case (find_case_of_event e.event.event_id db);
  correlation_id = e.event.correlation_id;
  idempotent_replay = true;
}

abbrev demo_merchant : IngestionSurroundings → String → MerchantRecoveryPolicyConfig → MerchantRow
demo_merchant env reference config = record {
  id = env.merchant_id;
  external_reference = reference;
  segment = "subscription";
  config = config;
}

-- Step 2.
unfoldable pub resolve_merchant :
    IngestionSurroundings → String → Database → Result IngestionError (MerchantRow × Database)
resolve_merchant env reference db =
    elim (find_row (λ (m : MerchantRow). m.external_reference) reference db.merchants) [
      | some m ↦ ok (m, db)
      | none ↦ elim env.demo_config [
        | none ↦ err merchant_not_found
        | some config ↦ ok (
          demo_merchant env reference config,
          record db { merchants = db.merchants ++ demo_merchant env reference config ∷ [] },
        )
      ]
    ]

abbrev pub is_customer : String → String → CustomerRow → Bool
is_customer merchant_id reference r =
    str_eq r.merchant_id merchant_id && str_eq r.external_reference reference

abbrev new_customer : IngestionSurroundings → IngestionCommand → MerchantRow → CustomerRow
new_customer env command merchant = record {
  id = env.customer_id;
  merchant_id = merchant.id;
  external_reference = command.customer_reference;
  display_name_or_masked_reference = command.customer_masked_reference;
  consent_email = command.consent_email;
  consent_sms = command.consent_sms;
  consent_voice = command.consent_voice;
  email_encrypted = Option.map env.encrypt command.customer_email;
  phone_encrypted = Option.map env.encrypt command.customer_phone;
}

-- Step 3.
unfoldable pub resolve_customer :
    IngestionSurroundings → IngestionCommand → MerchantRow → Database → CustomerRow × Database
resolve_customer env command merchant db =
    elim (find (is_customer merchant.id command.customer_reference) db.customers) [
      | some customer ↦ (customer, db)
      | none ↦ (
        new_customer env command merchant,
        record db { customers = db.customers ++ new_customer env command merchant ∷ [] },
      )
    ]

-- The event as it is stored: `event.eventId || generateId('evt')`.
unfoldable pub stored_event :
    IngestionSurroundings → IngestionCommand → MerchantRow → CustomerRow → RevenueEvent
stored_event env command merchant customer = record command.event {
  event_id = if str_eq command.event.event_id "" then env.event_id else command.event.event_id;
  merchant_id = merchant.id;
  customer_id = customer.id;
}

-- `@id` and `@@unique([merchantId, externalEventId, eventType])`
abbrev pub is_same_event : RevenueEvent → EventRow → Bool
is_same_event e r =
    str_eq r.event.event_id e.event_id
    || str_eq r.event.merchant_id e.merchant_id
      && (str_eq r.event.external_event_id e.external_event_id
          && same_event_type r.event.event_type e.event_type)

abbrev pub ingestion_audit :
    String
    → String
    → String
    → RevenueEvent
    → Option RevenueCaseState
    → Option RevenueCaseState
    → ℕ
    → AuditRow
ingestion_audit action entity_type entity_id e previous next now = record {
  timestamp = now;
  actor_type = "SYSTEM";
  action = action;
  entity_type = entity_type;
  entity_id = entity_id;
  correlation_id = e.correlation_id;
  previous_state = previous;
  next_state = next;
}

-- Steps 4 and 5. The unique key tells a concurrent ingestion of the same event from another violation.
unfoldable pub create_event : RevenueEvent → String → ℕ → Database → Result IngestionError Database
create_event e key now db =
    if is_some (find_event_by_key key db)
    then err concurrency_conflict
    else if exists (is_same_event e) db.events
    then err unique_violation
    else ok (
        write_audit (ingestion_audit "EVENT_INGESTED" "RevenueEvent" e.event_id e none none now)
          (record db {
            events = db.events ++ record { event = e; ingestion_idempotency_key = key } ∷ [];
          }))
