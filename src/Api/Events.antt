-- ===== src/Api/Events.antt =====
-- apps/api/src/modules/events/events.service.ts and ingestion.processor.ts: an event that comes in over the
-- API. The hash that makes a correlation id is a parameter, as are the surroundings of the repository.
pub mod Opening
use fin_tech_ai.Base.{
  ℕ, zero, suc, ◌+◌, ◌*◌, ◌≤◌, ◌<◌, ◌≡◌, ◌≢◌, refl, sym, ◌∙◌, inl, inr, Bool, true, false, not,
  ◌&&◌, ◌||◌, Option, none, some, List, [], ◌∷◌, ◌++◌, map, arith, str_eq, eq_iff, String, leb, ltb,
  ◌==◌, join_text, show_number, if◌then◌else◌, Bool-cases, Option-cases, is_some, length, keep,
  exists, find, Result, ok, err, ◌>>=◌, value_or, find_row, update_row, matches, update_all,
}
use fin_tech_ai.Base.{join_text}
use fin_tech_ai.Base.Int.{ℤ}
use fin_tech_ai.Contracts.{
  EventType, PaymentFailureReason, EventMetadata, RevenueEvent, RecoveryCase, same_state, recovered,
}
use fin_tech_ai.Domain.Qualification.{QualificationReason, qualify_revenue_event}
use fin_tech_ai.Persistence.Rows.{Database}
use fin_tech_ai.Persistence.Intake.{
  IngestionSurroundings, IngestionCommand, IngestionResult, IngestionError, concurrency_conflict,
  merchant_not_found, unique_violation,
}
use fin_tech_ai.Persistence.Ingestion.{ingest_event_and_create_case_if_eligible}

-- A valid body: the amount is the number that its digits denote. The merchant's name and segment, which are
-- not read, are left out.
pub record IngestEventDto : Type 0 where
  pub external_event_id : String
  pub merchant_reference : String
  pub customer_reference : String
  pub customer_masked_reference : String
  pub consent_email : String
  pub consent_sms : String
  pub consent_voice : String
  pub customer_email : Option String
  pub customer_phone : Option String
  pub event_type : EventType
  pub occurred_at : ℕ
  pub amount_minor : ℤ
  pub currency : String
  pub failure_reason : Option PaymentFailureReason
  pub metadata : Option EventMetadata

-- `dto.metadata || {}`
abbrev metadata_or_empty : Option EventMetadata → EventMetadata
metadata_or_empty none = record { customer_consents = none; contact_window = none }
metadata_or_empty (some m) = m

-- The event has no id, merchant or customer yet: `undefined` is the empty text.
unfoldable pub ingestion_command : (String → String) → IngestEventDto → String → IngestionCommand
ingestion_command hash dto key = record {
  event = record {
    event_id = "";
    external_event_id = dto.external_event_id;
    merchant_id = "";
    customer_id = "";
    event_type = dto.event_type;
    occurred_at = dto.occurred_at;
    amount = record { amount_minor = dto.amount_minor; currency = dto.currency };
    failure_reason = dto.failure_reason;
    correlation_id = hash (join_text (dto.external_event_id ∷ "-" ∷ key ∷ []));
    raw_payload_version = "1.0";
    metadata = metadata_or_empty dto.metadata;
  };
  idempotency_key = key;
  merchant_reference = dto.merchant_reference;
  customer_reference = dto.customer_reference;
  customer_masked_reference = dto.customer_masked_reference;
  consent_email = dto.consent_email;
  consent_sms = dto.consent_sms;
  consent_voice = dto.consent_voice;
  customer_email = dto.customer_email;
  customer_phone = dto.customer_phone;
}

pub record IngestEventResponse : Type 0 where
  pub success : Bool
  pub correlation_id : String
  pub idempotent_replay : Bool
  pub eligible : Bool
  pub reasons : List QualificationReason
  pub case_created : Bool
  pub case_recovered : Bool
  pub case_id : Option String

abbrev is_recovered_case : Option RecoveryCase → Bool
is_recovered_case none = false
is_recovered_case (some c) = same_state c.state recovered

abbrev id_of_case : Option RecoveryCase → Option String
id_of_case none = none
id_of_case (some c) = some c.case_id

abbrev pub to_event_response : IngestionResult → IngestEventResponse
to_event_response r =
    let recovered_case = is_recovered_case r.revenue_case in
    record {
      success = true;
      correlation_id = r.correlation_id;
      idempotent_replay = r.idempotent_replay;
      eligible = r.qualification.eligible;
      reasons = r.qualification.reason_codes;
      case_created = is_some r.revenue_case && (not recovered_case && not r.idempotent_replay);
      case_recovered = recovered_case;
      case_id = id_of_case r.revenue_case;
    }

-- The repository is given the domain's qualification.
abbrev pub qualifying : IngestionSurroundings → IngestionSurroundings
qualifying env = record env {
  qualify = λ e config segment. qualify_revenue_event e config segment env.now;
}

unfoldable pub ingest_event :
    (String → String)
    → IngestionSurroundings
    → IngestEventDto
    → String
    → Database
    → Result IngestionError (IngestEventResponse × Database)
ingest_event hash env dto key db =
    ingest_event_and_create_case_if_eligible (qualifying env) (ingestion_command hash dto key) db
    >>= λ p. ok (to_event_response p.0, p.1)

-- What the job of the ingestion queue returns.
pub data IngestionJobResult : Type 0 where
  ingested : IngestEventResponse → IngestionJobResult
  ignored_duplicate : IngestionJobResult

-- `IngestionProcessor.process`: a concurrent duplicate is ignored, other errors fail the job.
unfoldable pub process_ingestion :
    (String → String)
    → IngestionSurroundings
    → IngestEventDto
    → String
    → Database
    → Result IngestionError (IngestionJobResult × Database)
process_ingestion hash env dto event_id db = elim (ingest_event hash env dto event_id db) [
  | ok (response, db') ↦ ok (ingested response, db')
  | err concurrency_conflict ↦ ok (ignored_duplicate, db)
  | err merchant_not_found ↦ err merchant_not_found
  | err unique_violation ↦ err unique_violation
]
