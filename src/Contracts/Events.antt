-- ===== src/Contracts/Events.antt =====
-- libs/contracts/src/events.ts: revenue events. `other_type` and `other_reason` hold a string outside the
-- enum, which the casts of the program let through. Metadata holds the keys that the program reads.
use fin_tech_ai.Base.{ℕ, Bool, ◌==◌, str_eq, Option, String}
use fin_tech_ai.Contracts.Case.{Money}

-- `EventType`
pub data EventType : Type 0 where
  payment_failed checkout_abandoned subscription_failed invoice_overdue : EventType
  payment_recovered payment_status_updated : EventType
  other_type : String → EventType

abbrev pub index_event_type : EventType → ℕ
index_event_type payment_failed = 0
index_event_type checkout_abandoned = 1
index_event_type subscription_failed = 2
index_event_type invoice_overdue = 3
index_event_type payment_recovered = 4
index_event_type payment_status_updated = 5
index_event_type (other_type _) = 6

-- `===` on event types: two strings outside the enum are compared as strings.
abbrev pub same_event_type : EventType → EventType → Bool
same_event_type (other_type s) (other_type t) = str_eq s t
same_event_type a b = index_event_type a == index_event_type b

-- `PaymentFailureReason`
pub data PaymentFailureReason : Type 0 where
  insufficient_funds bank_timeout network_error authentication_required : PaymentFailureReason
  payment_method_declined mandate_failed suspected_fraud unknown : PaymentFailureReason
  other_reason : String → PaymentFailureReason

-- `metadata.customerConsents`: a text, which has no fields `email`, `sms` and `voice`, or an object.
pub data CustomerConsents : Type 0 where
  consents_text : String → CustomerConsents
  consents_object : Option Bool → Option Bool → Option Bool → CustomerConsents

-- `metadata.contactWindowMetadataJson` as `JSON.parse` reads it: refused, or an object with
-- `attemptsToday`.
pub data ContactWindow : Type 0 where
  unreadable : ContactWindow
  attempts_today : Option ℕ → ContactWindow

pub record EventMetadata : Type 0 where
  pub customer_consents : Option CustomerConsents
  pub contact_window : Option ContactWindow

pub record RevenueEvent : Type 0 where
  pub event_id : String
  pub external_event_id : String
  pub merchant_id : String
  pub customer_id : String
  pub event_type : EventType
  pub occurred_at : ℕ
  pub amount : Money
  pub failure_reason : Option PaymentFailureReason
  pub correlation_id : String
  pub raw_payload_version : String
  pub metadata : EventMetadata
