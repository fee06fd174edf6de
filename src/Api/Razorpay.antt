-- ===== src/Api/Razorpay.antt =====
-- apps/api/src/modules/events/razorpay-events.processor.ts: what a webhook of the payment provider does to its
-- case. `seen` is the database that the job reads, `db` the one that it writes to. The text `UNKNOWN` for
-- a state in the log is kept as none.
use fin_tech_ai.Base.{
  ℕ, Bool, ◌||◌, Option, none, some, str_eq, String, if◌then◌else◌, Result, ok, err,
}
use fin_tech_ai.Domain.Dunning.{Surroundings}
use fin_tech_ai.Domain.Dunning.Runner.{GraphRunner}
use fin_tech_ai.Persistence.Rows.{
  CaseRow, MerchantRow, AuditRow, Database, find_case, find_merchant, write_audit,
}
use fin_tech_ai.Persistence.Captures.{is_finished, CaptureError, capture_payment}
use fin_tech_ai.Api.Planning.{ApiError, PlanDecisionResponse, create_plan}

-- The parts of the body that are read: the event's type, and the case of the payment's or the order's notes,
-- with an empty text as none.
pub record RazorpayPayload : Type 0 where
  pub event : String
  pub case_id : Option String

pub data RazorpayError : Type 0 where
  captured_error : CaptureError → RazorpayError
  planning_error : ApiError → RazorpayError

pub data RazorpayResult : Type 0 where
  ignored_missing_case_id ignored_case_not_found already_terminal succeeded : RazorpayResult

abbrev failure_audit : String → ℕ → AuditRow
failure_audit case_id now = record {
  timestamp = now;
  actor_type = "SYSTEM";
  action = "WEBHOOK_PROCESSING_FAILED";
  entity_type = "REVENUE_CASE";
  entity_id = case_id;
  correlation_id = "unknown";
  previous_state = none;
  next_state = none;
}

-- The `catch` block: a log entry, and the error goes on.
abbrev pub or_log_failure :
    {E A : Type 0}
    → (E → RazorpayError)
    → (A → RazorpayResult × Database)
    → String
    → ℕ
    → Database
    → Result E A
    → Result RazorpayError RazorpayResult × Database
or_log_failure wrap answer case_id now db (err e) =
    (err (wrap e), write_audit (failure_audit case_id now) db)
or_log_failure wrap answer case_id now db (ok a) = (ok (answer a).0, (answer a).1)

-- `config.policyVersion || '1.0'`
abbrev version_or_default : Option MerchantRow → String
version_or_default none = "1.0"
version_or_default (some m) =
    if str_eq m.config.policy_version "" then "1.0" else m.config.policy_version

abbrev is_capture : String → Bool
is_capture event = str_eq event "payment.captured" || str_eq event "order.paid"

unfoldable pub process_for_case :
    GraphRunner
    → Surroundings
    → String
    → CaseRow
    → ℕ
    → Database
    → Database
    → Result RazorpayError RazorpayResult × Database
process_for_case graph env event rev_case now seen db =
    if is_capture event
    then or_log_failure captured_error
        (λ after. (if is_finished rev_case.state then already_terminal else succeeded, after))
        rev_case.id now db (capture_payment rev_case now db)
    else if str_eq event "payment.failed"
    then or_log_failure planning_error (λ (p : PlanDecisionResponse × Database). (succeeded, p.1))
        rev_case.id now db
        (create_plan graph env rev_case.id
          (version_or_default (find_merchant rev_case.merchant_id seen))
          (some rev_case.correlation_id) now seen db)
    else (ok succeeded, db)

-- `RazorpayEventsProcessor.process`
unfoldable pub process_webhook :
    GraphRunner
    → Surroundings
    → RazorpayPayload
    → ℕ
    → Database
    → Database
    → Result RazorpayError RazorpayResult × Database
process_webhook graph env payload now seen db = elim payload.case_id [
  | none ↦ (ok ignored_missing_case_id, db)
  | some case_id ↦ elim (find_case case_id seen) [
    | none ↦ (ok ignored_case_not_found, db)
    | some rev_case ↦ process_for_case graph env payload.event rev_case now seen db
  ]
]
