-- ===== src/Persistence/Ingestion.antt =====
-- libs/persistence/src/repositories/prisma/ingestion.ts: an event comes in, and opens or recovers a case. A
-- transaction that throws leaves the database as it was. The event that its first read found is an argument
-- of `ingest_from`: under read committed another transaction may have written it since. Generated ids, the
-- clock, the encryption of personal data and the configuration that a demo merchant is given are parameters.
pub mod Effects
pub mod Cases
use fin_tech_ai.Base.{
  ℕ, ◌+◌, Bool, true, false, not, ◌&&◌, ◌||◌, Option, none, some, [], ◌∷◌, ◌++◌, str_eq, String,
  if◌then◌else◌, is_some, exists, find, Result, ok, err, ◌>>=◌, find_row, update_row,
}
use mathlib.Core.List
use mathlib.Core.Option
use fin_tech_ai.Base.Int.{pos}
use fin_tech_ai.Contracts.{
  RevenueCaseState, same_state, recovered, RevenueEvent, payment_failed, subscription_failed,
  invoice_overdue, checkout_abandoned, payment_recovered, same_event_type,
  MerchantRecoveryPolicyConfig, RecoveryCase,
}
use fin_tech_ai.Domain.Qualification.{MerchantConfig, QualificationResult}
use fin_tech_ai.Persistence.Rows.{
  CaseRow, EventRow, MerchantRow, CustomerRow, AuditRow, Database, find_event_by_key, find_merchant,
  write_audit,
}
use fin_tech_ai.Persistence.Planning.{to_recovery_case}
use fin_tech_ai.Persistence.Intake.{
  IngestionCommand, IngestionError, IngestionResult, IngestionSurroundings, create_event,
  ingestion_audit, ingestion_config, replay, resolve_customer, resolve_merchant, stored_event,
  unique_violation,
}

-- `notIn: ['RECOVERED', 'CLOSED', 'ABANDONED']`, of which the states have the first alone.
abbrev pub is_recoverable : RevenueEvent → CaseRow → Bool
is_recoverable e r =
    str_eq r.merchant_id e.merchant_id
    && (str_eq r.customer_id e.customer_id && not (same_state r.state recovered))

-- The newest case of the customer: the rows are in the order of creation.
unfoldable pub find_active_case : RevenueEvent → Database → Option CaseRow
find_active_case e db = find (is_recoverable e) (List.reverse db.cases)

abbrev pub recovered_at : ℕ → CaseRow → CaseRow
recovered_at now r = record r {
  state = recovered;
  terminal_at = some now;
  version = r.version + 1;
  updated_at = now;
}

-- Step 7 for `PAYMENT_RECOVERED`.
unfoldable pub recover_case : RevenueEvent → ℕ → Database → Option RecoveryCase × Database
recover_case e now db = elim (find_active_case e db) [
  | none ↦ (none, db)
  | some r ↦ (
    some (to_recovery_case (recovered_at now r)),
    write_audit
        (ingestion_audit "CASE_RECOVERED_BY_EVENT" "RevenueCase" r.id e (some r.state)
          (some recovered) now)
        (record db {
          cases = update_row (λ (r : CaseRow). r.id) r.id (λ _. true) (recovered_at now) db.cases;
        }),
  )
]

abbrev pub is_same_case : CaseRow → CaseRow → Bool
is_same_case new r = str_eq r.id new.id || str_eq r.source_event_id new.source_event_id

-- Step 7 for an eligible event.
unfoldable pub create_case : CaseRow → RevenueEvent → Database → Result IngestionError Database
create_case new e db =
    if exists (is_same_case new) db.cases
    then err unique_violation
    else ok (
        write_audit
          (ingestion_audit "CASE_CREATED" "RevenueCase" new.id e none (some new.state)
            new.created_at)
          (record db { cases = db.cases ++ new ∷ [] }))

abbrev pub new_case : IngestionSurroundings → RevenueEvent → QualificationResult → Option CaseRow
new_case env e q = elim q.amount_at_risk [
  | none ↦ none
  | some amount ↦ elim q.initial_state [
    | none ↦ none
    | some state ↦
        if not q.should_create_case
        then none
        else some (record {
          id = env.case_id;
          source_event_id = e.event_id;
          merchant_id = e.merchant_id;
          customer_id = e.customer_id;
          amount_at_risk_minor = amount.amount_minor;
          currency = amount.currency;
          state = state;
          attempt_count = 0;
          version = 1;
          correlation_id = e.correlation_id;
          created_at = env.now;
          updated_at = env.now;
          terminal_at = none;
        })
  ]
]

-- Step 7.
unfoldable pub settle_event :
    IngestionSurroundings
    → RevenueEvent
    → QualificationResult
    → Database
    → Result IngestionError (Option RecoveryCase × Database)
settle_event env e q db =
    if same_event_type e.event_type payment_recovered
    then ok (recover_case e env.now db)
    else elim (new_case env e q) [
      | none ↦ ok (none, db)
      | some new ↦ create_case new e db >>= λ db'. ok (some (to_recovery_case new), db')
    ]

-- Steps 2 to 7.
unfoldable pub ingest_new :
    IngestionSurroundings
    → IngestionCommand
    → Database
    → Result IngestionError (IngestionResult × Database)
ingest_new env command db = do
  (merchant, with_merchant) ← resolve_merchant env command.merchant_reference db
  let (customer, with_customer) = resolve_customer env command merchant with_merchant
  let e = stored_event env command merchant customer
  with_event ← create_event e command.idempotency_key env.now with_customer
  let q = env.qualify e ingestion_config merchant.segment
  (revenue_case, after) ← settle_event env e q with_event
  ok (
    record {
      event = e;
      qualification = q;
      revenue_case = revenue_case;
      correlation_id = e.correlation_id;
      idempotent_replay = false;
    },
    after,
  )

unfoldable pub ingest_from :
    Option EventRow
    → IngestionSurroundings
    → IngestionCommand
    → Database
    → Result IngestionError (IngestionResult × Database)
ingest_from none env command db = ingest_new env command db
ingest_from (some e) env command db = ok (replay env e db, db)

unfoldable pub ingest_event_and_create_case_if_eligible :
    IngestionSurroundings
    → IngestionCommand
    → Database
    → Result IngestionError (IngestionResult × Database)
ingest_event_and_create_case_if_eligible env command db =
    ingest_from (find_event_by_key command.idempotency_key db) env command db
