-- ===== src/Persistence/Rows.antt =====
-- libs/persistence/prisma/schema.prisma: the tables, with the columns that the repositories read or
-- write. New rows go to the end, so a table is in the order of creation.
use fin_tech_ai.Base.{
  true, ℕ, Bool, Option, List, [], ◌∷◌, ◌++◌, String, find_row, update_row, ◌==◌, matches,
}
use fin_tech_ai.Base.Int.{ℤ}
use fin_tech_ai.Contracts.{
  RevenueCaseState, RevenueEvent, MerchantRecoveryPolicyConfig, InterventionType, RecoveryPlan,
}

pub record CaseRow : Type 0 where
  pub id : String
  pub source_event_id : String
  pub merchant_id : String
  pub customer_id : String
  pub amount_at_risk_minor : ℤ
  pub currency : String
  pub state : RevenueCaseState
  pub attempt_count : ℕ
  pub version : ℕ
  pub correlation_id : String
  pub created_at : ℕ
  pub updated_at : ℕ
  pub terminal_at : Option ℕ

-- The strings that a row's `status` may hold, or that a query asks for.
pub data InterventionStatus : Type 0 where
  pending succeeded failed retry_scheduled : InterventionStatus
  escalated stopped ambiguous : InterventionStatus
  queued executing retrying : InterventionStatus

pub record InterventionRow : Type 0 where
  pub id : String
  pub plan_id : String
  pub case_id : String
  pub intervention_type : InterventionType
  pub status : InterventionStatus
  pub idempotency_key : String
  pub attempt_number : ℕ
  pub correlation_id : String
  pub locked_at : Option ℕ
  pub locked_by : Option String
  pub execution_completed_at : Option ℕ
  pub external_reference : Option String
  pub failure_code : Option String
  pub retry_after : Option ℕ

-- `interventionId` is unique.
pub record OutcomeRow : Type 0 where
  pub intervention_id : String
  pub status : InterventionStatus
  pub recovered_amount_minor : Option ℤ

pub record PlanRow : Type 0 where
  pub plan : RecoveryPlan
  pub correlation_id : String

pub record EventRow : Type 0 where
  pub event : RevenueEvent
  pub ingestion_idempotency_key : String

-- `config` is the configuration as its text is read.
pub record MerchantRow : Type 0 where
  pub id : String
  pub external_reference : String
  pub segment : String
  pub config : MerchantRecoveryPolicyConfig

pub record CustomerRow : Type 0 where
  pub id : String
  pub merchant_id : String
  pub external_reference : String
  pub display_name_or_masked_reference : String
  pub consent_email : String
  pub consent_sms : String
  pub consent_voice : String
  pub email_encrypted : Option String
  pub phone_encrypted : Option String

-- `RecoveryPlanExecutionJob`
pub record ExecutionJob : Type 0 where
  pub job_id : String
  pub plan_id : String
  pub case_id : String
  pub merchant_id : String
  pub correlation_id : String
  pub plan_idempotency_key : String
  pub requested_at : ℕ
  pub attempt : ℕ

pub data OutboxStatus : Type 0 where
  pending published failed : OutboxStatus

pub record OutboxRow : Type 0 where
  pub id : String
  pub aggregate_type : String
  pub aggregate_id : String
  pub event_type : String
  pub payload : ExecutionJob
  pub status : OutboxStatus
  pub idempotency_key : String
  pub attempts : ℕ
  pub available_at : ℕ
  pub published_at : Option ℕ
  pub last_error : Option String
  pub locked_at : Option ℕ
  pub locked_by : Option String
  pub created_at : ℕ

pub record AuditRow : Type 0 where
  pub timestamp : ℕ
  pub actor_type : String
  pub action : String
  pub entity_type : String
  pub entity_id : String
  pub correlation_id : String
  pub previous_state : Option RevenueCaseState
  pub next_state : Option RevenueCaseState

pub record Database : Type 0 where
  pub cases : List CaseRow
  pub events : List EventRow
  pub merchants : List MerchantRow
  pub customers : List CustomerRow
  pub plans : List PlanRow
  pub interventions : List InterventionRow
  pub outcomes : List OutcomeRow
  pub outbox : List OutboxRow
  pub audit_log : List AuditRow

abbrev pub find_case : String → Database → Option CaseRow
find_case id db = find_row (λ (r : CaseRow). r.id) id db.cases

-- `revenueEvent.findUnique`, by its key and by its id.
abbrev pub find_event_by_key : String → Database → Option EventRow
find_event_by_key key db = find_row (λ (e : EventRow). e.ingestion_idempotency_key) key db.events

abbrev pub find_event : String → Database → Option EventRow
find_event id db = find_row (λ (e : EventRow). e.event.event_id) id db.events

-- `merchant.findUnique`
abbrev pub find_merchant : String → Database → Option MerchantRow
find_merchant id db = find_row (λ (m : MerchantRow). m.id) id db.merchants

abbrev pub find_intervention : String → Database → Option InterventionRow
find_intervention id db = find_row (λ (r : InterventionRow). r.id) id db.interventions

abbrev pub find_intervention_by_key : String → Database → Option InterventionRow
find_intervention_by_key key db =
    find_row (λ (r : InterventionRow). r.idempotency_key) key db.interventions

abbrev pub find_outcome : String → Database → Option OutcomeRow
find_outcome id db = find_row (λ (r : OutcomeRow). r.intervention_id) id db.outcomes

-- `auditLog.create`
abbrev pub write_audit : AuditRow → Database → Database
write_audit row db = record db { audit_log = db.audit_log ++ row ∷ [] }

abbrev pub has_version : ℕ → CaseRow → Bool
has_version v r = r.version == v

-- `revenueCase.updateMany({ where: { id, version }, data })`, and whether its count is above 0.
abbrev pub update_case : String → ℕ → (CaseRow → CaseRow) → Database → Database
update_case id version f db = record db {
  cases = update_row (λ (r : CaseRow). r.id) id (has_version version) f db.cases;
}

abbrev pub case_updated : String → ℕ → Database → Bool
case_updated id version db = matches (has_version version) (find_case id db)

-- `data: { state, version: existingCase.version + 1, updatedAt }`
abbrev pub moved_to : RevenueCaseState → ℕ → ℕ → CaseRow → CaseRow
moved_to state version now r = record r { state = state; version = version; updated_at = now }

-- `intervention.update({ where: { id }, data })`
abbrev pub update_intervention : String → (InterventionRow → InterventionRow) → Database → Database
update_intervention id f db = record db {
  interventions = update_row (λ (r : InterventionRow). r.id) id (λ _. true) f db.interventions;
}
