-- ===== src/Persistence/Planning.antt =====
-- libs/persistence/src/repositories/prisma/planning.ts. As in Execution, a transaction that throws leaves
-- the database as it was, and what it reads at its start is an argument of its `_from` part.
pub mod Plans
use fin_tech_ai.Domain.Errors.{plain_error, DomainError}
use fin_tech_ai.Contracts.{
  payment_link, payment_retry, stopped, same_intervention, escalated, InterventionType,
  policy_approved, policy_checked, queued, same_state, MerchantRecoveryPolicyConfig,
  same_plan_status, RevenueEvent, ActiveInterventionSummary, RecoveryCase, RevenueCaseState,
  RecoveryPlan,
}
use fin_tech_ai.Base.{
  ℕ, zero, suc, ◌+◌, ◌*◌, ◌≤◌, ◌<◌, ◌≡◌, ◌≢◌, refl, sym, ◌∙◌, inl, inr, Bool, true, false, not,
  ◌&&◌, ◌||◌, Option, none, some, List, [], ◌∷◌, ◌++◌, map, arith, str_eq, eq_iff, String, leb, ltb,
  ◌==◌, if◌then◌else◌, Bool-cases, Option-cases, is_some, length, keep, exists, find, Result, ok,
  err, ◌>>=◌, value_or, find_row, update_row, matches, update_all,
}
use mathlib.Core.List
use mathlib.Core.Option
use fin_tech_ai.Domain.Policy.{is_reminder}
use fin_tech_ai.Persistence.Rows.{
  write_audit, MerchantRow, EventRow, find_event, find_merchant, case_updated, OutboxStatus,
  InterventionRow, find_case, moved_to, OutboxRow, update_case, AuditRow, PlanRow, ExecutionJob,
  InterventionStatus, CaseRow, Database,
}

-- `CreatePlanCommand`
pub record CreatePlanCommand : Type 0 where
  pub plan : RecoveryPlan
  pub resulting_case_state : RevenueCaseState

abbrev pub find_plan_by_key : String → Database → Option PlanRow
find_plan_by_key key db = find_row (λ (r : PlanRow). r.plan.idempotency_key) key db.plans

unfoldable pub find_plan_by_idempotency_key : String → Database → Option RecoveryPlan
find_plan_by_idempotency_key key db = Option.map (λ (r : PlanRow). r.plan) (find_plan_by_key key db)

abbrev planning_audit : String → CaseRow → RevenueCaseState → ℕ → AuditRow
planning_audit action existing next now = record {
  timestamp = now;
  actor_type = "POLICY_ENGINE";
  action = action;
  entity_type = "RevenueCase";
  entity_id = existing.id;
  correlation_id = existing.correlation_id;
  previous_state = some existing.state;
  next_state = some next;
}

-- Step 7.
abbrev policy_audit : RecoveryPlan → CaseRow → ℕ → AuditRow
policy_audit plan existing now = record {
  timestamp = now;
  actor_type = "POLICY_ENGINE";
  action =
      if same_plan_status plan.plan_status policy_approved
      then "POLICY_APPROVED"
      else "POLICY_REJECTED";
  entity_type = "RecoveryPlan";
  entity_id = plan.plan_id;
  correlation_id = existing.correlation_id;
  previous_state = none;
  next_state = none;
}

-- Step 8.
abbrev outcome_audits : RevenueCaseState → CaseRow → ℕ → List AuditRow
outcome_audits next existing now =
    if same_state next escalated
    then planning_audit "CASE_ESCALATED" existing next now ∷ []
    else if same_state next stopped
    then planning_audit "CASE_STOPPED" existing next now ∷ []
    else []

-- Steps 4 to 8, where the case still has the version read.
abbrev pub store_plan : CreatePlanCommand → CaseRow → ℕ → Database → Database
store_plan command existing now db =
    let moved =
      update_case existing.id existing.version
        (moved_to command.resulting_case_state (existing.version + 1) now) db in
    record moved {
      plans =
          db.plans ++ record { plan = command.plan; correlation_id = existing.correlation_id } ∷ [];
      audit_log =
          db.audit_log
          ++ planning_audit "PLAN_PROPOSED" existing command.resulting_case_state now
            ∷ policy_audit command.plan existing now
            ∷ outcome_audits command.resulting_case_state existing now;
    }

unfoldable pub create_plan_from :
    CaseRow → CreatePlanCommand → ℕ → Database → Result DomainError (RecoveryPlan × Database)
create_plan_from existing command now db = elim (find_plan_by_key command.plan.idempotency_key db) [
  | some row ↦ ok (row.plan, db)
  | none ↦
      if not (case_updated existing.id existing.version db)
      then err (plain_error "Optimistic concurrency failure: Case was updated by another process.")
      else if is_some (find_row (λ (r : PlanRow). r.plan.plan_id) command.plan.plan_id db.plans)
      then err (plain_error "Unique constraint failed")
      else ok (command.plan, store_plan command existing now db)
]

unfoldable pub create_plan_with_planning_outcome :
    CreatePlanCommand → ℕ → Database → Result DomainError (RecoveryPlan × Database)
create_plan_with_planning_outcome command now db = elim (find_case command.plan.case_id db) [
  | none ↦ err (plain_error "Case not found")
  | some existing ↦ create_plan_from existing command now db
]

-- The rows are in the order of creation, and the newest comes first.
unfoldable pub list_plans_for_case : String → Database → List RecoveryPlan
list_plans_for_case case_id db =
    List.reverse (
      map (λ (r : PlanRow). r.plan)
        (keep (λ (r : PlanRow). str_eq r.plan.case_id case_id) db.plans))

abbrev pub to_recovery_case : CaseRow → RecoveryCase
to_recovery_case r = record {
  case_id = r.id;
  source_event_id = r.source_event_id;
  merchant_id = r.merchant_id;
  customer_id = r.customer_id;
  amount_at_risk = record { amount_minor = r.amount_at_risk_minor; currency = r.currency };
  state = r.state;
  attempt_count = r.attempt_count;
  recovery_score = none;
  root_cause = none;
  created_at = r.created_at;
  updated_at = r.updated_at;
  version = r.version;
  correlation_id = r.correlation_id;
}

pub record CaseContext : Type 0 where
  pub rev_case : RecoveryCase
  pub source_event : Option RevenueEvent
  pub merchant_policy : Option MerchantRecoveryPolicyConfig

unfoldable pub get_case_with_source_event_and_merchant_policy :
    String → Database → Option CaseContext
get_case_with_source_event_and_merchant_policy case_id db =
    Option.map
      (λ r. record {
        rev_case = to_recovery_case r;
        source_event = Option.map (λ (e : EventRow). e.event) (find_event r.source_event_id db);
        merchant_policy =
            Option.map (λ (m : MerchantRow). m.config) (find_merchant r.merchant_id db);
      })
      (find_case case_id db)

abbrev pub is_active_status : InterventionStatus → Bool
is_active_status InterventionStatus.queued = true
is_active_status InterventionStatus.executing = true
is_active_status InterventionStatus.retrying = true
is_active_status _ = false

unfoldable pub get_active_intervention_summary : String → Database → ActiveInterventionSummary
get_active_intervention_summary case_id db =
    let active =
      keep (λ (r : InterventionRow). str_eq r.case_id case_id && is_active_status r.status)
        db.interventions in
    let has = λ (t : InterventionType).
      exists (λ (r : InterventionRow). same_intervention r.intervention_type t) active in
    record {
      has_active_payment_retry = has payment_retry;
      has_active_payment_link = has payment_link;
      has_active_communication =
          exists (λ (r : InterventionRow). is_reminder r.intervention_type) active;
    }

abbrev pub find_outbox_by_key : String → Database → Option OutboxRow
find_outbox_by_key key db = find_row (λ (r : OutboxRow). r.idempotency_key) key db.outbox

abbrev pub new_outbox_event : String → String → String → ExecutionJob → ℕ → OutboxRow
new_outbox_event id plan_id key payload now = record {
  id = id;
  aggregate_type = "RecoveryPlan";
  aggregate_id = plan_id;
  event_type = "INTERVENTION_ENQUEUED";
  payload = payload;
  status = OutboxStatus.pending;
  idempotency_key = key;
  attempts = 0;
  available_at = now;
  published_at = none;
  last_error = none;
  locked_at = none;
  locked_by = none;
  created_at = now;
}

abbrev enqueue_audit : CaseRow → String → ℕ → AuditRow
enqueue_audit existing correlation_id now = record {
  timestamp = now;
  actor_type = "SYSTEM";
  action = "INTERVENTION_ENQUEUED";
  entity_type = "RevenueCase";
  entity_id = existing.id;
  correlation_id = correlation_id;
  previous_state = some existing.state;
  next_state = some queued;
}

-- The `NOTIFY` that wakes the publisher is left out: it changes no row.
unfoldable pub enqueue_plan_from :
    CaseRow
    → String
    → String
    → ExecutionJob
    → String
    → String
    → ℕ
    → Database
    → Result DomainError Database
enqueue_plan_from existing plan_id key payload correlation_id id now db =
    if not (same_state existing.state policy_checked)
    then err (plain_error "Case is not in POLICY_CHECKED state")
    else if is_some (find_outbox_by_key key db)
    then ok db
    else if not (case_updated existing.id existing.version db)
    then err (plain_error "Optimistic concurrency failure: Case was updated by another process.")
    else let moved =
        update_case existing.id existing.version (moved_to queued (existing.version + 1) now) db in
      ok (
        write_audit (enqueue_audit existing correlation_id now)
          (record moved { outbox = db.outbox ++ new_outbox_event id plan_id key payload now ∷ [] }))

unfoldable pub enqueue_plan_with_outbox :
    String
    → String
    → String
    → ExecutionJob
    → String
    → String
    → ℕ
    → Database
    → Result DomainError Database
enqueue_plan_with_outbox case_id plan_id key payload correlation_id id now db =
    elim (find_case case_id db) [
      | none ↦ err (plain_error "Case not found")
      | some existing ↦ enqueue_plan_from existing plan_id key payload correlation_id id now db
    ]
