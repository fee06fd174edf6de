-- ===== src/Tests/Samples.antt =====
-- A failed payment of 50 rupees, its merchant's policy, and the database that holds them.
use fin_tech_ai.Base.{◌+◌, refl, true, false, none, some, [], ◌∷◌}
use fin_tech_ai.Base.Int.{pos}
use fin_tech_ai.Contracts.{
  network_error, policy_approved, payment_link, payment_failed, RecoveryPlan,
  MerchantRecoveryPolicyConfig, detected, payment_retry, RevenueEvent, ActiveInterventionSummary,
  Money, RevenueCaseState, RecoveryCase,
}
use fin_tech_ai.Persistence.Planning.{to_recovery_case}
use fin_tech_ai.Persistence.Rows.{InterventionStatus, Database, CaseRow, InterventionRow}
use fin_tech_ai.Domain.Planning.{PlanProposalInput}
use fin_tech_ai.Domain.Dunning.{Surroundings}
use fin_tech_ai.Domain.Dunning.Runner.{GraphRunner, run_nodes}

abbrev pub fifty_rupees : Money
fifty_rupees = record { amount_minor = pos 5000; currency = "INR" }

abbrev pub sample_event : RevenueEvent
sample_event = record {
  event_id = "event-1";
  external_event_id = "pay-1";
  merchant_id = "merchant-1";
  customer_id = "customer-1";
  event_type = payment_failed;
  occurred_at = 0;
  amount = fifty_rupees;
  failure_reason = some network_error;
  correlation_id = "corr-1";
  raw_payload_version = "1";
  metadata = record { customer_consents = none; contact_window = none };
}

abbrev pub sample_policy : MerchantRecoveryPolicyConfig
sample_policy = record {
  merchant_id = "merchant-1";
  policy_version = "v1";
  enabled = true;
  allowed_intervention_types = payment_retry ∷ payment_link ∷ [];
  max_attempts_per_case = 3;
  max_retry_amount_minor = pos 10000;
  minimum_recovery_score = 50;
  manual_approval_above_amount_minor = pos 100000;
  contact_rules = record {
    max_messages_per_customer_window = 3;
    message_window_hours = 24;
    required_consent_channels = [];
  };
  stale_event_limit_hours = 72;
  supported_currencies = some ("INR" ∷ []);
  allow_cross_border = none;
  updated_at = 0;
}

abbrev pub sample_row : CaseRow
sample_row = record {
  id = "case-1";
  source_event_id = "event-1";
  merchant_id = "merchant-1";
  customer_id = "customer-1";
  amount_at_risk_minor = pos 5000;
  currency = "INR";
  state = detected;
  attempt_count = 0;
  version = 1;
  correlation_id = "corr-1";
  created_at = 0;
  updated_at = 0;
  terminal_at = none;
}

abbrev pub row_in : RevenueCaseState → CaseRow
row_in s = record sample_row { state = s }

abbrev pub sample_case : RecoveryCase
sample_case = to_recovery_case sample_row

abbrev pub nothing_active : ActiveInterventionSummary
nothing_active = record {
  has_active_payment_retry = false;
  has_active_payment_link = false;
  has_active_communication = false;
}

abbrev pub sample_input : PlanProposalInput
sample_input = record {
  rev_case = sample_case;
  source_event = sample_event;
  merchant_policy = sample_policy;
  active_intervention_summary = nothing_active;
  now = 1000;
}

abbrev pub sample_env : Surroundings
sample_env = record {
  ml_response = none;
  plan_id = "plan-1";
  link_id = "link-1";
  next_payday = λ t. t + 86400000;
}

unfoldable pub runner : GraphRunner
unfolding run_nodes
runner = record { invoke = run_nodes; invoke-nil = λ s. refl; invoke-cons = λ n ns s. refl }

abbrev pub empty_db : Database
empty_db = record {
  cases = [];
  events = [];
  merchants = [];
  customers = [];
  plans = [];
  interventions = [];
  outcomes = [];
  outbox = [];
  audit_log = [];
}

abbrev pub db_with : CaseRow → Database
db_with row = record empty_db {
  cases = row ∷ [];
  events = record { event = sample_event; ingestion_idempotency_key = "key-1" } ∷ [];
  merchants =
      record {
        id = "merchant-1";
        external_reference = "shop-1";
        segment = "subscription";
        config = sample_policy;
      }
      ∷ [];
}

abbrev pub sample_plan : RecoveryPlan
sample_plan = record {
  plan_id = "plan-1";
  case_id = "case-1";
  intervention_type = payment_retry;
  planned_at = 1000;
  reason_codes = [];
  policy_version = "v1";
  requires_human_approval = false;
  idempotency_key = "case-1_v1_PAYMENT_RETRY_1";
  payment_link_id = none;
  plan_status = policy_approved;
}

abbrev pub sample_intervention : InterventionRow
sample_intervention = record {
  id = "int-1";
  plan_id = "plan-1";
  case_id = "case-1";
  intervention_type = payment_retry;
  status = InterventionStatus.pending;
  idempotency_key = "plan-1-PAYMENT_RETRY-1";
  attempt_number = 1;
  correlation_id = "corr-1";
  locked_at = some 1000;
  locked_by = some "worker-1";
  execution_completed_at = none;
  external_reference = none;
  failure_code = none;
  retry_after = none;
}

abbrev pub db_executing : RevenueCaseState → Database
db_executing s = record (db_with (row_in s)) {
  interventions = sample_intervention ∷ [];
  plans = record { plan = sample_plan; correlation_id = "corr-1" } ∷ [];
}
