-- ===== src/Evaluation/Strategies.antt =====
-- libs/evaluation/src/baselines/strategy.ts, baseline0.ts and baseline1.ts: what a strategy reports of a
-- case, and the two simpler strategies.
use fin_tech_ai.Base.{ℕ, ◌+◌, Bool, true, false, not, ◌==◌, if◌then◌else◌, length}
use fin_tech_ai.Base.Int.{ℤ, pos}
use fin_tech_ai.Evaluation.Dataset.{
  EvaluationCase, ProviderScenario, success, timeout_once_then_success, permanent_failure,
  invalid_response, payment_link_paid_after_event, no_customer_response,
}

pub record StrategyResult : Type 0 where
  pub interventions_attempted : ℕ
  pub interventions_succeeded : ℕ
  pub false_intervention_count : ℕ
  pub recovered_amount_minor : ℤ
  pub is_recovered : Bool
  pub policy_blocks : ℕ
  pub escalations : ℕ
  pub stops : ℕ
  pub unsafe_actions_prevented : ℕ
  pub stale_actions_prevented : ℕ
  pub consent_blocks : ℕ
  pub idempotent_replays : ℕ
  pub provider_timeouts : ℕ
  pub provider_retries : ℕ
  pub provider_final_failures : ℕ
  pub workflow_failures : ℕ
  pub ai_requests : ℕ
  pub ai_fallbacks : ℕ

-- The report on a case that nothing was done about.
abbrev pub nothing_done : StrategyResult
nothing_done = record {
  interventions_attempted = 0;
  interventions_succeeded = 0;
  false_intervention_count = 0;
  recovered_amount_minor = pos 0;
  is_recovered = false;
  policy_blocks = 0;
  escalations = 0;
  stops = 0;
  unsafe_actions_prevented = 0;
  stale_actions_prevented = 0;
  consent_blocks = 0;
  idempotent_replays = 0;
  provider_timeouts = 0;
  provider_retries = 0;
  provider_final_failures = 0;
  workflow_failures = 0;
  ai_requests = 0;
  ai_fallbacks = 0;
}

-- `Baseline0Strategy.evaluate`: no case is taken to recover by itself.
unfoldable pub baseline0 : EvaluationCase → StrategyResult
baseline0 c = nothing_done

abbrev pub recovered_all : EvaluationCase → StrategyResult → StrategyResult
recovered_all c r = record r {
  interventions_succeeded = r.interventions_succeeded + 1;
  is_recovered = true;
  recovered_amount_minor = c.source_event.amount_minor;
}

-- The `switch` on the scenario, after the first attempt.
unfoldable pub simulate_provider :
    EvaluationCase → ProviderScenario → StrategyResult → StrategyResult
simulate_provider c success r = recovered_all c r
simulate_provider c payment_link_paid_after_event r = recovered_all c r
simulate_provider c timeout_once_then_success r = recovered_all c (record r {
  provider_timeouts = r.provider_timeouts + 1;
  interventions_attempted = r.interventions_attempted + 1;
  provider_retries = r.provider_retries + 1;
})
simulate_provider c permanent_failure r = record r {
  provider_final_failures = r.provider_final_failures + 1;
}
simulate_provider c invalid_response r = record r {
  provider_final_failures = r.provider_final_failures + 1;
}
simulate_provider c no_customer_response r = record r {
  interventions_succeeded = r.interventions_succeeded + 1;
}

-- `Baseline1Strategy.evaluate`
unfoldable pub baseline1 : EvaluationCase → StrategyResult
unfolding simulate_provider
baseline1 c =
    let attempted = record nothing_done { interventions_attempted = 1 } in
    if length c.known_allowed_channels == 0
    then nothing_done
    else if not c.ground_truth.recoverable
    then record attempted { false_intervention_count = 1; provider_final_failures = 1 }
    else simulate_provider c c.ground_truth.provider_scenario attempted
