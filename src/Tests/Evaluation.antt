-- ===== src/Tests/Evaluation.antt =====
-- Runs of the benchmark.
use fin_tech_ai.Base.{◌≡◌, true, false, none, some, [], ◌∷◌, arith, ok}
use fin_tech_ai.Base.Int.{pos}
use fin_tech_ai.Tests.Samples.{sample_env, runner}
use fin_tech_ai.Evaluation.Dataset.{EvaluationCase, timeout_once_then_success}
use fin_tech_ai.Evaluation.Strategies.{StrategyResult}
use fin_tech_ai.Evaluation.Simulation.{EvaluationSurroundings, evaluate}
use fin_tech_ai.Evaluation.Simulation.Outcome.{IsReport, evaluate_total}
use fin_tech_ai.Evaluation.Metrics.{EvaluationMetrics, run_evaluation}
use fin_tech_ai.Evaluation.Metrics.Totals.{no_cases, one_more, IsComparison, run_evaluation_passes}

abbrev timeout_case : EvaluationCase
timeout_case = record {
  scenario_id = "SCN_BANK_TIMEOUT";
  source_event = record {
    event_id = "evt_1";
    event_type = "payment.failed";
    amount_minor = pos 25000;
    currency = "INR";
    failure_reason = some "SCN_BANK_TIMEOUT";
  };
  merchant_policy_reference = "pol_default";
  masked_customer_reference = "cust_1";
  known_allowed_channels = "SMS" ∷ [];
  event_timestamp = 1000000000;
  ground_truth = record {
    recoverable = true;
    successful_interventions = "RETRY_PAYMENT" ∷ [];
    unsuccessful_interventions = [];
    expected_recovery_amount_minor = pos 25000;
    minimum_attempts = 2;
    maximum_attempts = 3;
    provider_scenario = timeout_once_then_success;
    unsafe_conditions = none;
    expected_escalation = false;
    expected_stop = false;
  };
}

abbrev offline : EvaluationSurroundings
offline = record {
  graph = runner;
  planning = λ i. sample_env;
  live = false;
  drafts = λ i. none;
  now = 1000001000;
}

evaluate_total_example :
    (r : StrategyResult) × (evaluate offline timeout_case ≡ some (ok r)) × IsReport timeout_case r
evaluate_total_example = evaluate_total offline timeout_case

run_evaluation_passes_example :
    (m : EvaluationMetrics) × (run_evaluation (λ i. offline) 5 (timeout_case ∷ []) ≡ some (ok m))
    × IsComparison (timeout_case ∷ []) m
run_evaluation_passes_example =
    run_evaluation_passes (λ i. offline) 5 (timeout_case ∷ []) (one_more (omega arith) no_cases)
