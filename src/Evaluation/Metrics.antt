-- ===== src/Evaluation/Metrics.antt =====
-- libs/evaluation/src/metrics and apps/evaluator/src/commands/evaluate.ts: the comparison of the strategies
-- over a list of cases. Reading the data set and writing the report are left out.
pub mod Totals
use fin_tech_ai.Base.{
  throw_if, ◌>>◌, ℕ, zero, suc, ◌+◌, ◌*◌, ◌≤◌, ◌<◌, ◌≡◌, ◌≢◌, refl, sym, ◌∙◌, inl, inr, Bool, true,
  false, not, ◌&&◌, ◌||◌, Option, none, some, List, [], ◌∷◌, ◌++◌, map, arith, str_eq, eq_iff,
  String, leb, ltb, ◌==◌, join_text, show_number, if◌then◌else◌, Bool-cases, Option-cases, is_some,
  length, keep, exists, find, Result, ok, err, ◌>>=◌, value_or, find_row, update_row, matches,
  update_all,
}
use fin_tech_ai.Base.Int.{ℤ, pos, ◌+ℤ◌, ◌-ℤ◌, ltb_ℤ}
use fin_tech_ai.Domain.Errors.{DomainError, plain_error}
use fin_tech_ai.Evaluation.Dataset.{EvaluationCase}
use fin_tech_ai.Evaluation.Strategies.{StrategyResult, baseline0, baseline1}
use fin_tech_ai.Evaluation.Simulation.{EvaluationSurroundings, evaluate}

-- The sums of the program, which it takes from the first element on.
unfoldable pub money_of : {A : Type 0} → (A → ℤ) → List A → ℤ
money_of f [] = pos 0
money_of f (x ∷ xs) = f x +ℤ money_of f xs

unfoldable pub count_of : {A : Type 0} → (A → ℕ) → List A → ℕ
count_of f [] = 0
count_of f (x ∷ xs) = f x + count_of f xs

pub record RoiResult : Type 0 where
  pub total_cost_minor : ℕ
  pub net_roi_minor : ℤ
  pub chargeback_count : ℕ

-- `totalCost`, `grossRecovered` and `chargebackCount`.
pub record RoiSums : Type 0 where
  pub total_cost : ℕ
  pub gross_recovered : ℤ
  pub chargebacks : ℕ

abbrev pub cost_per_intervention_minor : ℕ
cost_per_intervention_minor = 50

abbrev pub fraud_chargeback_penalty_minor : ℕ
fraud_chargeback_penalty_minor = 150000

abbrev pub is_chargeback : StrategyResult → EvaluationCase → Bool
is_chargeback r c = str_eq c.scenario_id "SCN_FRAUD_SUSPECTED" && ltb 0 r.interventions_attempted

-- The loop over the results and their cases; a result without a case is skipped.
unfoldable pub sum_roi : List StrategyResult → List EvaluationCase → RoiSums
sum_roi (r ∷ rs) (c ∷ cs) =
    let rest = sum_roi rs cs in
    let cost = r.interventions_attempted * cost_per_intervention_minor in
    record {
      total_cost =
          cost
          + (if is_chargeback r c then fraud_chargeback_penalty_minor else 0)
          + rest.total_cost;
      gross_recovered = r.recovered_amount_minor +ℤ rest.gross_recovered;
      chargebacks = (if is_chargeback r c then 1 else 0) + rest.chargebacks;
    }
sum_roi _ _ = record { total_cost = 0; gross_recovered = pos 0; chargebacks = 0 }

unfoldable pub compute_net_roi : List StrategyResult → List EvaluationCase → RoiResult
compute_net_roi results cases =
    let sums = sum_roi results cases in
    record {
      total_cost_minor = sums.total_cost;
      net_roi_minor = sums.gross_recovered -ℤ pos sums.total_cost;
      chargeback_count = sums.chargebacks;
    }

-- A quotient of numbers, kept as the two numbers.
pub record Rate : Type 0 where
  pub over : ℤ
  pub under : ℤ

-- `under > 0 ? over / under : 0`
abbrev pub rate : ℤ → ℤ → Rate
rate over under =
    if ltb_ℤ (pos 0) under
    then record { over = over; under = under }
    else record { over = pos 0; under = pos 1 }

pub record EvaluationMetrics : Type 0 where
  pub total_at_risk_minor : ℤ
  pub naturally_recovered_minor : ℤ
  pub baseline1_recovered_minor : ℤ
  pub system_recovered_minor : ℤ
  pub incremental_recovered_vs_baseline0 : ℤ
  pub incremental_recovered_vs_baseline1 : ℤ
  pub incremental_net_roi_vs_baseline1 : ℤ
  pub recovery_rate : Rate
  pub interventions_attempted : ℕ
  pub interventions_succeeded : ℕ
  pub intervention_precision : Rate
  pub failed_interventions : ℤ
  pub failed_intervention_rate : Rate
  pub false_intervention_count : ℕ
  pub false_intervention_rate : Rate
  pub average_attempts_per_case : Rate
  pub policy_block_count : ℕ
  pub escalation_count : ℕ
  pub escalation_rate : Rate
  pub stopped_case_count : ℕ
  pub stopped_case_rate : Rate
  pub unsafe_action_prevented_count : ℕ
  pub stale_action_prevented_count : ℕ
  pub consent_block_count : ℕ
  pub idempotent_replay_count : ℕ
  pub provider_timeout_count : ℕ
  pub provider_retry_count : ℕ
  pub provider_final_failure_count : ℕ
  pub workflow_failures : ℕ
  pub ai_draft_requests : ℕ
  pub ai_fallback_count : ℕ
  pub evaluation_runtime_ms : ℕ
  pub system_net_roi_minor : ℤ
  pub baseline1_net_roi_minor : ℤ
  pub system_cost_minor : ℕ
  pub baseline1_cost_minor : ℕ
  pub system_chargebacks : ℕ
  pub baseline1_chargebacks : ℕ

-- `MetricsCalculator.compute`
unfoldable pub compute :
    List EvaluationCase
    → List StrategyResult
    → List StrategyResult
    → List StrategyResult
    → ℕ
    → EvaluationMetrics
compute cases baseline0_results baseline1_results sut_results evaluation_runtime_ms =
    let at_risk = money_of (λ c. c.source_event.amount_minor) cases in
    let natural = money_of (λ r. r.recovered_amount_minor) baseline0_results in
    let by_baseline1 = money_of (λ r. r.recovered_amount_minor) baseline1_results in
    let by_system = money_of (λ r. r.recovered_amount_minor) sut_results in
    let attempted = count_of (λ r. r.interventions_attempted) sut_results in
    let succeeded = count_of (λ r. r.interventions_succeeded) sut_results in
    let failed = pos attempted -ℤ pos succeeded in
    let false_ones = count_of (λ r. r.false_intervention_count) sut_results in
    let escalated = count_of (λ r. r.escalations) sut_results in
    let stopped = count_of (λ r. r.stops) sut_results in
    let case_count = pos (length cases) in
    let baseline1_roi = compute_net_roi baseline1_results cases in
    let system_roi = compute_net_roi sut_results cases in
    record {
      total_at_risk_minor = at_risk;
      naturally_recovered_minor = natural;
      baseline1_recovered_minor = by_baseline1;
      system_recovered_minor = by_system;
      incremental_recovered_vs_baseline0 = by_system -ℤ natural;
      incremental_recovered_vs_baseline1 = by_system -ℤ by_baseline1;
      incremental_net_roi_vs_baseline1 = system_roi.net_roi_minor -ℤ baseline1_roi.net_roi_minor;
      recovery_rate = rate by_system at_risk;
      interventions_attempted = attempted;
      interventions_succeeded = succeeded;
      intervention_precision = rate (pos succeeded) (pos attempted);
      failed_interventions = failed;
      failed_intervention_rate = rate failed (pos attempted);
      false_intervention_count = false_ones;
      false_intervention_rate = rate (pos false_ones) (pos attempted);
      average_attempts_per_case = rate (pos attempted) case_count;
      policy_block_count = count_of (λ r. r.policy_blocks) sut_results;
      escalation_count = escalated;
      escalation_rate = rate (pos escalated) case_count;
      stopped_case_count = stopped;
      stopped_case_rate = rate (pos stopped) case_count;
      unsafe_action_prevented_count = count_of (λ r. r.unsafe_actions_prevented) sut_results;
      stale_action_prevented_count = count_of (λ r. r.stale_actions_prevented) sut_results;
      consent_block_count = count_of (λ r. r.consent_blocks) sut_results;
      idempotent_replay_count = count_of (λ r. r.idempotent_replays) sut_results;
      provider_timeout_count = count_of (λ r. r.provider_timeouts) sut_results;
      provider_retry_count = count_of (λ r. r.provider_retries) sut_results;
      provider_final_failure_count = count_of (λ r. r.provider_final_failures) sut_results;
      workflow_failures = count_of (λ r. r.workflow_failures) sut_results;
      ai_draft_requests = count_of (λ r. r.ai_requests) sut_results;
      ai_fallback_count = count_of (λ r. r.ai_fallbacks) sut_results;
      evaluation_runtime_ms = evaluation_runtime_ms;
      system_net_roi_minor = system_roi.net_roi_minor;
      baseline1_net_roi_minor = baseline1_roi.net_roi_minor;
      system_cost_minor = system_roi.total_cost_minor;
      baseline1_cost_minor = baseline1_roi.total_cost_minor;
      system_chargebacks = system_roi.chargeback_count;
      baseline1_chargebacks = baseline1_roi.chargeback_count;
    }

-- `IntegrityAssertions.assertValid`
unfoldable pub assert_valid : EvaluationMetrics → Result DomainError (Unit {0})
assert_valid metrics = do
  throw_if (ltb_ℤ metrics.total_at_risk_minor metrics.system_recovered_minor)
      (plain_error "systemRecovered must never exceed totalAtRisk.")
  throw_if (ltb metrics.interventions_attempted metrics.false_intervention_count)
      (plain_error "falseInterventionCount cannot exceed interventionsAttempted.")
  throw_if (ltb metrics.interventions_attempted metrics.interventions_succeeded)
      (plain_error "interventionsSucceeded cannot exceed interventionsAttempted.")

-- The results of the system under test, the surroundings by the number of the case; `none` where a
-- simulation does not end.
unfoldable pub evaluate_all :
    (ℕ → EvaluationSurroundings)
    → ℕ
    → List EvaluationCase
    → Option (Result DomainError (List StrategyResult))
evaluate_all envs i [] = some (ok [])
evaluate_all envs i (c ∷ cs) =
    let rest = evaluate_all envs (suc i) cs in
    elim (evaluate (envs i) c) [
      | none ↦ none
      | some (err e) ↦ some (err e)
      | some (ok r) ↦ elim rest [
        | none ↦ none
        | some (err e) ↦ some (err e)
        | some (ok rs) ↦ some (ok (r ∷ rs))
      ]
    ]

abbrev checked : EvaluationMetrics → Result DomainError EvaluationMetrics
checked metrics = do assert_valid metrics; ok metrics

-- Steps 2 to 4 of `runEvaluation`.
unfoldable pub run_evaluation :
    (ℕ → EvaluationSurroundings)
    → ℕ
    → List EvaluationCase
    → Option (Result DomainError EvaluationMetrics)
run_evaluation envs runtime_ms cases = elim (evaluate_all envs 0 cases) [
  | none ↦ none
  | some (err e) ↦ some (err e)
  | some (ok results) ↦
      some (checked (compute cases (map baseline0 cases) (map baseline1 cases) results runtime_ms))
]
