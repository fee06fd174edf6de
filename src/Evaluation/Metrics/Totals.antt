-- ===== src/Evaluation/Metrics/Totals.antt =====
-- What the comparison of the strategies adds up to.
use fin_tech_ai.Base.{ℕ, suc, ◌+◌, ◌≤◌, ◌≡◌, refl, some, List, [], ◌∷◌, map, arith, length, ok}
use fin_tech_ai.Base.Int.{ℤ, pos, ◌+ℤ◌, ◌-ℤ◌, ◌≤ℤ◌, +ℤ_parts}
use fin_tech_ai.Evaluation.Dataset.{EvaluationCase}
use fin_tech_ai.Evaluation.Strategies.{StrategyResult, baseline0, baseline1}
use fin_tech_ai.Evaluation.Simulation.{EvaluationSurroundings}
use fin_tech_ai.Evaluation.Simulation.Outcome.{IsReport, evaluate_total}
use fin_tech_ai.Evaluation.Metrics.{
  money_of, count_of, compute, assert_valid, EvaluationMetrics, evaluate_all, run_evaluation,
}

-- Every amount at risk is at least 0, as the schema of the events asks.
pub data Owed : List EvaluationCase → Type 0 where
  no_cases : Owed []
  one_more :
      {c : EvaluationCase} {cs : List EvaluationCase}
      → pos 0 ≤ℤ c.source_event.amount_minor
      → Owed cs
      → Owed (c ∷ cs)

-- A report for each case, in their order.
pub data Reports : List EvaluationCase → List StrategyResult → Type 0 where
  no_reports : Reports [] []
  report_and :
      {c : EvaluationCase} {cs : List EvaluationCase} {r : StrategyResult}
      {rs : List StrategyResult}
      → IsReport c r
      → Reports cs rs
      → Reports (c ∷ cs) (r ∷ rs)

abbrev recovered_of : List StrategyResult → ℤ
recovered_of rs = money_of (λ (r : StrategyResult). r.recovered_amount_minor) rs

abbrev at_risk_of : List EvaluationCase → ℤ
at_risk_of cs = money_of (λ (c : EvaluationCase). c.source_event.amount_minor) cs

evaluate_all-Reports :
    (envs : ℕ → EvaluationSurroundings) (i : ℕ) (cs : List EvaluationCase)
    → (rs : List StrategyResult) × (evaluate_all envs i cs ≡ some (ok rs)) × Reports cs rs
unfolding evaluate_all
evaluate_all-Reports envs i [] = ([], refl, no_reports)
evaluate_all-Reports envs i (c ∷ cs) =
    let (r, e, report) = evaluate_total (envs i) c in
    let (rs, es, reports) = evaluate_all-Reports envs (suc i) cs in
    (r ∷ rs, rw (evaluate_all, e, es) refl, report_and report reports)

report-bounded :
    {c : EvaluationCase} {r : StrategyResult}
    → pos 0 ≤ℤ c.source_event.amount_minor
    → IsReport c r
    → r.recovered_amount_minor ≤ℤ c.source_event.amount_minor
report-bounded owed h = ground (arith, owed, h.all_or_nothing)

-- What the system recovers of all cases is at most what is at risk in them.
recovered-bounded :
    {cs : List EvaluationCase} {rs : List StrategyResult}
    → Owed cs
    → Reports cs rs
    → recovered_of rs ≤ℤ at_risk_of cs
unfolding money_of
recovered-bounded owed no_reports = omega arith
recovered-bounded (one_more owed more)
      (report_and {c = c} {cs = cs} {r = r} {rs = rs} report reports) =
    let rest = recovered-bounded more reports in
    let one = report-bounded owed report in
    omega (
      arith,
      +ℤ_parts r.recovered_amount_minor (recovered_of rs),
      +ℤ_parts c.source_event.amount_minor (at_risk_of cs),
      rest,
      one,
    )

counts-bounded :
    {cs : List EvaluationCase} {rs : List StrategyResult}
    → Reports cs rs
    → (count_of (λ (r : StrategyResult). r.false_intervention_count) rs ≡ 0)
      × (count_of (λ (r : StrategyResult). r.interventions_succeeded) rs
          ≤ count_of (λ (r : StrategyResult). r.interventions_attempted) rs)
      × (count_of (λ (r : StrategyResult). r.consent_blocks) rs ≡ 0)
      × (count_of (λ (r : StrategyResult). r.interventions_succeeded) rs
            + count_of (λ (r : StrategyResult). r.escalations) rs
            + count_of (λ (r : StrategyResult). r.stops) rs
          ≡ length cs)
unfolding count_of
counts-bounded no_reports = ground arith
counts-bounded (report_and report reports) =
    let (fs, ss, cons, ones) = counts-bounded reports in
    (
      omega (arith, fs, report.no_false_interventions),
      omega (arith, ss, report.attempted_first),
      omega (arith, cons, report.consent_unused),
      omega (arith, ones, report.settled_once),
    )

-- What the run of the benchmark reports.
pub record IsComparison (cases : List EvaluationCase) (m : EvaluationMetrics) : Type 0 where
  pub recovered_bounded : m.system_recovered_minor ≤ℤ m.total_at_risk_minor
  pub each_settled_once :
      m.interventions_succeeded + m.escalation_count + m.stopped_case_count ≡ length cases
  pub succeeded_bounded : m.interventions_succeeded ≤ m.interventions_attempted
  pub failed_rest :
      m.failed_interventions ≡ pos m.interventions_attempted -ℤ pos m.interventions_succeeded
  pub consent_never_blocks : m.consent_block_count ≡ 0
  pub nothing_natural : m.naturally_recovered_minor ≡ pos 0
  pub incremental :
      m.incremental_recovered_vs_baseline1 ≡ m.system_recovered_minor -ℤ m.baseline1_recovered_minor

nothing_natural : (cs : List EvaluationCase) → recovered_of (map baseline0 cs) ≡ pos 0
unfolding money_of baseline0 ◌+ℤ◌
nothing_natural [] = refl
nothing_natural (c ∷ cs) = rw (nothing_natural cs) refl

compute-IsComparison :
    (cs : List EvaluationCase) (rs : List StrategyResult) (runtime : ℕ)
    → Owed cs
    → Reports cs rs
    → IsComparison cs (compute cs (map baseline0 cs) (map baseline1 cs) rs runtime)
unfolding compute
compute-IsComparison cs rs runtime owed reports =
    let (fs, ss, cons, ones) = counts-bounded reports in
    record {
      recovered_bounded = recovered-bounded owed reports;
      each_settled_once = ones;
      succeeded_bounded = ss;
      failed_rest = refl;
      consent_never_blocks = cons;
      nothing_natural = nothing_natural cs;
      incremental = refl;
    }

assert_valid-passes :
    (cs : List EvaluationCase) (rs : List StrategyResult) (runtime : ℕ)
    → Owed cs
    → Reports cs rs
    → assert_valid (compute cs (map baseline0 cs) (map baseline1 cs) rs runtime) ≡ ok tt
unfolding assert_valid compute
assert_valid-passes cs rs runtime owed reports =
    let (fs, ss, _, _) = counts-bounded reports in
    ground (arith, recovered-bounded owed reports, fs, ss)

-- Where no amount is negative, the benchmark runs through, and its integrity assertions pass: no more is
-- recovered than is at risk, and every case is recovered, escalated or stopped exactly once.
pub run_evaluation_passes :
    (envs : ℕ → EvaluationSurroundings) (runtime : ℕ) (cases : List EvaluationCase)
    → Owed cases
    → (m : EvaluationMetrics) × (run_evaluation envs runtime cases ≡ some (ok m))
      × IsComparison cases m
unfolding run_evaluation
run_evaluation_passes envs runtime cases owed =
    let (rs, e, reports) = evaluate_all-Reports envs 0 cases in
    (
      compute cases (map baseline0 cases) (map baseline1 cases) rs runtime,
      rw (run_evaluation, e, assert_valid-passes cases rs runtime owed reports) refl,
      compute-IsComparison cases rs runtime owed reports,
    )
