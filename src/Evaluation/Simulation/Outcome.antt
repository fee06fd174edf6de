-- ===== src/Evaluation/Simulation/Outcome.antt =====
-- How the simulation of a case ends.
use fin_tech_ai.Domain.Qualification.{qualify_revenue_event}
use fin_tech_ai.Domain.Planning.Proposal.{propose_open}
use fin_tech_ai.Evaluation.Simulation.Setup.{evaluation_event}
use fin_tech_ai.Evaluation.Dataset.{EvaluationCase}
use fin_tech_ai.Base.Int.{pos, ◌≤ℤ◌}
use fin_tech_ai.Domain.Qualification.Eligibility.{eligible_iff}
use fin_tech_ai.Evaluation.Strategies.{StrategyResult}
use fin_tech_ai.Evaluation.Simulation.Setup.{evaluation_merchant}
use fin_tech_ai.Evaluation.Simulation.{evaluate, fresh_simulation, build_result, count_exhausted}
use fin_tech_ai.Base.{
  refl, zero, suc, ok, ◌<◌, ◌⊎◌, ℕ, inl, Bool-cases, inr, ◌+◌, ◌≤◌, ◌≡◌, true, false, some, arith,
  ◌==◌,
}
use fin_tech_ai.Domain.Planning.{can_plan}
use fin_tech_ai.Evaluation.Simulation.{
  goes_on, simulation_input, simulate, take_turn, Turn, EvaluationSurroundings, Simulation,
}
use fin_tech_ai.Evaluation.Simulation.Rounds.{
  IsRunning, IsSettled, Turned, turned_halt, turned_again, proposed, take_turn-Turned,
}

module _ (env : EvaluationSurroundings) (c : EvaluationCase) where
  -- At the end of the loop: the case is settled, or it is out of attempts.
  abbrev Ended : Simulation → Type 0
  Ended s =
      (IsSettled s ⊎ IsRunning s × (c.ground_truth.maximum_attempts ≤ s.attempt_count))
      × (s.interventions_attempted ≤ c.ground_truth.maximum_attempts)

  -- A round, and the rest of the loop by induction.
  module _ (fuel : ℕ) (s : Simulation) (on : goes_on c.ground_truth.maximum_attempts s ≡ true)
      (rest : (s' : Simulation)
        → IsRunning s'
        → s'.attempt_count ≡ s.attempt_count + 1
        → (s'' : Simulation) × (simulate env c fuel s' ≡ some (ok s'')) × Ended s'') where
    round-Ended :
        (turn : Turn)
        → take_turn env c.ground_truth.provider_scenario (proposed env c s) s ≡ turn
        → IsRunning s
        → Turned s.attempt_count turn
        → (s' : Simulation) × (simulate env c (suc fuel) s ≡ some (ok s')) × Ended s'
    unfolding simulate proposed
    round-Ended turn e running (turned_halt s' settled counted) =
        let planned =
          propose_open env.graph (env.planning s.attempt_count) (simulation_input env c s)
            running.open_case in
        (s', rw (on, planned, e) refl, (inl settled, ground (arith, counted, on)))
    round-Ended turn e running (turned_again s' running' counted) =
        let planned =
          propose_open env.graph (env.planning s.attempt_count) (simulation_input env c s)
            running.open_case in
        let (s'', ends, ended) = rest s' running' counted in (s'', rw (on, planned, e) ends, ended)

  over-Ended :
      (s : Simulation)
      → goes_on c.ground_truth.maximum_attempts s ≡ false
      → IsRunning s
      → s.attempt_count ≤ c.ground_truth.maximum_attempts
      → Ended s
  unfolding can_plan
  over-Ended s over running below =
      (inr (running, ground (arith, over, running)), omega (arith, running.counted, below))

  simulate-Ended :
      (fuel : ℕ) (s : Simulation)
      → IsRunning s
      → s.attempt_count ≤ c.ground_truth.maximum_attempts
      → c.ground_truth.maximum_attempts < fuel + s.attempt_count
      → (s' : Simulation) × (simulate env c fuel s ≡ some (ok s')) × Ended s'
  unfolding simulate
  simulate-Ended zero s running below enough = absurd (omega (arith, below, enough))
  simulate-Ended (suc fuel) s running below enough =
      elim (Bool-cases (goes_on c.ground_truth.maximum_attempts s)) [
        | inr over ↦ (s, rw over refl, over-Ended s over running below)
        | inl on ↦
            round-Ended fuel s on
              (λ s' again e.
                simulate-Ended fuel s' again (ground (arith, e, on)) (omega (arith, e, enough)))
              (take_turn env c.ground_truth.provider_scenario (proposed env c s) s) refl running
              (take_turn-Turned env c s running)
      ]

-- What the report on a case says.
pub record IsReport (c : EvaluationCase) (r : StrategyResult) : Type 0 where
  pub within_attempts : r.interventions_attempted ≤ c.ground_truth.maximum_attempts
  pub settled_once : r.interventions_succeeded + r.escalations + r.stops ≡ 1
  pub recovered_once : (r.interventions_succeeded == 1) ≡ r.is_recovered
  pub attempted_first : r.interventions_succeeded ≤ r.interventions_attempted
  pub all_or_nothing :
      (r.is_recovered ≡ true)
        × (r.recovered_amount_minor ≡ c.source_event.amount_minor)
        × (pos 50 ≤ℤ c.source_event.amount_minor)
      ⊎ (r.is_recovered ≡ false) × (r.recovered_amount_minor ≡ pos 0)
  pub failures : r.provider_retries + r.provider_final_failures ≤ r.interventions_attempted
  pub drafts : r.ai_fallbacks ≤ r.ai_requests
  pub consent_unused : r.consent_blocks ≡ 0
  pub no_false_interventions : r.false_intervention_count ≡ 0

module _ (env : EvaluationSurroundings) (c : EvaluationCase) where
  build_result-IsReport :
      (s : Simulation)
      → Ended env c s
      → pos 50 ≤ℤ c.source_event.amount_minor
      → IsReport c (build_result c (count_exhausted c.ground_truth.maximum_attempts s))
  unfolding can_plan
  build_result-IsReport s (inl settled, bounded) worth = elim (Bool-cases s.is_recovered) [
    | inl done ↦ ground (arith, settled, bounded, worth, done)
    | inr open_case ↦ ground (arith, settled, bounded, worth, open_case)
  ]
  build_result-IsReport s (inr (running, spent), bounded) worth =
      ground (arith, running, spent, bounded, worth)

  eligible-is_worth :
      (qualify_revenue_event (evaluation_event c) evaluation_merchant "standard" env.now).eligible
        ≡ true
      → pos 50 ≤ℤ c.source_event.amount_minor
  unfolding evaluation_event
  eligible-is_worth h =
      ((eligible_iff (evaluation_event c) evaluation_merchant "standard" env.now).0 h).amount_enough

  -- The simulation of every case ends, without an error, whatever the model service and the language model
  -- reply. Its report has the case recovered, escalated or stopped exactly once, after no more attempts than
  -- the ground truth allows, and counts the whole amount as recovered or none of it. It never reports a
  -- block for a lack of consent, nor a false intervention.
  pub evaluate_total : (r : StrategyResult) × (evaluate env c ≡ some (ok r)) × IsReport c r
  unfolding evaluate can_plan
  evaluate_total =
      let q = qualify_revenue_event (evaluation_event c) evaluation_merchant "standard" env.now in
      elim (Bool-cases q.eligible) [
        | inr refused ↦
            (build_result c (record fresh_simulation { stops = 1 }), rw refused refl, ground arith)
        | inl eligible ↦
            let (s, ends, ended) =
              simulate-Ended env c (suc c.ground_truth.maximum_attempts) fresh_simulation
                (ground arith) (ground arith) (ground arith) in
            (
              build_result c (count_exhausted c.ground_truth.maximum_attempts s),
              rw (eligible, ends) refl,
              build_result-IsReport s ended (eligible-is_worth eligible),
            )
      ]
