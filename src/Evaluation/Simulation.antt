-- ===== src/Evaluation/Simulation.antt =====
-- libs/evaluation/src/baselines/sut.ts: a case of the benchmark, taken through qualification and planning
-- and through simulated executions, until it is recovered, stopped, escalated or out of attempts. The plan
-- graph, its surroundings at each attempt, the language model and the clock are parameters.
pub mod Setup
pub mod Rounds
pub mod Outcome
use fin_tech_ai.Base.{
  ℕ, zero, suc, ◌+◌, ◌*◌, ◌≤◌, ◌<◌, ◌≡◌, ◌≢◌, refl, sym, ◌∙◌, inl, inr, Bool, true, false, not,
  ◌&&◌, ◌||◌, Option, none, some, List, [], ◌∷◌, ◌++◌, map, arith, str_eq, eq_iff, String, leb, ltb,
  ◌==◌, if◌then◌else◌, Bool-cases, Option-cases, is_some, length, keep, exists, find, Result, ok,
  err, ◌>>=◌, value_or, find_row, update_row, matches, update_all,
}
use fin_tech_ai.Base.Int.{pos}
use fin_tech_ai.Contracts.{
  RevenueCaseState, same_state, detected, stopped, retryable, recovered, escalated, same_reason,
  consent_missing, PolicyDecision, same_intervention, sms_reminder, email_reminder, no_action,
  human_escalation,
}
use fin_tech_ai.Domain.Errors.{DomainError}
use fin_tech_ai.Domain.Qualification.{qualify_revenue_event}
use fin_tech_ai.Domain.Dunning.{Surroundings}
use fin_tech_ai.Domain.Dunning.Runner.{GraphRunner}
use fin_tech_ai.Domain.Planning.{PlanProposalInput, RecoveryPlanProposal, propose_recovery_plan}
use fin_tech_ai.Evaluation.Dataset.{
  EvaluationCase, ProviderScenario, success, timeout_once_then_success, permanent_failure,
  invalid_response, payment_link_paid_after_event, no_customer_response,
}
use fin_tech_ai.Evaluation.Strategies.{StrategyResult, nothing_done}
use fin_tech_ai.Evaluation.Simulation.Setup.{
  evaluation_merchant, evaluation_policy, evaluation_event, evaluation_rev_case,
}

-- By number of the attempt: what the plan graph finds around it, and the reply of the language model, which
-- is whether it fell back, or none where the call throws. The model is asked only where it is `live`.
pub record EvaluationSurroundings : Type 0 where
  pub graph : GraphRunner
  pub planning : ℕ → Surroundings
  pub live : Bool
  pub drafts : ℕ → Option Bool
  pub now : ℕ

-- The variables of `evaluate`, with the state and the attempts of `revCase`.
pub record Simulation : Type 0 where
  pub state : RevenueCaseState
  pub attempt_count : ℕ
  pub is_recovered : Bool
  pub interventions_attempted : ℕ
  pub interventions_succeeded : ℕ
  pub escalations : ℕ
  pub stops : ℕ
  pub policy_blocks : ℕ
  pub consent_blocks : ℕ
  pub provider_timeouts : ℕ
  pub provider_retries : ℕ
  pub provider_final_failures : ℕ
  pub ai_requests : ℕ
  pub ai_fallbacks : ℕ

abbrev pub fresh_simulation : Simulation
fresh_simulation = record {
  state = detected;
  attempt_count = 0;
  is_recovered = false;
  interventions_attempted = 0;
  interventions_succeeded = 0;
  escalations = 0;
  stops = 0;
  policy_blocks = 0;
  consent_blocks = 0;
  provider_timeouts = 0;
  provider_retries = 0;
  provider_final_failures = 0;
  ai_requests = 0;
  ai_fallbacks = 0;
}

-- How a round of the loop ends: by `break`, or at its end or by `continue`.
pub data Turn : Type 0 where
  halt again : Simulation → Turn

abbrev pub stop_case : Simulation → Simulation
stop_case s = record s { stops = s.stops + 1; state = stopped }

abbrev pub escalate_case : Simulation → Simulation
escalate_case s = record s { escalations = s.escalations + 1; state = escalated }

abbrev pub recover_case : Simulation → Simulation
recover_case s = record s {
  interventions_succeeded = s.interventions_succeeded + 1;
  is_recovered = true;
  state = recovered;
}

abbrev draft_fell_back : Option Bool → Bool
draft_fell_back none = true
draft_fell_back (some b) = b

-- The count of requests for a draft and of those that fell back.
unfoldable pub draft_message :
    EvaluationSurroundings → RecoveryPlanProposal → Simulation → Simulation
draft_message env proposal s =
    let fell_back = draft_fell_back (env.drafts s.attempt_count) in
    if same_intervention proposal.plan.intervention_type sms_reminder
      || same_intervention proposal.plan.intervention_type email_reminder
    then record s {
      ai_requests = s.ai_requests + 1;
      ai_fallbacks = if env.live && fell_back then s.ai_fallbacks + 1 else s.ai_fallbacks;
    }
    else s

unfoldable pub count_block : PolicyDecision → Simulation → Simulation
count_block decision s =
    if exists (same_reason consent_missing) decision.reason_codes
    then record s { consent_blocks = s.consent_blocks + 1 }
    else record s { policy_blocks = s.policy_blocks + 1 }

-- A plan that the policy refuses.
unfoldable pub block_case : PolicyDecision → Simulation → Simulation
unfolding count_block
block_case decision s =
    let counted = count_block decision s in
    if decision.stop_case
    then stop_case counted
    else if decision.escalation_required
    then escalate_case counted
    else stop_case counted

-- Step 5: the simulated execution.
unfoldable pub execute_action : ProviderScenario → Simulation → Turn
execute_action success s = halt (recover_case s)
execute_action payment_link_paid_after_event s = halt (recover_case s)
execute_action timeout_once_then_success s =
    if s.attempt_count == 1
    then again (record s {
      provider_timeouts = s.provider_timeouts + 1;
      provider_retries = s.provider_retries + 1;
      state = retryable;
    })
    else halt (recover_case s)
execute_action permanent_failure s =
    again (record s { provider_final_failures = s.provider_final_failures + 1; state = retryable })
execute_action no_customer_response s = again (record s { state = retryable })
execute_action invalid_response s = again s

unfoldable pub take_turn :
    EvaluationSurroundings → ProviderScenario → RecoveryPlanProposal → Simulation → Turn
unfolding draft_message block_case execute_action
take_turn env scenario proposal before =
    let s = draft_message env proposal before in
    let action = proposal.plan.intervention_type in
    if not proposal.policy_decision.approved
    then halt (block_case proposal.policy_decision s)
    else if same_intervention action no_action
    then halt (stop_case s)
    else if same_intervention action human_escalation
        || proposal.policy_decision.requires_human_approval
    then halt (escalate_case s)
    else execute_action scenario (record s {
      interventions_attempted = s.interventions_attempted + 1;
      attempt_count = s.attempt_count + 1;
    })

abbrev pub simulation_input :
    EvaluationSurroundings → EvaluationCase → Simulation → PlanProposalInput
simulation_input env c s = record {
  rev_case = evaluation_rev_case c env.now s.state s.attempt_count;
  source_event = evaluation_event c;
  merchant_policy = evaluation_policy c env.now;
  active_intervention_summary = record {
    has_active_payment_retry = false;
    has_active_payment_link = false;
    has_active_communication = false;
  };
  now = c.event_timestamp + s.attempt_count * 3600 * 1000;
}

-- The condition of the loop.
abbrev pub goes_on : ℕ → Simulation → Bool
goes_on maximum s =
    ltb s.attempt_count maximum
    && (not (same_state s.state recovered)
        && (not (same_state s.state stopped) && not (same_state s.state escalated)))

-- The loop, or `none` where the fuel does not last.
unfoldable pub simulate :
    EvaluationSurroundings
    → EvaluationCase
    → ℕ
    → Simulation
    → Option (Result DomainError Simulation)
simulate env c zero s = none
simulate env c (suc fuel) s =
    if not (goes_on c.ground_truth.maximum_attempts s)
    then some (ok s)
    else elim (propose_recovery_plan env.graph (env.planning s.attempt_count)
        (simulation_input env c s)) [
          | err e ↦ some (err e)
          | ok proposal ↦ elim (take_turn env c.ground_truth.provider_scenario proposal s) [
            | halt s' ↦ some (ok s')
            | again s' ↦ simulate env c fuel s'
          ]
        ]

-- What follows the loop: a case that is out of attempts is escalated.
abbrev pub count_exhausted : ℕ → Simulation → Simulation
count_exhausted maximum s =
    if not s.is_recovered
      && (leb maximum s.attempt_count
          && (not (same_state s.state escalated) && not (same_state s.state stopped)))
    then record s { escalations = s.escalations + 1 }
    else s

-- `buildResult`
abbrev pub build_result : EvaluationCase → Simulation → StrategyResult
build_result c s = record nothing_done {
  interventions_attempted = s.interventions_attempted;
  interventions_succeeded = s.interventions_succeeded;
  recovered_amount_minor = if s.is_recovered then c.source_event.amount_minor else pos 0;
  is_recovered = s.is_recovered;
  policy_blocks = s.policy_blocks;
  escalations = s.escalations;
  stops = s.stops;
  consent_blocks = s.consent_blocks;
  provider_timeouts = s.provider_timeouts;
  provider_retries = s.provider_retries;
  provider_final_failures = s.provider_final_failures;
  ai_requests = s.ai_requests;
  ai_fallbacks = s.ai_fallbacks;
}

abbrev pub finish :
    EvaluationCase
    → Option (Result DomainError Simulation)
    → Option (Result DomainError StrategyResult)
finish c none = none
finish c (some (err e)) = some (err e)
finish c (some (ok s)) =
    some (ok (build_result c (count_exhausted c.ground_truth.maximum_attempts s)))

-- `SystemUnderTestStrategy.evaluate`, with one unit of fuel for each attempt and one for the last test.
unfoldable pub evaluate :
    EvaluationSurroundings → EvaluationCase → Option (Result DomainError StrategyResult)
evaluate env c =
    if (qualify_revenue_event (evaluation_event c) evaluation_merchant "standard" env.now).eligible
    then finish c (simulate env c (suc c.ground_truth.maximum_attempts) fresh_simulation)
    else some (ok (build_result c (record fresh_simulation { stops = 1 })))
