-- ===== src/Domain/Planning/Proposal.antt =====
-- When a plan is proposed, and what the proposal promises.
use fin_tech_ai.Domain.StateMachine.{valid_transitions, can_transition}
use fin_tech_ai.Base.{inr, inl, Bool-cases, arith, err, false, if◌then◌else◌, ok, true, ◌≡◌}
use fin_tech_ai.Domain.Planning.{
  plain_error, PlanProposalInput, RecoveryPlanProposal, propose_recovery_plan,
  resolve_planning_outcome, initial_state, can_plan,
}
use fin_tech_ai.Domain.Dunning.{Surroundings, GraphRunner, make_plan}
use fin_tech_ai.Domain.Dunning.Outcome.{
  final_diagnosis, final_recommendation, final_policy_decision, final_state, dunning_workflow_total,
}
use fin_tech_ai.Contracts.{
  detected, retryable, stopped, policy_checked, RecoveryCase, escalated, RevenueCaseState,
  PolicyDecision,
}

-- The state that a decision leads to.
abbrev pub outcome_state : PolicyDecision → RevenueCaseState
outcome_state d =
    if d.approved
    then if d.requires_human_approval then escalated else policy_checked
    else if d.stop_case
    then stopped
    else if d.escalation_required
    then escalated
    else retryable

-- The proposal that the steps lead to.
unfoldable pub proposal : Surroundings → PlanProposalInput → RecoveryPlanProposal
proposal env input =
    let s = initial_state input in
    record {
      plan = make_plan env s (final_recommendation env s) (final_policy_decision env s);
      diagnosis = final_diagnosis env s;
      policy_decision = final_policy_decision env s;
      resulting_case_state = outcome_state (final_policy_decision env s);
    }

resolve_open :
    (rc : RecoveryCase) (d : PolicyDecision)
    → can_plan rc.state ≡ true
    → resolve_planning_outcome rc d ≡ ok (outcome_state d)
unfolding resolve_planning_outcome can_plan
resolve_open rc d h = ground arith

module _ (graph : GraphRunner) (env : Surroundings) (input : PlanProposalInput) where
  -- For a case in `DETECTED` or `RETRYABLE` a plan is always proposed: the one that the steps lead to,
  -- whatever the model service replied.
  pub propose_open :
      can_plan input.rev_case.state ≡ true
      → propose_recovery_plan graph env input ≡ ok (proposal env input)
  unfolding propose_recovery_plan proposal final_state
  propose_open h = rw (
    dunning_workflow_total graph env (initial_state input),
    h,
    resolve_open input.rev_case (final_policy_decision env (initial_state input)) h,
  )

  -- For a case in any other state no plan is proposed.
  propose_closed :
      can_plan input.rev_case.state ≡ false
      → propose_recovery_plan graph env input
        ≡ err (plain_error "Cannot propose plan for case in state")
  unfolding propose_recovery_plan
  propose_closed h = rw h

  -- What is proposed, when anything is, comes from those steps.
  pub propose-eq :
      {p : RecoveryPlanProposal}
      → propose_recovery_plan graph env input ≡ ok p
      → (can_plan input.rev_case.state ≡ true) × (p ≡ proposal env input)
  propose-eq h = elim (Bool-cases (can_plan input.rev_case.state)) [
    | inl open_case ↦ (open_case, ground (arith, h, propose_open open_case))
    | inr closed ↦ absurd (ground (arith, h, propose_closed closed))
  ]

-- No outcome of planning is a transition that the state machine has for a case in `DETECTED`.
resolve_planning_outcome-can_transition :
    (rc : RecoveryCase) (d : PolicyDecision) (t : RevenueCaseState)
    → rc.state ≡ detected
    → resolve_planning_outcome rc d ≡ ok t
    → can_transition rc.state t ≡ false
unfolding resolve_planning_outcome can_transition valid_transitions
resolve_planning_outcome-can_transition rc d t h r = ground arith
