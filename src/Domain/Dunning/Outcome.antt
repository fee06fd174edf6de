-- ===== src/Domain/Dunning/Outcome.antt =====
-- What the chain of steps produces: it never fails on a fresh state, and each result is the step's.
use fin_tech_ai.Base.{◌≡◌, some, List, [], ◌∷◌, refl, ◌∙◌, Result, ok, err, ◌>>=◌}
use fin_tech_ai.Domain.Errors.{DomainError}
use fin_tech_ai.Domain.Diagnosis.{diagnose_revenue_case}
use fin_tech_ai.Domain.Intervention.{select_candidate_interventions, recommend_intervention}
use fin_tech_ai.Domain.Policy.{evaluate_recovery_policy}
use fin_tech_ai.Domain.Propensity.{score_propensity}
use fin_tech_ai.Domain.Dunning.State.{DunningState, DunningUpdate, merge}
use fin_tech_ai.Domain.Dunning.Nodes.{
  Surroundings, Node, score_propensity_node, diagnose_node, recommend_node, evaluate_policy_node,
  create_plan_node, override_recommendation, make_plan, policy_input,
}
use fin_tech_ai.Domain.Dunning.Runner.{GraphRunner, dunning_nodes, dunning_workflow, run_nodes}
use fin_tech_ai.Contracts.{DiagnosisResult, InterventionType, PolicyDecision}

-- The results in order, each from the state before it.
module _ (env : Surroundings) (s : DunningState) where
  unfoldable pub scored : DunningState
  scored = record s {
    shadow_propensity = some (score_propensity env.ml_response s.rev_case s.source_event);
  }

  unfoldable pub first_diagnosis : DiagnosisResult
  unfolding scored
  first_diagnosis =
      let d = diagnose_revenue_case s.rev_case s.source_event s.merchant_policy s.now in
      record d { shadow_propensity = scored.shadow_propensity }

  unfoldable pub informed_diagnosis : DiagnosisResult
  unfolding first_diagnosis
  informed_diagnosis = record first_diagnosis {
    candidate_interventions =
        select_candidate_interventions s.rev_case first_diagnosis s.merchant_policy;
  }

  unfoldable pub final_recommendation : InterventionType
  unfolding informed_diagnosis
  final_recommendation =
      override_recommendation s.rev_case s.source_event first_diagnosis.root_cause
        informed_diagnosis.candidate_interventions
        (recommend_intervention s.rev_case informed_diagnosis
          informed_diagnosis.candidate_interventions s.merchant_policy
          s.active_intervention_summary)

  unfoldable pub final_diagnosis : DiagnosisResult
  unfolding final_recommendation
  final_diagnosis = record informed_diagnosis { recommended_intervention = final_recommendation }

  unfoldable pub final_policy_decision : PolicyDecision
  unfolding final_diagnosis
  final_policy_decision =
      evaluate_recovery_policy (policy_input s final_diagnosis final_recommendation)

  unfoldable pub final_state : DunningState
  unfolding final_policy_decision
  final_state = record s {
    shadow_propensity = scored.shadow_propensity;
    diagnosis = some final_diagnosis;
    candidates = some informed_diagnosis.candidate_interventions;
    recommended = some final_recommendation;
    policy_decision = some final_policy_decision;
    plan = some (make_plan env s final_recommendation final_policy_decision);
  }

-- A runner with the laws runs the chain as `run_nodes` does.
invoke-run_nodes :
    (graph : GraphRunner) (ns : List Node) (s : DunningState) → graph.invoke ns s ≡ run_nodes ns s
unfolding run_nodes
invoke-run_nodes graph [] s = graph.invoke-nil s
invoke-run_nodes graph (n ∷ ns) s =
    graph.invoke-cons n ns s ∙ bind_same (λ u. invoke-run_nodes graph ns (merge s u)) (n s)
  where
    bind_same :
        ((u : DunningUpdate) → graph.invoke ns (merge s u) ≡ run_nodes ns (merge s u))
        → (r : Result DomainError DunningUpdate)
        → (r >>= λ u. graph.invoke ns (merge s u)) ≡ (r >>= λ u. run_nodes ns (merge s u))
    bind_same ih (ok u) = ih u
    bind_same ih (err e) = refl

-- From any state the workflow runs through, and its results are those above.
pub dunning_workflow_total :
    (graph : GraphRunner) (env : Surroundings) (s : DunningState)
    → dunning_workflow graph env s ≡ ok (final_state env s)
unfolding dunning_workflow dunning_nodes run_nodes score_propensity_node diagnose_node
    recommend_node evaluate_policy_node create_plan_node final_state make_plan policy_input
dunning_workflow_total graph env s = invoke-run_nodes graph _ s ∙ refl
