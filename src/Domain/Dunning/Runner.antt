-- ===== src/Domain/Dunning/Runner.antt =====
-- The compiled graph. LangGraph runs a chain of steps in the order of its edges, merges the update of
-- each into the state by the channels, and stops at the first step that throws: its documented
-- behaviour, taken as the laws of a parameter.
use fin_tech_ai.Base.{List, [], ◌∷◌, ◌≡◌, Result, ok, ◌>>=◌}
use fin_tech_ai.Domain.Errors.{DomainError}
use fin_tech_ai.Domain.Dunning.State.{DunningState, merge}
use fin_tech_ai.Domain.Dunning.Nodes.{
  Surroundings, Node, score_propensity_node, diagnose_node, recommend_node, evaluate_policy_node,
  create_plan_node,
}

pub record GraphRunner : Type 0 where
  pub invoke : List Node → DunningState → Result DomainError DunningState
  pub invoke-nil : (s : DunningState) → invoke [] s ≡ ok s
  pub invoke-cons :
      (n : Node) (ns : List Node) (s : DunningState)
      → invoke (n ∷ ns) s ≡ (n s >>= λ u. invoke ns (merge s u))

-- The edges from `START` to `END`.
unfoldable pub dunning_nodes : Surroundings → List Node
dunning_nodes env =
    score_propensity_node env.ml_response
    ∷ diagnose_node
    ∷ recommend_node
    ∷ evaluate_policy_node
    ∷ create_plan_node env
    ∷ []

unfoldable pub dunning_workflow :
    GraphRunner → Surroundings → DunningState → Result DomainError DunningState
dunning_workflow graph env s = graph.invoke (dunning_nodes env) s

-- A runner that has the laws.
unfoldable pub run_nodes : List Node → DunningState → Result DomainError DunningState
run_nodes [] s = ok s
run_nodes (n ∷ ns) s = n s >>= λ u. run_nodes ns (merge s u)
