-- ===== src/Api/Orchestrator.antt =====
-- apps/api/src/modules/cases/case-orchestrator.service.ts: the job that plans the open cases. It is modelled
-- as it runs where no other process writes between its calls; the ids and the surroundings of the planning
-- are by the number of the case in the batch.
pub mod Progress
pub mod Rounds
use fin_tech_ai.Base.{
  ℕ, zero, suc, ◌+◌, ◌*◌, ◌≤◌, ◌<◌, ◌≡◌, ◌≢◌, refl, sym, ◌∙◌, inl, inr, Bool, true, false, not,
  ◌&&◌, ◌||◌, Option, none, some, List, [], ◌∷◌, ◌++◌, map, arith, str_eq, eq_iff, String, leb, ltb,
  ◌==◌, join_text, show_number, if◌then◌else◌, Bool-cases, Option-cases, is_some, length, keep,
  exists, find, Result, ok, err, ◌>>=◌, value_or, find_row, update_row, matches, update_all,
}
use fin_tech_ai.Base.{take}
use fin_tech_ai.Domain.Dunning.{Surroundings}
use fin_tech_ai.Domain.Dunning.Runner.{GraphRunner}
use fin_tech_ai.Contracts.{RevenueCaseState, same_state, detected, retryable, policy_checked}
use fin_tech_ai.Persistence.Rows.{CaseRow, Database, find_merchant}
use fin_tech_ai.Api.Planning.{create_plan, enqueue_plan}

pub record OrchestratorSurroundings : Type 0 where
  pub graph : GraphRunner
  pub planning : Surroundings
  pub outbox_id : String
  pub now : ℕ

abbrev is_open : CaseRow → Bool
is_open r = same_state r.state detected || same_state r.state retryable

-- The oldest 20: the rows are in the order of creation.
unfoldable pub cases_to_process : Database → List CaseRow
cases_to_process db = take 20 (keep is_open db.cases)

-- The body of the loop: an error is logged and leaves what was written before it.
unfoldable pub orchestrate_case : OrchestratorSurroundings → CaseRow → Database → Database
orchestrate_case env rev_case db = elim (find_merchant rev_case.merchant_id db) [
  | none ↦ db
  | some merchant ↦
      elim (create_plan env.graph env.planning rev_case.id merchant.config.policy_version
        (some rev_case.correlation_id) env.now db db) [
          | err e ↦ db
          | ok (response, planned) ↦
              if same_state response.resulting_case_state policy_checked
                && not response.policy_decision.requires_human_approval
              then value_or planned (
                  enqueue_plan rev_case.id response.plan.plan_id (some rev_case.correlation_id)
                    env.outbox_id env.now planned planned)
              else planned
        ]
]

unfoldable pub orchestrate_each :
    (ℕ → OrchestratorSurroundings) → ℕ → List CaseRow → Database → Database
orchestrate_each envs i [] db = db
orchestrate_each envs i (r ∷ rs) db =
    orchestrate_each envs (suc i) rs (orchestrate_case (envs i) r db)

-- `handleCron`, where it is switched on and no other call of it is on.
unfoldable pub orchestrate : (ℕ → OrchestratorSurroundings) → Database → Database
orchestrate envs db = orchestrate_each envs 0 (cases_to_process db) db
