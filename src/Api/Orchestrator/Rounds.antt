-- ===== src/Api/Orchestrator/Rounds.antt =====
-- What a round of the orchestrator does with a case whose plan has been made before.
use fin_tech_ai.Base.{◌∷◌, ℕ, ◌≡◌, some}
use fin_tech_ai.Contracts.{retryable}
use fin_tech_ai.Persistence.Rows.{CaseRow, PlanRow, Database}
use fin_tech_ai.Persistence.Planning.{find_plan_by_key}
use fin_tech_ai.Api.Orchestrator.Progress.{IsReadable, next_plan}
use fin_tech_ai.Api.Orchestrator.{suc, [], orchestrate, List, OrchestratorSurroundings}

-- A case in `RETRYABLE`, whose next plan would have the idempotency key of a plan that is there.
pub record IsStuck (env : OrchestratorSurroundings) (db : Database) (r : CaseRow) : Type 0 where
  pub reads : IsReadable db r
  pub old : PlanRow
  pub waits : r.state ≡ retryable
  pub plan_there : find_plan_by_key (next_plan env db r reads).idempotency_key db ≡ some old

-- Every case of a batch is stuck.
pub data AllStuck (envs : ℕ → OrchestratorSurroundings) (db : Database)
    : ℕ → List CaseRow → Type 0 where
  none_left : {i : ℕ} → AllStuck envs db i []
  one_stuck :
      {i : ℕ} {r : CaseRow} {rs : List CaseRow}
      → IsStuck (envs i) db r
      → AllStuck envs db (suc i) rs
      → AllStuck envs db i (r ∷ rs)

-- Rounds one after another, each with its own surroundings.
abbrev pub orchestrate_rounds : List (ℕ → OrchestratorSurroundings) → Database → Database
orchestrate_rounds [] db = db
orchestrate_rounds (envs ∷ rounds) db = orchestrate_rounds rounds (orchestrate envs db)

-- In every round.
pub data AlwaysStuck (db : Database) (batch : List CaseRow)
    : List (ℕ → OrchestratorSurroundings) → Type 0 where
  no_round : AlwaysStuck db batch []
  one_round :
      {envs : ℕ → OrchestratorSurroundings} {rounds : List (ℕ → OrchestratorSurroundings)}
      → AllStuck envs db 0 batch
      → AlwaysStuck db batch rounds
      → AlwaysStuck db batch (envs ∷ rounds)
