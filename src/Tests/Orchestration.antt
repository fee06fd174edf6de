-- ===== src/Tests/Orchestration.antt =====
-- Rounds of the orchestrator over 20 cases that wait for nothing and one that could be planned.
use fin_tech_ai.Base.{◌≡◌, refl, some, List, [], ◌∷◌, ◌++◌, map, String, join_text}
use fin_tech_ai.Domain.Planning.{can_plan}
use fin_tech_ai.Tests.Samples.{
  sample_event, row_in, db_with, sample_env, runner, sample_policy, sample_plan,
}
use fin_tech_ai.Contracts.{retryable}
use fin_tech_ai.Persistence.Rows.{CaseRow, PlanRow, Database, find_case}
use fin_tech_ai.Persistence.Planning.{find_plan_by_key}
use fin_tech_ai.Api.Orchestrator.{OrchestratorSurroundings}
use fin_tech_ai.Api.Orchestrator.Progress.{IsReadable, next_plan}
use fin_tech_ai.Api.Orchestrator.Rounds.{IsStuck}

abbrev waiting : String → CaseRow
waiting id = record (row_in retryable) { id = id }

abbrev old_plan : String → PlanRow
old_plan id = record {
  plan = record sample_plan {
    case_id = id;
    idempotency_key = join_text (id ∷ "_v1_PAYMENT_RETRY_1" ∷ []);
  };
  correlation_id = "corr-1";
}

abbrev stuck_ids : List String
stuck_ids =
    "case-01" ∷ "case-02" ∷ "case-03" ∷ "case-04" ∷ "case-05" ∷ "case-06" ∷ "case-07" ∷ "case-08"
    ∷ "case-09" ∷ "case-10" ∷ "case-11" ∷ "case-12" ∷ "case-13" ∷ "case-14" ∷ "case-15" ∷ "case-16"
    ∷ "case-17" ∷ "case-18" ∷ "case-19" ∷ "case-20" ∷ []

abbrev stuck_cases : List CaseRow
stuck_cases = map waiting stuck_ids

abbrev late_case : CaseRow
late_case = waiting "case-21"

abbrev crowded : Database
crowded = record (db_with late_case) {
  cases = stuck_cases ++ late_case ∷ [];
  plans = map old_plan stuck_ids;
}

abbrev each_round : OrchestratorSurroundings
each_round = record { graph = runner; planning = sample_env; outbox_id = "out-1"; now = 1000 }

abbrev free_hand : OrchestratorSurroundings
free_hand = record each_round { planning = record sample_env { plan_id = "plan-21" } }

abbrev readable_at :
    (id : String) → find_case id crowded ≡ some (waiting id) → IsReadable crowded (waiting id)
unfolding can_plan
readable_at id found = record {
  merchant = record {
    id = "merchant-1";
    external_reference = "shop-1";
    segment = "subscription";
    config = sample_policy;
  };
  event = record { event = sample_event; ingestion_idempotency_key = "key-1" };
  is_open = refl;
  merchant_there = refl;
  event_there = refl;
  case_there = found;
}

abbrev stuck_at :
    (id : String) (found : find_case id crowded ≡ some (waiting id))
    → find_plan_by_key
        (next_plan each_round crowded (waiting id) (readable_at id found)).idempotency_key
        crowded
      ≡ some (old_plan id)
    → IsStuck each_round crowded (waiting id)
stuck_at id found there = record {
  reads = readable_at id found;
  old = old_plan id;
  waits = refl;
  plan_there = there;
}
