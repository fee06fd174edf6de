-- ===== src/Api/Orchestrator/Progress.antt =====
-- What a round of the orchestrator does with a case whose plan is new.
use fin_tech_ai.Api.Planning.Service.{enqueue_plan-approved}
use fin_tech_ai.Persistence.Planning.Plans.{create_plan-stored, create_plan-any_state}
use fin_tech_ai.Domain.Dunning.Nodes.{make_plan}
use fin_tech_ai.Base.{
  ◌&&◌, not, Bool-cases, Result-cases, value_or, find_row, ◌≡◌, refl, true, some, arith, str_eq,
  eq_iff, ok,
}
use fin_tech_ai.Contracts.{same_state, RecoveryPlan}
use fin_tech_ai.Domain.Planning.{PlanProposalInput, can_plan}
use fin_tech_ai.Domain.Planning.Proposal.{proposal, propose_open}
use fin_tech_ai.Persistence.Rows.{
  PlanRow, CaseRow, EventRow, MerchantRow, Database, find_case, find_event, find_merchant,
}
use fin_tech_ai.Persistence.Planning.{
  CreatePlanCommand, enqueue_plan_from, enqueue_plan_with_outbox, find_plan_by_key, CaseContext,
  to_recovery_case, get_case_with_source_event_and_merchant_policy, get_active_intervention_summary,
  create_plan_with_planning_outcome,
}
use fin_tech_ai.Api.Planning.{
  enqueue_plan, create_plan, create_plan_for, propose_for, plan_input, to_response,
}
use fin_tech_ai.Api.Orchestrator.{
  policy_checked, inr, inl, ℕ, Option, String, none, orchestrate_case, OrchestratorSurroundings,
}

-- What planning reads of a case, and that it may plan.
pub record IsReadable (db : Database) (r : CaseRow) : Type 0 where
  pub merchant : MerchantRow
  pub event : EventRow
  pub is_open : can_plan r.state ≡ true
  pub merchant_there : find_merchant r.merchant_id db ≡ some merchant
  pub event_there : find_event r.source_event_id db ≡ some event
  pub case_there : find_case r.id db ≡ some r

module _ (env : OrchestratorSurroundings) (db : Database) (r : CaseRow)
    (reads : IsReadable db r) where
  abbrev pub read_context : CaseContext
  read_context = record {
    rev_case = to_recovery_case r;
    source_event = some reads.event.event;
    merchant_policy = some reads.merchant.config;
  }

  abbrev pub read_input : PlanProposalInput
  read_input =
      plan_input read_context reads.event.event reads.merchant.config
        (get_active_intervention_summary r.id db) env.now

  -- The plan that the steps lead to for the case.
  abbrev pub next_plan : RecoveryPlan
  next_plan = (proposal env.planning read_input).plan

  pub read_there : get_case_with_source_event_and_merchant_policy r.id db ≡ some read_context
  unfolding get_case_with_source_event_and_merchant_policy
  read_there = rw (reads.case_there, reads.event_there, reads.merchant_there) refl

  -- Planning answers with what the repository stores or has.
  pub plan_answered :
      (plan : RecoveryPlan) (db' : Database)
      → create_plan_with_planning_outcome
          (record {
            plan = next_plan;
            resulting_case_state = (proposal env.planning read_input).resulting_case_state;
          })
          env.now
          db
        ≡ ok (plan, db')
      → create_plan env.graph env.planning r.id reads.merchant.config.policy_version
          (some r.correlation_id)
          env.now
          db
          db
        ≡ ok (
          to_response read_context (proposal env.planning read_input) plan (some r.correlation_id),
          db',
        )
  unfolding create_plan create_plan_for propose_for can_plan
  plan_answered plan db' accepted =
      let version = reads.merchant.config.policy_version in
      let same_version : str_eq version version ≡ true = ground (arith, eq_iff version version) in
      rw
        (
          create_plan,
          read_there,
          create_plan_for,
          propose_for,
          propose_open env.graph env.planning read_input reads.is_open,
          accepted,
          same_version,
        )
        refl

-- An enqueue leaves the plans alone.
enqueue_plan-plans :
    (case_id plan_id : String) (correlation_id : Option String) (id : String) (now : ℕ)
    (seen db : Database)
    → (value_or db (enqueue_plan case_id plan_id correlation_id id now seen db)).plans ≡ db.plans
unfolding enqueue_plan_with_outbox enqueue_plan_from
enqueue_plan-plans case_id plan_id correlation_id id now seen db =
    elim (Result-cases (enqueue_plan case_id plan_id correlation_id id now seen db)) [
      | inl (e, failed) ↦ rw failed refl
      | inr (db', done) ↦
          let (context, plan, corr, _, _, _, _, _, written) =
            enqueue_plan-approved case_id plan_id correlation_id id now seen db db' done in
          rw done (ground (arith, written))
    ]

-- A case whose next plan is new: neither its key nor its id are there.
pub record IsNew (env : OrchestratorSurroundings) (db : Database) (r : CaseRow) : Type 0 where
  pub reads : IsReadable db r
  pub key_free : find_plan_by_key (next_plan env db r reads).idempotency_key db ≡ none
  pub id_free :
      find_row (λ (p : PlanRow). p.plan.plan_id) (next_plan env db r reads).plan_id db.plans ≡ none

-- The orchestrator stores the plan of such a case.
pub orchestrate_case-stores :
    (env : OrchestratorSurroundings) (db : Database) (r : CaseRow) (new : IsNew env db r)
    → (row : PlanRow) × (find_plan_by_key
          (next_plan env db r new.reads).idempotency_key
          (orchestrate_case env r db)
        ≡ some row)
      × (row.plan ≡ next_plan env db r new.reads)
unfolding orchestrate_case proposal make_plan
orchestrate_case-stores env db r new =
    let p = proposal env.planning (read_input env db r new.reads) in
    let command : CreatePlanCommand = record {
      plan = p.plan;
      resulting_case_state = p.resulting_case_state;
    } in
    let (db', accepted, _) =
      create_plan-any_state command env.now db r new.reads.case_there new.key_free new.id_free in
    let answered = plan_answered env db r new.reads p.plan db' accepted in
    elim (create_plan-stored command env.now db db' p.plan accepted) [
      | inl (_, old, there, _) ↦ absurd (ground (arith, there, new.key_free))
      | inr (_, row, stored, is_plan, _, _, _) ↦
          elim (Bool-cases (
            same_state p.resulting_case_state policy_checked
            && not p.policy_decision.requires_human_approval)) [
              | inl goes ↦ (
                row,
                rw (orchestrate_case, new.reads.merchant_there, answered, goes)
                    (rw
                      (enqueue_plan-plans r.id p.plan.plan_id (some r.correlation_id) env.outbox_id
                        env.now db' db')
                      stored),
                is_plan,
              )
              | inr stays ↦ (
                row,
                rw (orchestrate_case, new.reads.merchant_there, answered, stays) stored,
                is_plan,
              )
            ]
    ]
