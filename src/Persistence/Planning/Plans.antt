-- ===== src/Persistence/Planning/Plans.antt =====
-- Storing plans and enqueueing them: what a repeated call finds, and what happens to the case.
use fin_tech_ai.Base.{
  ◌⊎◌, find_row-append_new, find_row-update_row, find_row-key, ℕ, ◌+◌, ◌≡◌, refl, inl, inr, none,
  some, arith, eq_iff, String, Bool-cases, Option-cases, is_some, ok, err, ◌>>=◌, value_or,
  find_row,
}
use fin_tech_ai.Contracts.{same_state, RecoveryPlan, policy_checked, queued}
use fin_tech_ai.Persistence.Rows.{CaseRow, Database, find_case, has_version, moved_to, OutboxRow}
use fin_tech_ai.Persistence.Evolution.{Evolves, Evolves-refl, Evolves-update_case}
use fin_tech_ai.Persistence.Planning.{
  store_plan, new_outbox_event, PlanRow, OutboxStatus, plain_error, case_updated, ExecutionJob,
  CreatePlanCommand, create_plan_from, create_plan_with_planning_outcome, find_plan_by_key,
  enqueue_plan_from, enqueue_plan_with_outbox, find_outbox_by_key,
}

-- A plan is stored, from whatever was read before, by a write of the case that keeps the versions.
pub create_plan_from-Evolves :
    (existing : CaseRow) (command : CreatePlanCommand) (now : ℕ) (db : Database)
    → Evolves db (value_or db (create_plan_from existing command now db >>= λ p. ok p.1))
unfolding create_plan_from
create_plan_from-Evolves existing command now db =
    elim (Option-cases (find_plan_by_key command.plan.idempotency_key db)) [
      | inr (row, there) ↦ rw (create_plan_from, there) (Evolves-refl db)
      | inl new ↦ elim (Bool-cases (case_updated existing.id existing.version db)) [
        | inr stale ↦ rw (create_plan_from, new, stale) (Evolves-refl db)
        | inl fits ↦
            elim (Bool-cases (
              is_some (find_row (λ (r : PlanRow). r.plan.plan_id) command.plan.plan_id db.plans))) [
                | inl twice ↦ rw (create_plan_from, new, fits, twice) (Evolves-refl db)
                | inr fresh ↦
                    rw (create_plan_from, new, fits, fresh)
                      (Evolves-update_case existing.id existing.version _ db (λ r. refl) (λ r. refl)
                        (λ r. refl) (λ r. refl))
              ]
      ]
    ]

-- So is one enqueued.
pub enqueue_plan_from-Evolves :
    (existing : CaseRow) (plan_id key : String) (payload : ExecutionJob)
    (correlation_id id : String) (now : ℕ) (db : Database)
    → Evolves db
        (value_or db (enqueue_plan_from existing plan_id key payload correlation_id id now db))
unfolding enqueue_plan_from
enqueue_plan_from-Evolves existing plan_id key payload correlation_id id now db =
    elim (Bool-cases (same_state existing.state policy_checked)) [
      | inr other ↦ rw (enqueue_plan_from, other) (Evolves-refl db)
      | inl checked ↦ elim (Bool-cases (is_some (find_outbox_by_key key db))) [
        | inl there ↦ rw (enqueue_plan_from, checked, there) (Evolves-refl db)
        | inr new ↦ elim (Bool-cases (case_updated existing.id existing.version db)) [
          | inr stale ↦ rw (enqueue_plan_from, checked, new, stale) (Evolves-refl db)
          | inl fits ↦
              rw (enqueue_plan_from, checked, new, fits)
                (Evolves-update_case existing.id existing.version _ db (λ r. refl) (λ r. refl)
                  (λ r. refl) (λ r. refl))
        ]
      ]
    ]

-- Once a creation has returned a plan, any command for its case with its idempotency key returns the same
-- plan and changes nothing.
pub create_plan-replay :
    (command again : CreatePlanCommand) (now later : ℕ) (db db' : Database) (p : RecoveryPlan)
    → create_plan_with_planning_outcome command now db ≡ ok (p, db')
    → again.plan.case_id ≡ command.plan.case_id
    → again.plan.idempotency_key ≡ command.plan.idempotency_key
    → create_plan_with_planning_outcome again later db' ≡ ok (p, db')
unfolding create_plan_with_planning_outcome create_plan_from
create_plan-replay command again now later db db' p h same_case same_key =
    elim (Option-cases (find_case command.plan.case_id db)) [
      | inl missing ↦ ground arith
      | inr (existing, found) ↦
          let key_c =
            find_row-key (λ (r : CaseRow). r.id) command.plan.case_id db.cases existing found in
          let moved =
            find_row-update_row (λ (r : CaseRow). r.id) command.plan.case_id command.plan.case_id
              (has_version existing.version)
              (moved_to command.resulting_case_state (existing.version + 1) now) db.cases
              (λ r. refl) in
          let stored =
            find_row-append_new (λ (r : PlanRow). r.plan.idempotency_key)
              command.plan.idempotency_key db.plans
              (record { plan = command.plan; correlation_id = existing.correlation_id }) in
          ground (
            arith,
            key_c,
            moved,
            stored,
            eq_iff command.plan.case_id command.plan.case_id,
            eq_iff command.plan.idempotency_key command.plan.idempotency_key,
          )
    ]

-- An enqueue that finds no event of its key succeeds only for a case in `POLICY_CHECKED`. It leaves the case
-- in `QUEUED` at the next version, and a
-- pending event with the payload under the key.
pub enqueue_plan-moves :
    (case_id plan_id key : String) (payload : ExecutionJob) (correlation_id id : String) (now : ℕ)
    (db db' : Database)
    → find_outbox_by_key key db ≡ none
    → enqueue_plan_with_outbox case_id plan_id key payload correlation_id id now db ≡ ok db'
    → (c : CaseRow) × (e : OutboxRow) × (find_case case_id db ≡ some c)
      × (c.state ≡ policy_checked)
      × (find_case case_id db' ≡ some (moved_to queued (c.version + 1) now c))
      × (find_outbox_by_key key db' ≡ some e)
      × (e.status ≡ OutboxStatus.pending)
      × (e.payload ≡ payload)
unfolding enqueue_plan_with_outbox enqueue_plan_from
enqueue_plan-moves case_id plan_id key payload correlation_id id now db db' new h =
    elim (Option-cases (find_case case_id db)) [
      | inl missing ↦ ground arith
      | inr (existing, found) ↦
          let key_c = find_row-key (λ (r : CaseRow). r.id) case_id db.cases existing found in
          let moved =
            find_row-update_row (λ (r : CaseRow). r.id) case_id case_id
              (has_version existing.version) (moved_to queued (existing.version + 1) now) db.cases
              (λ r. refl) in
          let sent =
            find_row-append_new (λ (r : OutboxRow). r.idempotency_key) key db.outbox
              (new_outbox_event id plan_id key payload now) in
          (
            existing,
            new_outbox_event id plan_id key payload now,
            found,
            ground arith,
            ground (arith, key_c, moved, eq_iff case_id case_id),
            ground (arith, sent, eq_iff key key),
            refl,
            refl,
          )
    ]

-- After an enqueue that found no event of its key and succeeded, every other one for the case fails, also
-- one with the same key.
enqueue_plan-again :
    (case_id plan_id key : String) (payload : ExecutionJob) (correlation_id id : String) (now : ℕ)
    (db db' : Database)
    → find_outbox_by_key key db ≡ none
    → enqueue_plan_with_outbox case_id plan_id key payload correlation_id id now db ≡ ok db'
    → (plan_id' key' : String) (payload' : ExecutionJob) (correlation_id' id' : String) (later : ℕ)
    → enqueue_plan_with_outbox case_id plan_id' key' payload' correlation_id' id' later db'
      ≡ err (plain_error "Case is not in POLICY_CHECKED state")
unfolding enqueue_plan_with_outbox enqueue_plan_from
enqueue_plan-again case_id plan_id key payload correlation_id id now db db' new h plan_id' key'
      payload' correlation_id' id' later =
    let (c, e, found, checked, moved, there, s, p) =
      enqueue_plan-moves case_id plan_id key payload correlation_id id now db db' new h in
    rw (enqueue_plan_with_outbox, moved) refl

-- A plan that the repository accepts is stored, or there was one with its key.
pub create_plan-stored :
    (command : CreatePlanCommand) (now : ℕ) (db db' : Database) (p : RecoveryPlan)
    → create_plan_with_planning_outcome command now db ≡ ok (p, db')
    → ((db' ≡ db)
        × (old : PlanRow) × (find_plan_by_key command.plan.idempotency_key db ≡ some old)
        × (old.plan ≡ p))
      ⊎ ((p ≡ command.plan)
          × (row : PlanRow) × (find_plan_by_key command.plan.idempotency_key db' ≡ some row)
          × (row.plan ≡ command.plan)
          × (c : CaseRow) × (find_case command.plan.case_id db' ≡ some c)
          × (c.state ≡ command.resulting_case_state))
unfolding create_plan_with_planning_outcome create_plan_from
create_plan-stored command now db db' p h =
    elim (Option-cases (find_case command.plan.case_id db)) [
      | inl missing ↦ ground arith
      | inr (existing, found) ↦
          elim (Option-cases (find_plan_by_key command.plan.idempotency_key db)) [
            | inr (row, there) ↦ inl (ground arith, row, there, ground arith)
            | inl new ↦
                let key_c =
                  find_row-key (λ (r : CaseRow). r.id) command.plan.case_id db.cases existing
                    found in
                let moved =
                  find_row-update_row (λ (r : CaseRow). r.id) command.plan.case_id
                    command.plan.case_id (has_version existing.version)
                    (moved_to command.resulting_case_state (existing.version + 1) now) db.cases
                    (λ r. refl) in
                let row : PlanRow = record {
                  plan = command.plan;
                  correlation_id = existing.correlation_id;
                } in
                let stored =
                  find_row-append_new (λ (r : PlanRow). r.plan.idempotency_key)
                    command.plan.idempotency_key db.plans row in
                inr (
                  ground arith,
                  row,
                  ground (
                    arith,
                    stored,
                    eq_iff command.plan.idempotency_key command.plan.idempotency_key,
                  ),
                  refl,
                  moved_to command.resulting_case_state (existing.version + 1) now existing,
                  ground (arith, key_c, moved, eq_iff command.plan.case_id command.plan.case_id),
                  refl,
                )
          ]
    ]

-- A new plan is stored whatever the state of its case: also a case that is being executed, or has been
-- recovered or stopped, since the plan was made is set to the state that the command gives.
pub create_plan-any_state :
    (command : CreatePlanCommand) (now : ℕ) (db : Database) (c : CaseRow)
    → find_case command.plan.case_id db ≡ some c
    → find_plan_by_key command.plan.idempotency_key db ≡ none
    → find_row (λ (r : PlanRow). r.plan.plan_id) command.plan.plan_id db.plans ≡ none
    → (db' : Database) × (create_plan_with_planning_outcome command now db ≡ ok (command.plan, db'))
      × (find_case command.plan.case_id db'
          ≡ some (moved_to command.resulting_case_state (c.version + 1) now c))
unfolding create_plan_with_planning_outcome create_plan_from
create_plan-any_state command now db c found new fresh =
    let key_c = find_row-key (λ (r : CaseRow). r.id) command.plan.case_id db.cases c found in
    let moved =
      find_row-update_row (λ (r : CaseRow). r.id) command.plan.case_id command.plan.case_id
        (has_version c.version) (moved_to command.resulting_case_state (c.version + 1) now) db.cases
        (λ r. refl) in
    (
      store_plan command c now db,
      ground (arith, key_c),
      ground (arith, key_c, moved, eq_iff command.plan.case_id command.plan.case_id),
    )
