-- ===== src/Persistence/Execution/Locks.antt =====
-- The lock that a worker claims before it executes an intervention.
use fin_tech_ai.Base.{
  find_row-update_row, ◌↔◌, ℕ, ◌+◌, ◌≤◌, ◌≡◌, ◌≢◌, refl, inl, inr, true, false, none, some, List,
  [], ◌∷◌, arith, eq_iff, String, if◌then◌else◌, Option-cases, matches,
}
use fin_tech_ai.Persistence.Rows.{InterventionRow, Database, find_intervention}
use fin_tech_ai.Persistence.Locking.{claim_execution_lock, is_unlocked, locked_for}

-- A claim succeeds exactly where the intervention exists and nobody holds it.
claim_iff :
    (id worker_id : String) (now : ℕ) (db : Database)
    → ((claim_execution_lock id worker_id now db).0 ≡ true)
      ↔ ((r : InterventionRow) × (find_intervention id db ≡ some r) × (r.locked_by ≡ none))
unfolding claim_execution_lock
claim_iff id worker_id now db = elim (Option-cases (find_intervention id db)) [
  | inl missing ↦ ground arith
  | inr (r, found) ↦ (λ h. (r, found, ground arith), λ (s, h, k). ground arith)
]

-- What a claim leaves for the next: nothing where it succeeded, the table as it was where it did not.
claim-next :
    (id worker_id : String) (now : ℕ) (db : Database)
    → matches is_unlocked (find_intervention id (claim_execution_lock id worker_id now db).1)
      ≡ false
unfolding claim_execution_lock
claim-next id worker_id now db =
    let read =
      find_row-update_row (λ (r : InterventionRow). r.id) id id is_unlocked
        (locked_for worker_id now) db.interventions (λ r. refl) in
    ground (arith, read, eq_iff id id)

-- The number of workers of a sequence of claims, in any order and at any times, that get the lock.
unfoldable pub winners : String → List (String × ℕ) → Database → ℕ
winners id [] db = 0
winners id ((worker_id, now) ∷ rest) db =
    let (won, db') = claim_execution_lock id worker_id now db in
    (if won then 1 else 0) + winners id rest db'

locked_out :
    (id : String) (claims : List (String × ℕ)) (db : Database)
    → matches is_unlocked (find_intervention id db) ≡ false
    → winners id claims db ≡ 0
unfolding winners claim_execution_lock
locked_out id [] db h = refl
locked_out id ((worker_id, now) ∷ rest) db h = ground (
  arith,
  locked_out id rest (claim_execution_lock id worker_id now db).1 (claim-next id worker_id now db),
)

-- Of any sequence of claims of an intervention, at most one succeeds.
pub winners-bounded :
    (id : String) (claims : List (String × ℕ)) (db : Database) → winners id claims db ≤ 1
unfolding winners
winners-bounded id [] db = omega arith
winners-bounded id ((worker_id, now) ∷ rest) db =
    let none_left =
      locked_out id rest (claim_execution_lock id worker_id now db).1
        (claim-next id worker_id now db) in
    ground (arith, none_left)

-- A claim of one intervention leaves the claims of every other as they are.
claim-other :
    (id other worker_id worker_id' : String) (now later : ℕ) (db : Database)
    → other ≢ id
    → (claim_execution_lock other worker_id' later (claim_execution_lock id worker_id now db).1).0
      ≡ (claim_execution_lock other worker_id' later db).0
unfolding claim_execution_lock
claim-other id other worker_id worker_id' now later db different =
    let read =
      find_row-update_row (λ (r : InterventionRow). r.id) id other is_unlocked
        (locked_for worker_id now) db.interventions (λ r. refl) in
    ground (arith, read, eq_iff id other)
