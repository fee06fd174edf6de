-- ===== src/Persistence/Evolution.antt =====
-- How the rows of cases may change: each change of a row raises its version. On this rests the optimistic
-- concurrency control, which takes an equal version for an unchanged row.
use fin_tech_ai.Base.{
  eq_iff, ◌==◌, inl, inr, str_eq, Bool-cases, find_row-update_row, ◌+◌, some, ◌∙◌, arith, String,
  ◌≤◌, ℕ, ◌≡◌,
}
use fin_tech_ai.Persistence.Rows.{CaseRow, Database, find_case, update_case, has_version}

-- `c` has become `c'`.
pub record RowEvolves (c c' : CaseRow) : Type 0 where
  pub same_id : c'.id ≡ c.id
  pub same_attempts : c'.attempt_count ≡ c.attempt_count
  pub same_event : c'.source_event_id ≡ c.source_event_id
  pub version_grows : c.version ≤ c'.version
  pub changes_versioned : c'.version ≡ c.version → c' ≡ c

-- Every case is kept, and has become itself or a later version of itself.
abbrev pub Evolves : Database → Database → Type 0
Evolves db db' =
    (id : String) (c : CaseRow)
    → find_case id db ≡ some c
    → (c' : CaseRow) × (find_case id db' ≡ some c') × RowEvolves c c'

pub Evolves-refl : (db : Database) → Evolves db db
Evolves-refl db id c h = (c, h, ground arith)

RowEvolves-trans : (a b c : CaseRow) → RowEvolves a b → RowEvolves b c → RowEvolves a c
RowEvolves-trans a b c p q = record {
  same_id = q.same_id ∙ p.same_id;
  same_attempts = q.same_attempts ∙ p.same_attempts;
  same_event = q.same_event ∙ p.same_event;
  version_grows = omega (arith, p.version_grows, q.version_grows);
  changes_versioned = λ e.
      q.changes_versioned (omega (arith, p.version_grows, q.version_grows, e))
      ∙ p.changes_versioned (omega (arith, p.version_grows, q.version_grows, e));
}

pub Evolves-trans : (a b c : Database) → Evolves a b → Evolves b c → Evolves a c
Evolves-trans a b c p q id r h =
    let (s, hs, ps) = p id r h in
    let (t, ht, pt) = q id s hs in (t, ht, RowEvolves-trans r s t ps pt)

-- A change of other tables alone.
pub Evolves-same : (db db' : Database) → db'.cases ≡ db.cases → Evolves db db'
Evolves-same db db' e id c h = (c, rw e h, ground arith)

-- A write at a version that sets the next version.
pub Evolves-update_case :
    (id : String) (v : ℕ) (f : CaseRow → CaseRow) (db : Database)
    → ((r : CaseRow) → (f r).id ≡ r.id)
    → ((r : CaseRow) → (f r).attempt_count ≡ r.attempt_count)
    → ((r : CaseRow) → (f r).source_event_id ≡ r.source_event_id)
    → ((r : CaseRow) → (f r).version ≡ v + 1)
    → Evolves db (update_case id v f db)
Evolves-update_case id v f db same_id same_attempts same_event next j c h =
    let read =
      find_row-update_row (λ (r : CaseRow). r.id) id j (has_version v) f db.cases same_id in
    elim (Bool-cases (str_eq id j)) [
      | inr other ↦ (c, read ∙ rw (other) h, ground arith)
      | inl here ↦ elim (Bool-cases (c.version == v)) [
        | inl fits ↦ (
          f c,
          ground (arith, read, h, eq_iff id j),
          ground (arith, same_id c, same_attempts c, same_event c, next c),
        )
        | inr stale ↦ (c, ground (arith, read, h, eq_iff id j), ground arith)
      ]
    ]
