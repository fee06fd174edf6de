-- ===== src/Persistence/Outbox/Claims.antt =====
-- Who holds an event of the outbox.
use fin_tech_ai.Base.{
  length-take, ap, suc, ℕ, zero, suc, ◌+◌, ◌≤◌, ◌≡◌, refl, ◌∙◌, inl, inr, Bool, false, List, [],
  ◌∷◌, map, arith, String, Bool-cases, length, keep, exists, update_all,
}
use fin_tech_ai.Base.{take, length-take}
use fin_tech_ai.Persistence.Rows.{OutboxRow, Database}
use fin_tech_ai.Persistence.Outbox.{
  is_claimable, claimed_until, is_among, claimable_rows, claim_pending_outbox_events,
}

-- A property of rows that filtering and cutting keep.
exists-take :
    (p : OutboxRow → Bool) (n : ℕ) (rows : List OutboxRow)
    → exists p rows ≡ false
    → exists p (take n rows) ≡ false
exists-take p zero rows h = refl
exists-take p (suc n) [] h = refl
exists-take p (suc n) (r ∷ rows) h = ground (arith, h, exists-take p n rows)

module _ (taken : List OutboxRow) (until later : ℕ) (worker_id : String)
    (in_time : later ≤ until) where
  -- Rows that are claimed until then are not claimable before.
  claimed_not_claimable :
      (rows : List OutboxRow)
      → exists (is_among taken) (
          keep
            (is_claimable later)
            (update_all (is_among taken) (claimed_until until worker_id) rows))
        ≡ false
  claimed_not_claimable [] = refl
  claimed_not_claimable (r ∷ rows) =
      let rest = claimed_not_claimable rows in
      elim (Bool-cases (is_among taken r)) [
        | inl mine ↦ ground (arith, mine, rest, in_time)
        | inr free ↦ ground (arith, free, rest)
      ]

among-map :
    (until : ℕ) (worker_id : String) (rows : List OutboxRow) (r : OutboxRow)
    → is_among (map (claimed_until until worker_id) rows) r ≡ is_among rows r
among-map until worker_id [] r = refl
among-map until worker_id (s ∷ rows) r = ground (arith, among-map until worker_id rows r)

-- Claiming changes no id: neither of the rows looked for nor of those looked at.
among-claimed :
    (until until' : ℕ) (worker_id worker_id' : String) (rows others : List OutboxRow)
    → exists
        (is_among (map (claimed_until until worker_id) rows))
        (map (claimed_until until' worker_id') others)
      ≡ exists (is_among rows) others
among-claimed until until' worker_id worker_id' rows [] = refl
among-claimed until until' worker_id worker_id' rows (r ∷ others) = ground (
  arith,
  among-map until worker_id rows (claimed_until until' worker_id' r),
  among-claimed until until' worker_id worker_id' rows others,
)

length-map : {A B : Type 0} (f : A → B) (xs : List A) → length (map f xs) ≡ length xs
length-map f [] = refl
length-map f (x ∷ xs) = ap suc (length-map f xs)

-- A claim takes at most a batch, and no other claim takes the same event again before its lock has run out.
pub claim-exclusive :
    (batch_size lock_duration_ms : ℕ) (worker_id : String) (now : ℕ) (db : Database)
    (batch_size' lock_duration_ms' : ℕ) (worker_id' : String) (later : ℕ)
    → later ≤ now + lock_duration_ms
    → let (rows, db') = claim_pending_outbox_events batch_size lock_duration_ms worker_id now db in
      let (rows', _) =
        claim_pending_outbox_events batch_size' lock_duration_ms' worker_id' later db' in
      (length rows ≤ batch_size) × (exists (is_among rows) rows' ≡ false)
unfolding claim_pending_outbox_events claimable_rows
claim-exclusive batch_size lock_duration_ms worker_id now db batch_size' lock_duration_ms'
      worker_id' later in_time =
    let rows = claimable_rows batch_size now db in
    let until = now + lock_duration_ms in
    let later_rows =
      keep (is_claimable later)
        (update_all (is_among rows) (claimed_until until worker_id) db.outbox) in
    (
      rw (length-map (claimed_until until worker_id) rows)
          (length-take batch_size (keep (is_claimable now) db.outbox)),
      among-claimed until (later + lock_duration_ms') worker_id worker_id' rows
            (take batch_size' later_rows)
          ∙ exists-take (is_among rows) batch_size' later_rows
              (claimed_not_claimable rows until later worker_id in_time db.outbox),
    )
