-- ===== src/Base/Table.antt =====
-- A database table: its rows, and reads and writes by a key that no two rows share.
use Prim.Native.String.{String}
use mathlib.Core.Path.{◌≡◌, refl}
use mathlib.Core.Bool.{Bool, false}
use mathlib.Core.Option.{Option, none, some}
use mathlib.Core.List.{List, [], ◌∷◌, ◌++◌}
use native.Mathlib.Omega.{arith}
use text.Mathlib.Text.{◌==◌ as str_eq}
use text.Mathlib.TextEquality.{eq_iff}
use fin_tech_ai.Base.Tests.{if◌then◌else◌}

module _ {R : Type 0} (key : R → String) where
  -- `findUnique({ where: { key } })`
  abbrev pub find_row : String → List R → Option R
  find_row k [] = none
  find_row k (r ∷ rs) = if str_eq (key r) k then some r else find_row k rs

  -- `updateMany({ where: { key, … }, data })`: the row with the key, if it meets the rest.
  abbrev pub update_row : String → (R → Bool) → (R → R) → List R → List R
  update_row k p f [] = []
  update_row k p f (r ∷ rs) =
      if str_eq (key r) k then (if p r then f r else r) ∷ rs else r ∷ update_row k p f rs

abbrev pub update_if : {R : Type 0} → (R → Bool) → (R → R) → Option R → Option R
update_if p f none = none
update_if p f (some r) = some (if p r then f r else r)

-- `count > 0` of such an update.
abbrev pub matches : {R : Type 0} → (R → Bool) → Option R → Bool
matches p none = false
matches p (some r) = p r

-- `updateMany({ where: …, data })` over a whole table.
abbrev pub update_all : {R : Type 0} → (R → Bool) → (R → R) → List R → List R
update_all p f [] = []
update_all p f (r ∷ rs) = (if p r then f r else r) ∷ update_all p f rs

module _ {R : Type 0} (key : R → String) where
  -- A read after a write by key: the row written is read back changed, every other row as it was.
  pub find_row-update_row :
      (k j : String) (p : R → Bool) (f : R → R) (rows : List R)
      → ((r : R) → key (f r) ≡ key r)
      → find_row key j (update_row key k p f rows)
        ≡ (if str_eq k j then update_if p f (find_row key k rows) else find_row key j rows)
  find_row-update_row k j p f [] h = ground arith
  find_row-update_row k j p f (r ∷ rs) h =
      ground (
        arith,
        h r,
        eq_iff (key r) k,
        eq_iff (key r) j,
        eq_iff k j,
        find_row-update_row k j p f rs h,
      )

  pub find_row-append_new :
      (k : String) (rows : List R) (r : R)
      → find_row key k (rows ++ r ∷ []) ≡ elim (find_row key k rows) [
        | none ↦ (if str_eq (key r) k then some r else none)
        | some s ↦ some s
      ]
  find_row-append_new k [] r = refl
  find_row-append_new k (s ∷ rows) r = ground (arith, find_row-append_new k rows r)

  pub find_row-key : (k : String) (rows : List R) (r : R) → find_row key k rows ≡ some r → key r ≡ k
  find_row-key k [] r h = cc
  find_row-key k (s ∷ rows) r h = ground (arith, eq_iff (key s) k, find_row-key k rows r)
