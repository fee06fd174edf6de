-- ===== src/Domain/Money/Laws.antt =====
-- How the operations on money fit together.
use fin_tech_ai.Base.{◌≡◌, ◌↔◌, ok, err, arith, eq_iff}
use fin_tech_ai.Base.Int.{pos, ◌≤ℤ◌, +ℤ_cancel, -ℤ_cancel, -ℤ_parts}
use fin_tech_ai.Contracts.{Money}
use fin_tech_ai.Domain.Errors.{invalid_money}
use fin_tech_ai.Domain.Money.{less, add_money, subtract_money, compare_money}

-- No amount is negative.
abbrev pub IsValid : Money → Type 0
IsValid m = pos 0 ≤ℤ m.amount_minor

-- Every amount that `subtractMoney` returns is valid, also where those it is given are not.
subtract_money-IsValid : (a b : Money) {c : Money} → subtract_money a b ≡ ok c → IsValid c
unfolding subtract_money
subtract_money-IsValid a b h = ground arith

-- What was added can be subtracted again: from a sum of valid amounts, taking off the second gives the
-- first.
pub subtract_money-add_money :
    (a b : Money) {c : Money} → IsValid a → add_money a b ≡ ok c → subtract_money c b ≡ ok a
unfolding add_money subtract_money
subtract_money-add_money a b v h =
    ground (arith, eq_iff a.currency b.currency, +ℤ_cancel a.amount_minor b.amount_minor)

-- What was subtracted can be added again.
add_money-subtract_money :
    (a b : Money) {c : Money} → subtract_money a b ≡ ok c → add_money c b ≡ ok a
unfolding add_money subtract_money
add_money-subtract_money a b h =
    ground (arith, eq_iff a.currency b.currency, -ℤ_cancel a.amount_minor b.amount_minor)

-- `subtractMoney` throws for a negative result exactly when `compareMoney` says less.
compare_money_less :
    (a b : Money) → (compare_money a b ≡ ok less) ↔ (subtract_money a b ≡ err invalid_money)
unfolding compare_money subtract_money
compare_money_less a b = (
  λ h. ground (arith, -ℤ_parts a.amount_minor b.amount_minor),
  λ h. ground (arith, -ℤ_parts a.amount_minor b.amount_minor),
)
