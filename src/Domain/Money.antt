-- ===== src/Domain/Money.antt =====
-- libs/domain/src/money-helpers.ts: arithmetic on amounts of one currency.
pub mod Laws
use fin_tech_ai.Base.{
  Bool, not, Result, ok, err, ◌>>=◌, ◌>>◌, throw_if, str_eq, if◌then◌else◌, String,
}
use fin_tech_ai.Base.Int.{ℤ, pos, ◌+ℤ◌, ◌-ℤ◌, ltb_ℤ}
use fin_tech_ai.Contracts.{Money}
use fin_tech_ai.Domain.Errors.{DomainError, currency_mismatch, invalid_money}

-- The `number` that `compareMoney` returns: -1, 0 or 1.
pub data Sign : Type 0 where
  less equal greater : Sign

unfoldable pub create_money : ℤ → String → Result DomainError Money
create_money amount_minor currency = do
  throw_if (ltb_ℤ amount_minor (pos 0)) invalid_money
  ok (record { amount_minor = amount_minor; currency = currency })

unfoldable pub add_money : Money → Money → Result DomainError Money
add_money a b = do
  throw_if (not (str_eq a.currency b.currency)) currency_mismatch
  ok (record { amount_minor = a.amount_minor +ℤ b.amount_minor; currency = a.currency })

unfoldable pub subtract_money : Money → Money → Result DomainError Money
subtract_money a b = do
  throw_if (not (str_eq a.currency b.currency)) currency_mismatch
  let result = a.amount_minor -ℤ b.amount_minor
  throw_if (ltb_ℤ result (pos 0)) invalid_money
  ok (record { amount_minor = result; currency = a.currency })

unfoldable pub compare_money : Money → Money → Result DomainError Sign
compare_money a b = do
  throw_if (not (str_eq a.currency b.currency)) currency_mismatch
  ok (
      if ltb_ℤ a.amount_minor b.amount_minor
      then less
      else if ltb_ℤ b.amount_minor a.amount_minor
      then greater
      else equal)
