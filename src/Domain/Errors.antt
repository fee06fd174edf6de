-- ===== src/Domain/Errors.antt =====
-- libs/domain/src/errors.ts: what the domain throws. `plain_error` is a bare `Error`, with its message.
use fin_tech_ai.Base.{String}
use fin_tech_ai.Contracts.{RevenueCaseState}

pub data DomainError : Type 0 where
  invalid_state_transition : RevenueCaseState → RevenueCaseState → DomainError
  policy_violation currency_mismatch invalid_money invalid_idempotency_input : DomainError
  plain_error : String → DomainError
