-- ===== src/Contracts/Case.antt =====
-- libs/contracts/src/case.ts and money.ts: the state of a recovery case, and the case itself. Dates are
-- milliseconds since the epoch, amounts are whole minor units.
use fin_tech_ai.Base.{ℕ, Bool, ◌==◌, Option, String}
use fin_tech_ai.Base.Int.{ℤ}

-- `RevenueCaseState`
pub data RevenueCaseState : Type 0 where
  detected qualified diagnosed planned : RevenueCaseState
  policy_checked queued executing awaiting_customer_action : RevenueCaseState
  recovered ambiguous failed retryable : RevenueCaseState
  escalated stopped expired rejected : RevenueCaseState

abbrev pub index_state : RevenueCaseState → ℕ
index_state detected = 0
index_state qualified = 1
index_state diagnosed = 2
index_state planned = 3
index_state policy_checked = 4
index_state queued = 5
index_state executing = 6
index_state awaiting_customer_action = 7
index_state recovered = 8
index_state ambiguous = 9
index_state failed = 10
index_state retryable = 11
index_state escalated = 12
index_state stopped = 13
index_state expired = 14
index_state rejected = 15

-- `===` on `RevenueCaseState`.
abbrev pub same_state : RevenueCaseState → RevenueCaseState → Bool
same_state a b = index_state a == index_state b

pub record Money : Type 0 where
  pub amount_minor : ℤ
  pub currency : String

pub record RecoveryCase : Type 0 where
  pub case_id : String
  pub source_event_id : String
  pub merchant_id : String
  pub customer_id : String
  pub amount_at_risk : Money
  pub state : RevenueCaseState
  pub attempt_count : ℕ
  pub recovery_score : Option ℕ
  pub root_cause : Option String
  pub created_at : ℕ
  pub updated_at : ℕ
  pub version : ℕ
  pub correlation_id : String
