-- ===== src/Worker/Recovery/Settlement.antt =====
-- What the result of a provider means for the case and its amount at risk.
use fin_tech_ai.Base.{◌≡◌, inl, inr, true, some, arith, Option-cases}
use fin_tech_ai.Base.Int.{ℤ, pos, ltb_ℤ, ◌-ℤ◌, ◌+ℤ◌, ◌≤ℤ◌, -ℤ_cancel, -ℤ_parts}
use fin_tech_ai.Contracts.{Money, recovered, detected}
use fin_tech_ai.Worker.Recovery.{
  ExecutionActionType, initiate_payment_retry, ProviderResult, next_case_state, success_outcome,
  retry_outcome,
}

-- A payment retry that recovers less than the amount at risk sends the case back to `DETECTED` with what is
-- left: that and the amount recovered make up the amount at risk, and something is left.
pub partial_recovery :
    (result : ProviderResult) (m : Money) (at_risk : ℤ)
    → result.success ≡ true
    → result.recovered_amount ≡ some m
    → ltb_ℤ m.amount_minor at_risk ≡ true
    → (rest : ℤ) × (next_case_state initiate_payment_retry result at_risk ≡ (detected, some rest))
      × (rest +ℤ m.amount_minor ≡ at_risk)
      × (pos 1 ≤ℤ rest)
unfolding next_case_state success_outcome retry_outcome
partial_recovery result m at_risk success amount less = (
  at_risk -ℤ m.amount_minor,
  ground (arith, success, amount, less),
  -ℤ_cancel at_risk m.amount_minor,
  ground (arith, less, -ℤ_parts at_risk m.amount_minor),
)

-- A case counts as recovered only where the provider reported success; and after a payment retry only where
-- it reported an amount of at least the amount at risk.
pub recovered_only :
    (action : ExecutionActionType) (result : ProviderResult) (at_risk : ℤ)
    → (next_case_state action result at_risk).0 ≡ recovered
    → (result.success ≡ true)
      × (action ≡ initiate_payment_retry
          → (m : Money) × (result.recovered_amount ≡ some m) × (at_risk ≤ℤ m.amount_minor))
unfolding next_case_state success_outcome retry_outcome
recovered_only action result at_risk h = (
  ground arith,
  λ retry. elim (Option-cases result.recovered_amount) [
    | inl missing ↦ ground arith
    | inr (m, amount) ↦ (m, amount, ground (arith, h, retry, amount))
  ],
)
