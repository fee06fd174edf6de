-- ===== src/Domain/StateMachine/Lifecycle.antt =====
-- What every sequence of transitions of a case has in common.
use fin_tech_ai.Base.{
  ℕ, ◌+◌, ◌≤◌, ◌≡◌, ◌↔◌, ◌⊎◌, inl, inr, Bool, true, false, ◌||◌, List, [], ◌∷◌, map, exists, length,
  Result, ok, err, ◌>>=◌, >>=-eq-ok, arith,
}
use fin_tech_ai.Contracts.{
  RevenueCaseState, same_state, detected, qualified, diagnosed, planned, policy_checked, queued,
  executing, awaiting_customer_action, recovered, ambiguous, failed, retryable, escalated, stopped,
  rejected, RecoveryCase,
}
use fin_tech_ai.Domain.Errors.{DomainError}
use fin_tech_ai.Domain.StateMachine.{is_terminal, can_transition, transition_revenue_case}

-- A case that goes through the given states at the given times.
unfoldable apply_transitions :
    RecoveryCase → List (RevenueCaseState × ℕ) → Result DomainError RecoveryCase
apply_transitions rc [] = ok rc
apply_transitions rc ((s, now) ∷ steps) =
    transition_revenue_case rc s now >>= λ rc'. apply_transitions rc' steps

abbrev visits : RevenueCaseState → List (RevenueCaseState × ℕ) → Bool
visits s [] = false
visits s ((t, _) ∷ steps) = same_state s t || visits s steps

-- What a case keeps through its transitions.
pub record Same (rc rc' : RecoveryCase) : Type 0 where
  pub same_id : rc'.case_id ≡ rc.case_id
  pub same_amount : rc'.amount_at_risk ≡ rc.amount_at_risk
  pub same_attempts : rc'.attempt_count ≡ rc.attempt_count
  pub same_merchant : rc'.merchant_id ≡ rc.merchant_id
  pub same_customer : rc'.customer_id ≡ rc.customer_id

step-Same :
    (rc : RecoveryCase) (s : RevenueCaseState) (now : ℕ) {rc' : RecoveryCase}
    → transition_revenue_case rc s now ≡ ok rc'
    → Same rc rc' × (rc'.version ≡ rc.version + 1)
unfolding transition_revenue_case
step-Same rc s now h = ground arith

step_inversion :
    (rc : RecoveryCase) (s : RevenueCaseState) (now : ℕ) {rc' : RecoveryCase}
    → transition_revenue_case rc s now ≡ ok rc'
    → (can_transition rc.state s ≡ true) × (rc'.state ≡ s)
unfolding transition_revenue_case
step_inversion rc s now h = ground arith

-- When every transition is accepted, the version has grown by their number, and the case keeps its
-- id, its merchant and customer, its amount at risk and its attempts.
apply_transitions-version :
    (rc : RecoveryCase) (steps : List (RevenueCaseState × ℕ)) {rc' : RecoveryCase}
    → apply_transitions rc steps ≡ ok rc'
    → Same rc rc' × (rc'.version ≡ rc.version + length steps)
unfolding apply_transitions
apply_transitions-version rc [] h = ground arith
apply_transitions-version rc ((s, now) ∷ steps) h =
    let (mid, first, rest) = >>=-eq-ok (transition_revenue_case rc s now) _ h in
    grind (arith, step-Same rc s now first, apply_transitions-version mid steps rest)

no_exit : (s t : RevenueCaseState) → is_terminal s ≡ true → can_transition s t ≡ false
unfolding is_terminal can_transition
no_exit s t h = ground arith

-- A state is terminal exactly when no transition leaves it.
is_terminal-can_transition :
    (s : RevenueCaseState)
    → (is_terminal s ≡ true) ↔ ((t : RevenueCaseState) → can_transition s t ≡ false)
unfolding is_terminal can_transition
is_terminal-can_transition s = (
  λ h t. no_exit s t h,
  λ h. ground (
    arith,
    h qualified,
    h diagnosed,
    h escalated,
    h policy_checked,
    h queued,
    h executing,
    h recovered,
  ),
)

-- The states before the policy check, and those that a case can reach without it.
abbrev unchecked : RevenueCaseState → Bool
unchecked s = exists (same_state s) (
    detected ∷ qualified ∷ diagnosed ∷ planned ∷ escalated ∷ rejected ∷ recovered ∷ failed ∷ stopped
    ∷ [])

leave_unchecked :
    (s t : RevenueCaseState)
    → unchecked s ≡ true
    → can_transition s t ≡ true
    → (same_state policy_checked t ≡ true)
      ⊎ ((unchecked t ≡ true) × (same_state executing t ≡ false))
unfolding can_transition
leave_unchecked s t h k = ground arith

executing_checked :
    (rc : RecoveryCase) (steps : List (RevenueCaseState × ℕ)) {rc' : RecoveryCase}
    → unchecked rc.state ≡ true
    → apply_transitions rc steps ≡ ok rc'
    → visits executing steps ≡ true
    → visits policy_checked steps ≡ true
unfolding apply_transitions
executing_checked rc [] u h v = cc
executing_checked rc ((s, now) ∷ steps) u h v =
    let (mid, first, rest) = >>=-eq-ok (transition_revenue_case rc s now) _ h in
    let (allowed, at) = step_inversion rc s now first in
    elim (leave_unchecked rc.state s u allowed) [
      | inl checked ↦ rw checked
      | inr (early, other) ↦ ground (arith, other, executing_checked mid steps (rw at early) rest)
    ]

-- A detected case is executed only after its policy check: along any accepted transitions that visit
-- `EXECUTING`, `POLICY_CHECKED` is visited too.
executing_needs_policy_check :
    (rc : RecoveryCase) (steps : List (RevenueCaseState × ℕ)) {rc' : RecoveryCase}
    → rc.state ≡ detected
    → apply_transitions rc steps ≡ ok rc'
    → visits executing steps ≡ true
    → visits policy_checked steps ≡ true
executing_needs_policy_check rc steps d h v = executing_checked rc steps (rw d) h v

-- Each state has a shortest way to a terminal one.
unfoldable pub way_out : RevenueCaseState → List RevenueCaseState
way_out detected = rejected ∷ []
way_out qualified = rejected ∷ []
way_out diagnosed = escalated ∷ stopped ∷ []
way_out planned = rejected ∷ []
way_out policy_checked = stopped ∷ []
way_out queued = stopped ∷ []
way_out executing = stopped ∷ []
way_out awaiting_customer_action = stopped ∷ []
way_out retryable = stopped ∷ []
way_out escalated = stopped ∷ []
way_out ambiguous = stopped ∷ []
way_out _ = []

abbrev pub ends_terminal : Result DomainError RecoveryCase → Bool
ends_terminal (ok rc) = is_terminal rc.state
ends_terminal (err _) = false

-- From every state a case can be brought to a terminal state, by two transitions at most.
can_always_end :
    (rc : RecoveryCase) (now : ℕ)
    → (ends_terminal (apply_transitions rc (map (λ s. (s, now)) (way_out rc.state))) ≡ true)
      × (length (way_out rc.state) ≤ 2)
unfolding apply_transitions transition_revenue_case can_transition way_out is_terminal
can_always_end rc now = (ground arith, ground arith)
