-- ===== src/Domain/StateMachine.antt =====
-- libs/domain/src/state-machine.ts: which transitions a recovery case may make.
pub mod Lifecycle
use fin_tech_ai.Base.{ℕ, ◌+◌, Bool, not, List, [], ◌∷◌, exists, Result, ok, ◌>>=◌, ◌>>◌, throw_if}
use fin_tech_ai.Contracts.{
  RevenueCaseState, same_state, detected, qualified, diagnosed, planned, policy_checked, queued,
  executing, awaiting_customer_action, recovered, ambiguous, failed, retryable, escalated, stopped,
  expired, rejected, RecoveryCase,
}
use fin_tech_ai.Domain.Errors.{DomainError, invalid_state_transition}

unfoldable pub is_terminal : RevenueCaseState → Bool
is_terminal state =
    exists (same_state state) (recovered ∷ failed ∷ stopped ∷ expired ∷ rejected ∷ [])

unfoldable pub valid_transitions : RevenueCaseState → List RevenueCaseState
valid_transitions detected = qualified ∷ rejected ∷ []
valid_transitions qualified = diagnosed ∷ rejected ∷ []
valid_transitions diagnosed = planned ∷ escalated ∷ []
valid_transitions planned = policy_checked ∷ rejected ∷ []
valid_transitions policy_checked = queued ∷ rejected ∷ stopped ∷ []
valid_transitions queued = executing ∷ stopped ∷ []
valid_transitions executing =
    recovered ∷ failed ∷ retryable ∷ escalated ∷ stopped ∷ awaiting_customer_action ∷ ambiguous ∷ []
valid_transitions awaiting_customer_action =
    recovered ∷ failed ∷ retryable ∷ escalated ∷ stopped ∷ expired ∷ []
valid_transitions retryable = planned ∷ queued ∷ escalated ∷ stopped ∷ expired ∷ []
valid_transitions escalated = stopped ∷ recovered ∷ failed ∷ []
valid_transitions ambiguous = recovered ∷ failed ∷ retryable ∷ escalated ∷ stopped ∷ []
valid_transitions recovered = []
valid_transitions failed = []
valid_transitions stopped = []
valid_transitions expired = []
valid_transitions rejected = []

unfoldable pub can_transition : RevenueCaseState → RevenueCaseState → Bool
unfolding valid_transitions
can_transition from to = exists (same_state to) (valid_transitions from)

unfoldable pub assert_transition :
    RevenueCaseState → RevenueCaseState → Result DomainError (Unit {0})
unfolding can_transition
assert_transition from to =
    throw_if (not (can_transition from to)) (invalid_state_transition from to)

unfoldable pub transition_revenue_case :
    RecoveryCase → RevenueCaseState → ℕ → Result DomainError RecoveryCase
unfolding assert_transition
transition_revenue_case rc next_state now = do
  assert_transition rc.state next_state
  ok (record rc { state = next_state; updated_at = now; version = rc.version + 1 })
