-- ===== src/Domain/Text.antt =====
-- The string operations that the domain uses on event types and failure reasons. `toUpperCase` is
-- modelled on ASCII texts, to which the strings that it is compared with belong.
use Prim.Native.Char.{code}
use fin_tech_ai.Base.{
  ℕ, ◌-◌, Bool, Option, some, ◌&&◌, leb, List, [], ◌∷◌, if◌then◌else◌, is_some, String, exists, map,
  ◌==◌, true, false,
}
use text.Mathlib.Text.{find?}
use fin_tech_ai.Contracts.{
  EventType, payment_failed, checkout_abandoned, subscription_failed, invoice_overdue, other_type,
  PaymentFailureReason, insufficient_funds, bank_timeout, network_error, authentication_required,
  payment_method_declined, mandate_failed, suspected_fraud, unknown, other_reason,
}

abbrev codes : String → List ℕ
codes String.[] = []
codes (String.◌∷◌ c s) = code c ∷ codes s

abbrev upper_code : ℕ → ℕ
upper_code c = if leb b'a' c && leb c b'z' then c - 32 else c

abbrev same_codes : List ℕ → List ℕ → Bool
same_codes [] [] = true
same_codes [] (_ ∷ _) = false
same_codes (_ ∷ _) [] = false
same_codes (c ∷ cs) (d ∷ ds) = c == d && same_codes cs ds

-- `s.toUpperCase() === literal`
unfoldable pub upper_is : String → String → Bool
upper_is s literal = same_codes (map upper_code (codes s)) (codes literal)

-- `s.includes(part)`
unfoldable pub includes_text : String → String → Bool
includes_text s part = is_some (find? s part)

-- `eventType.toUpperCase()`, read as an event type again: the enum's own strings are in upper case.
unfoldable pub upper_event_type : EventType → EventType
unfolding upper_is
upper_event_type (other_type s) =
    if upper_is s "PAYMENT_FAILED"
    then payment_failed
    else if upper_is s "SUBSCRIPTION_FAILED"
    then subscription_failed
    else if upper_is s "CHECKOUT_ABANDONED"
    then checkout_abandoned
    else if upper_is s "INVOICE_OVERDUE"
    then invoice_overdue
    else other_type s
upper_event_type t = t

-- `failureReason?.toUpperCase() || ''`, read as a failure reason again.
unfoldable pub upper_failure_reason : Option PaymentFailureReason → Option PaymentFailureReason
unfolding upper_is
upper_failure_reason (some (other_reason s)) = some (
    if upper_is s "SUSPECTED_FRAUD"
    then suspected_fraud
    else if upper_is s "BANK_TIMEOUT"
    then bank_timeout
    else if upper_is s "NETWORK_ERROR"
    then network_error
    else if upper_is s "INSUFFICIENT_FUNDS"
    then insufficient_funds
    else if upper_is s "AUTHENTICATION_REQUIRED"
    then authentication_required
    else if upper_is s "MANDATE_FAILED"
    then mandate_failed
    else other_reason s)
upper_failure_reason r = r

-- The string of a failure reason.
unfoldable pub failure_reason_text : PaymentFailureReason → String
failure_reason_text insufficient_funds = "INSUFFICIENT_FUNDS"
failure_reason_text bank_timeout = "BANK_TIMEOUT"
failure_reason_text network_error = "NETWORK_ERROR"
failure_reason_text authentication_required = "AUTHENTICATION_REQUIRED"
failure_reason_text payment_method_declined = "PAYMENT_METHOD_DECLINED"
failure_reason_text mandate_failed = "MANDATE_FAILED"
failure_reason_text suspected_fraud = "SUSPECTED_FRAUD"
failure_reason_text unknown = "UNKNOWN"
failure_reason_text (other_reason s) = s

-- `failureReason === 'CARD_EXPIRED' || failureReason === 'EXPIRED_CARD'`, in upper case.
unfoldable pub is_card_expired : Option PaymentFailureReason → Bool
unfolding upper_is
is_card_expired (some (other_reason s)) = exists (upper_is s) ("CARD_EXPIRED" ∷ "EXPIRED_CARD" ∷ [])
is_card_expired _ = false
