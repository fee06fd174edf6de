-- ===== src/Worker/Providers/Outcomes.antt =====
-- What the configured adapters can and cannot answer.
use fin_tech_ai.Base.{
  ◌⊎◌, err, ◌≡◌, ◌≢◌, refl, inl, inr, Bool, true, false, arith, if◌then◌else◌, ok,
}
use fin_tech_ai.Worker.Recovery.{
  ExecutionActionType, create_payment_link, initiate_payment_retry, send_email_reminder,
  send_sms_reminder, send_voice_reminder, create_human_escalation, other_action, ExecutionRequest,
  ProviderResult, execution_status,
}
use fin_tech_ai.Domain.Errors.{DomainError}
use fin_tech_ai.Persistence.Rows.{InterventionStatus}
use fin_tech_ai.Worker.Providers.Calls.{ExternalServices, ProviderSettings, RequestParameters}
use fin_tech_ai.Worker.Providers.{provider_for, configured_provider}
use fin_tech_ai.Worker.Providers.Answers.{
  IsPrompt, razorpay_execute-IsPrompt, razorpay_retry_execute-IsPrompt, test_mode_execute-IsPrompt,
  twilio_execute-IsPrompt, resend_execute-IsPrompt, escalation_execute-IsPrompt,
}

if-IsPrompt :
    (b : Bool) (x y : ProviderResult) → IsPrompt x → IsPrompt y → IsPrompt (if b then x else y)
if-IsPrompt true x y p q = p
if-IsPrompt false x y p q = q

-- For an action without an adapter the choice of the adapter throws, and for no other. Whatever the services
-- answer, no configured adapter throws or reports a timeout, so an execution is never `AMBIGUOUS`.
pub configured_provider-never_ambiguous :
    (services : ExternalServices) (settings : ProviderSettings) (parameters : RequestParameters)
    (request : ExecutionRequest)
    → ((request.action ≡ other_action)
        × (e : DomainError) × (configured_provider services settings parameters request ≡ err e))
      ⊎ ((request.action ≢ other_action)
          × (result : ProviderResult) × (configured_provider services settings parameters request
              ≡ ok result)
          × (execution_status result ≢ InterventionStatus.ambiguous))
unfolding configured_provider
configured_provider-never_ambiguous services settings parameters request = by_action request.action
  where
    by_action :
        (action : ExecutionActionType)
        → ((action ≡ other_action)
            × (e : DomainError) × (provider_for services settings parameters request action
                ≡ err e))
          ⊎ ((action ≢ other_action)
              × (result : ProviderResult) × (provider_for services settings parameters request
                    action
                  ≡ ok result)
              × IsPrompt result)
    by_action create_payment_link = inr (
      λ h. ground arith,
      _,
      refl,
      if-IsPrompt settings.enable_test_mode _ _
          (test_mode_execute-IsPrompt services settings parameters request)
          (razorpay_execute-IsPrompt services settings parameters request),
    )
    by_action initiate_payment_retry = inr (
      λ h. ground arith,
      _,
      refl,
      if-IsPrompt settings.enable_test_mode _ _
          (test_mode_execute-IsPrompt services settings parameters request)
          (razorpay_retry_execute-IsPrompt services settings parameters request),
    )
    by_action send_email_reminder =
        inr
          (λ h. ground arith, _, refl, resend_execute-IsPrompt services settings parameters request)
    by_action send_sms_reminder =
        inr
          (λ h. ground arith, _, refl, twilio_execute-IsPrompt services settings parameters request)
    by_action send_voice_reminder =
        inr
          (λ h. ground arith, _, refl, twilio_execute-IsPrompt services settings parameters request)
    by_action create_human_escalation = inr (
      λ h. ground arith,
      _,
      refl,
      escalation_execute-IsPrompt services settings parameters request,
    )
    by_action other_action = inl (refl, _, refl)
