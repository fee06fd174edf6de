-- ===== src/Api/Webhooks.antt =====
-- apps/api/src/modules/events/razorpay.controller.ts: a webhook of the payment provider is taken once and put
-- into a queue. Whether the queue takes it is a parameter; its rows of `EventIdempotency` and its jobs are the
-- state. A body of the webhook is whatever type the caller has.
use fin_tech_ai.Base.{
  keep, keep-append_one, exists-append_one, Bool-cases, refl, inl, inr, ◌∙◌, ◌≡◌, ◌≢◌, Bool, true,
  false, Option, none, some, List, [], ◌∷◌, ◌++◌, arith, str_eq, eq_iff, String, if◌then◌else◌,
  exists, Result, ok, err,
}
use Prim.Native.String.{String}

pub record WebhookState (Payload : Type 0) : Type 0 where
  pub event_ids : List String
  pub jobs : List (String × Payload)

pub data WebhookError : Type 0 where
  missing_event_id queue_failed : WebhookError

pub data WebhookStatus : Type 0 where
  accepted ignored_duplicate : WebhookStatus

module _ {Payload : Type 0} where
  -- The state afterwards, beside what is returned or thrown: the two writes are no transaction.
  unfoldable pub handle_webhook :
      Bool
      → Payload
      → Option String
      → WebhookState Payload
      → Result WebhookError WebhookStatus × WebhookState Payload
  handle_webhook queue_takes payload none s = (err missing_event_id, s)
  handle_webhook queue_takes payload (some event_id) s =
      if str_eq event_id ""
      then (err missing_event_id, s)
      else if exists (str_eq event_id) s.event_ids
      then (ok ignored_duplicate, s)
      else if queue_takes
      then (
        ok accepted,
        record {
          event_ids = s.event_ids ++ event_id ∷ [];
          jobs = s.jobs ++ (event_id, payload) ∷ [];
        },
      )
      else (err queue_failed, record s { event_ids = s.event_ids ++ event_id ∷ [] })

pub record Delivery (Payload : Type 0) : Type 0 where
  pub queue_takes : Bool
  pub payload : Payload
  pub event_id : Option String

module _ {Payload : Type 0} where
  -- Deliveries one after another, whatever each returns.
  abbrev pub deliver_all : List (Delivery Payload) → WebhookState Payload → WebhookState Payload
  deliver_all [] s = s
  deliver_all (d ∷ more) s =
      deliver_all more (handle_webhook d.queue_takes d.payload d.event_id s).1

  abbrev pub is_job : String → String × Payload → Bool
  is_job event_id job = str_eq event_id job.0

  -- A delivery keeps the ids that are there, and queues nothing under them.
  handle_webhook-keeps :
      (queue_takes : Bool) (payload : Payload) (given : Option String) (event_id : String)
      (s : WebhookState Payload)
      → exists (str_eq event_id) s.event_ids ≡ true
      → let s' = (handle_webhook queue_takes payload given s).1 in
        (exists (str_eq event_id) s'.event_ids ≡ true)
        × (keep (is_job event_id) s'.jobs ≡ keep (is_job event_id) s.jobs)
  unfolding handle_webhook
  handle_webhook-keeps queue_takes payload none event_id s seen = (seen, refl)
  handle_webhook-keeps queue_takes payload (some given) event_id s seen =
      elim (Bool-cases (str_eq given "")) [
        | inl empty ↦ rw (handle_webhook, empty) (seen, refl)
        | inr full ↦ elim (Bool-cases (exists (str_eq given) s.event_ids)) [
          | inl known ↦ rw (handle_webhook, full, known) (seen, refl)
          | inr new ↦
              let ids = exists-append_one (str_eq event_id) s.event_ids given in
              let jobs = keep-append_one (is_job event_id) s.jobs (given, payload) in
              let apart : str_eq event_id given ≡ false =
                ground (arith, seen, new, eq_iff event_id given) in
              elim (Bool-cases queue_takes) [
                | inl taken ↦
                    rw (handle_webhook, full, new, taken)
                      (ground (arith, ids, seen), jobs ∙ rw apart refl)
                | inr refused ↦
                    rw (handle_webhook, full, new, refused) (ground (arith, ids, seen), refl)
              ]
        ]
      ]

  deliver_all-keeps :
      (more : List (Delivery Payload)) (event_id : String) (s : WebhookState Payload)
      → exists (str_eq event_id) s.event_ids ≡ true
      → let s' = deliver_all more s in
        (exists (str_eq event_id) s'.event_ids ≡ true)
        × (keep (is_job event_id) s'.jobs ≡ keep (is_job event_id) s.jobs)
  deliver_all-keeps [] event_id s seen = (seen, refl)
  deliver_all-keeps (d ∷ more) event_id s seen =
      let (still, same) = handle_webhook-keeps d.queue_takes d.payload d.event_id event_id s seen in
      let (last, rest) =
        deliver_all-keeps more event_id (handle_webhook d.queue_takes d.payload d.event_id s).1
          still in
      (last, rest ∙ same)

  abbrev after_first : Bool → Payload → String → WebhookState Payload → WebhookState Payload
  after_first queue_takes payload event_id s = record {
    event_ids = s.event_ids ++ event_id ∷ [];
    jobs = if queue_takes then s.jobs ++ (event_id, payload) ∷ [] else s.jobs;
  }

  queued :
      (queue_takes : Bool) (payload : Payload) (event_id : String) (s : WebhookState Payload)
      → keep (is_job event_id) (after_first queue_takes payload event_id s).jobs ≡ (
          let before = keep (is_job event_id) s.jobs in
          if queue_takes then before ++ (event_id, payload) ∷ [] else before)
  queued true payload event_id s = ground (
    arith,
    keep-append_one (is_job event_id) s.jobs (event_id, payload),
    eq_iff event_id event_id,
  )
  queued false payload event_id s = refl

  handle_webhook-first :
      (queue_takes : Bool) (payload : Payload) (event_id : String) (s : WebhookState Payload)
      → str_eq event_id "" ≡ false
      → exists (str_eq event_id) s.event_ids ≡ false
      → handle_webhook queue_takes payload (some event_id) s ≡ (
        if queue_takes then ok accepted else err queue_failed,
        after_first queue_takes payload event_id s,
      )
  unfolding handle_webhook
  handle_webhook-first true payload event_id s full new = rw (handle_webhook, full, new) refl
  handle_webhook-first false payload event_id s full new = rw (handle_webhook, full, new) refl

  handle_webhook-known :
      (queue_takes : Bool) (payload : Payload) (event_id : String) (s : WebhookState Payload)
      → str_eq event_id "" ≡ false
      → exists (str_eq event_id) s.event_ids ≡ true
      → handle_webhook queue_takes payload (some event_id) s ≡ (ok ignored_duplicate, s)
  unfolding handle_webhook
  handle_webhook-known queue_takes payload event_id s full seen =
      rw (handle_webhook, full, seen) refl

  -- After the first delivery of a webhook, and whatever else is delivered since, a delivery with its id is
  -- ignored. Under that id the queue gets the job of the first delivery and no other; if the queue refused it
  -- then, with an error to the provider, it gets none.
  pub handle_webhook-once :
      (queue_takes queue_takes' : Bool) (payload payload' : Payload) (event_id : String)
      (more : List (Delivery Payload)) (s : WebhookState Payload)
      → event_id ≢ ""
      → exists (str_eq event_id) s.event_ids ≡ false
      → let (result, s') = handle_webhook queue_takes payload (some event_id) s in
        let after = deliver_all more s' in
        (handle_webhook queue_takes' payload' (some event_id) after ≡ (ok ignored_duplicate, after))
        × (keep (λ (job : String × Payload). str_eq event_id job.0) after.jobs ≡ (
            let before = keep (λ (job : String × Payload). str_eq event_id job.0) s.jobs in
            if queue_takes then before ++ (event_id, payload) ∷ [] else before))
        × (result ≡ (if queue_takes then ok accepted else err queue_failed))
  handle_webhook-once queue_takes queue_takes' payload payload' event_id more s given new =
      let full : str_eq event_id "" ≡ false = ground (arith, given, eq_iff event_id "") in
      let s' = after_first queue_takes payload event_id s in
      let ids = exists-append_one (str_eq event_id) s.event_ids event_id in
      let seen : exists (str_eq event_id) s'.event_ids ≡ true =
        ground (arith, ids, eq_iff event_id event_id) in
      let (still, same) = deliver_all-keeps more event_id s' seen in
      rw (handle_webhook-first queue_takes payload event_id s full new) (
        handle_webhook-known queue_takes' payload' event_id (deliver_all more s') full still,
        same ∙ queued queue_takes payload event_id s,
        refl,
      )
