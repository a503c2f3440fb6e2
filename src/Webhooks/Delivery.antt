-- ===== src/Webhooks/Delivery.antt =====
-- What the delivery of an event to one webhook leaves behind.
use spark_server.Base.{
  ℕ, ◌≡◌, refl, sym, ap, ◌∙◌, Bool, ◌&&◌, inl, inr, List, [], ◌∷◌, ◌++◌, append-nil, Bytes,
  same_bytes, Option, none, some, Result, ok, err, if◌then◌else◌, leb, Bool-cases,
}
use spark_server.Events.Models.{Event}
use spark_server.Webhooks.Models.{Webhook, Outgoing}
use spark_server.Webhooks.Backoff.{is_due}
use spark_server.Webhooks.Template.{is_for}
use spark_server.Webhooks.Service.{
  Service, record_success, record_failure, succeeded, failed, replied, requested, send_request,
  outgoing, deliver, status_message,
}
use spark_server.Records.Effects.{World, Error, ignoring, dropped, now, called, pure}
use spark_server.Records.{webhooks, save}
use spark_server.Records.Calls.{Ends, Ends-continue, Ends-weaken, Ends-if, save-Ends}

abbrev pub Never : World → Type 0
Never w = ⊥

-- No request more has been sent.
abbrev pub SameRequests : World → World → Type 0
SameRequests w v = v.requests ≡ w.requests

-- One attempt to deliver: a request that could not be made, with the error's text, or one that was
-- sent, with the number of the call.
pub data Attempt : Type 0 where
  unbuilt : Webhook → Bytes → Attempt
  requests : ℕ → Webhook → Outgoing → Attempt

abbrev pub attempted : Attempt → Bytes
attempted (unbuilt hook text) = hook.id
attempted (requests call hook request) = hook.id

abbrev pub attempted_ids : List Attempt → List Bytes
attempted_ids [] = []
attempted_ids (a ∷ more) = attempted a ∷ attempted_ids more

-- The requests that were sent.
abbrev pub logged : List Attempt → List (Bytes × Outgoing)
logged [] = []
logged (unbuilt hook text ∷ more) = logged more
logged (requests call hook request ∷ more) = (hook.id, request) ∷ logged more

-- Whether a webhook is for an event and need not wait at a time.
abbrev pub waits_not : ℕ → Event → Webhook → Bool
waits_not time e hook = is_for hook e && is_due time hook.next_attempt_at

abbrev pub due_ids : ℕ → Event → List Webhook → List Bytes
due_ids time e [] = []
due_ids time e (hook ∷ more) =
    let rest = due_ids time e more in if waits_not time e hook then hook.id ∷ rest else rest

module _ (service : Service) where
  dropped-Never :
      {A : Type 0} (P : World → Type 0) (r : Result Error A × World)
      → Ends (λ _ v. P v) P r
      → Ends (λ _ v. P v) Never (dropped r)
  dropped-Never P (ok a, v) h = h
  dropped-Never P (err e, v) h = h

  saved-Same :
      (hook : Webhook) (w v : World)
      → SameRequests w v
      → Ends
          (λ _ u. SameRequests w u)
          Never
          (ignoring (if service.has_webhooks then save service.env webhooks hook else pure tt) v)
  saved-Same hook w v same = dropped-Never (SameRequests w) _ (
      Ends-if service.env (λ _ u. SameRequests w u) (SameRequests w) service.has_webhooks
        (save service.env webhooks hook) (pure tt) v
        (λ _.
          save-Ends service.env webhooks (λ _ u. SameRequests w u) (SameRequests w) hook v same same
            same)
        (λ _. same))

  record_success-Same :
      (status : ℕ) (hook : Webhook) (w : World)
      → Ends (λ _ v. SameRequests w v) Never (record_success service status hook w)
  unfolding record_success now
  record_success-Same status hook w =
      Ends-continue (λ _ v. SameRequests w v) (λ _ v. SameRequests w v) Never _ _
        (saved-Same (succeeded (service.env.clock w.calls) status hook) w (called w) refl)
        (λ _ v h. h)

  record_failure-Same :
      (status : ℕ) (message : Bytes) (hook : Webhook) (w : World)
      → Ends (λ _ v. SameRequests w v) Never (record_failure service status message hook w)
  unfolding record_failure now
  record_failure-Same status message hook w =
      Ends-continue (λ _ v. SameRequests w v) (λ _ v. SameRequests w v) Never _ _
        (saved-Same (failed (service.env.clock w.calls) status message hook) w (called w) refl)
        (λ _ v h. h)

  -- What is wrong with a reply.
  abbrev pub reply_text : Webhook → Result Bytes ℕ → Option Bytes
  reply_text hook (err text) = some text
  reply_text hook (ok status) = if leb 400 status then some (status_message hook status) else none

  abbrev pub text_of : Attempt → Option Bytes
  text_of (unbuilt hook text) = some text
  text_of (requests call hook request) = reply_text hook (service.reply call hook request)

  -- A request is not made exactly where there is an error of making it.
  abbrev pub IsAttempt : Attempt → Type 0
  IsAttempt (unbuilt hook text) = service.request_error hook.method hook.url ≡ some text
  IsAttempt (requests call hook request) = service.request_error hook.method hook.url ≡ none

  -- What an attempt for a webhook has left.
  pub record Tried (hook : Webhook) (w : World) (failure : Option Bytes) (v : World) : Type 0 where
    pub attempt : Attempt
    pub named : attempted attempt ≡ hook.id
    pub true_to : IsAttempt attempt
    pub log : v.requests ≡ w.requests ++ logged (attempt ∷ [])
    pub text : failure ≡ text_of attempt

  replied-Same :
      (hook : Webhook) (reply : Result Bytes ℕ) (w : World)
      → Ends
          (λ f v. (f ≡ reply_text hook reply) × SameRequests w v)
          Never
          (replied service hook reply w)
  replied-Same hook (err text) w =
      Ends-continue (λ _ v. SameRequests w v) (λ f v. (f ≡ some text) × SameRequests w v) Never _ _
        (record_failure-Same 0 text hook w) (λ _ v h. (refl, h))
  replied-Same hook (ok status) w =
      let P =
        λ (f : Option Bytes) (v : World). (f ≡ reply_text hook (ok status)) × SameRequests w v in
      Ends-if service.env P Never (leb 400 status) _ _ w
        (λ bad.
          Ends-continue (λ _ v. SameRequests w v) P Never _ _
            (record_failure-Same status (status_message hook status) hook w)
            (λ _ v h. (rw bad refl, h)))
        (λ good.
          Ends-continue (λ _ v. SameRequests w v) P Never _ _ (record_success-Same status hook w)
            (λ _ v h. (rw good refl, h)))

  requested-Tried :
      (hook : Webhook) (body : Bytes) (problem : Option Bytes) (w v : World)
      → service.request_error hook.method hook.url ≡ problem
      → SameRequests w v
      → Ends (Tried hook w) Never (requested service hook body problem v)
  requested-Tried hook body (some text) w v e same = record {
    attempt = unbuilt hook text;
    named = refl;
    true_to = e;
    log = same ∙ sym (append-nil w.requests);
    text = refl;
  }
  requested-Tried hook body none w v e same =
      let request = outgoing service v.calls hook body in
      let reply = service.reply v.calls hook request in
      let after = (send_request service hook body v).1 in
      Ends-weaken (λ f u. (f ≡ reply_text hook reply) × SameRequests after u) (Tried hook w) Never
        Never (replied service hook reply after)
        (λ f u (text, h). record {
          attempt = requests v.calls hook request;
          named = refl;
          true_to = e;
          log = h ∙ ap (λ r. r ++ (hook.id, request) ∷ []) same;
          text = text;
        })
        (λ _ h. h) (replied-Same hook reply after)

  pub deliver-Tried :
      (e : Event) (hook : Webhook) (w v : World)
      → SameRequests w v
      → Ends (Tried hook w) Never (deliver service e hook v)
  unfolding deliver
  deliver-Tried e hook w v same =
      let problem = service.request_error hook.method hook.url in
      elim (Bool-cases (same_bytes hook.body [])) [
        | inl plain ↦ rw plain (requested-Tried hook (service.json_body e) problem w v refl same)
        | inr template ↦ rw template (requested-Tried hook _ problem w (called v) refl same)
      ]
