-- ===== src/Webhooks/Service.antt =====
-- internal/webhooks/service.go: the webhooks of a user, and the delivery of an event.
use spark_server.Base.{
  ℕ, suc, ◌+◌, Bool, true, ◌||◌, not, List, [], ◌∷◌, ◌++◌, Bytes, codes, same_bytes, Option, none,
  some, Result, ok, err, if◌then◌else◌, ltb, leb,
}
use spark_server.Base.Maps.{store}
use spark_server.Base.Integers.{pos, itoa}
use spark_server.Base.Texts.{Unicode, to_upper}
use spark_server.Base.Sort.{Sorting}
use spark_server.Events.Models.{Event}
use spark_server.Products.Service.{given, given_text}
use spark_server.Webhooks.Models.{Webhook, WebhookRequest, Outgoing}
use spark_server.Webhooks.Backoff.{backoff_for, is_due}
use spark_server.Webhooks.Template.{is_for, expand_template}
use spark_server.Records.Effects.{
  webhook, not_found, deliveries_failed, raise, Env, M, ◌>>=◌, ◌>>◌, pure, refuse_when, ignoring,
  now, fresh_id, called,
}
use spark_server.Records.{webhooks, create, get_by_id, save, delete, list, matches}

abbrev pub older : Webhook → Webhook → Bool
older left right = ltb left.created_at right.created_at

-- `request_error` is the error of http.NewRequest for a method and a URL, `reply` what the client
-- returns for a webhook and a request: a status or an error's text; `canonical` is the form in which
-- Header.Set keeps a name, and `arranged` the order in which Go goes through a map.
pub record Service : Type 0 where
  pub env : Env
  pub has_webhooks : Bool  -- `service.webhooks != nil`
  pub has_client : Bool  -- `service.client != nil`
  pub unicode : Unicode
  pub sort_webhooks : Sorting older
  pub request_error : Bytes → Bytes → Option Bytes
  pub reply : ℕ → Webhook → Outgoing → Result Bytes ℕ
  pub json_body : Event → Bytes
  pub format_time : ℕ → Bytes
  pub canonical : Bytes → Bytes
  pub arranged : ℕ → List (Bytes × Bytes) → List (Bytes × Bytes)

abbrev pub or_empty_map : Option (List (Bytes × Bytes)) → List (Bytes × Bytes)
or_empty_map none = []
or_empty_map (some headers) = headers

-- The assignments of `Update`.
abbrev pub updated_hook : Unicode → WebhookRequest → ℕ → Webhook → Webhook
updated_hook unicode request time hook = record hook {
  event_name = given_text request.event_name hook.event_name;
  url = given_text request.url hook.url;
  method = if same_bytes request.method [] then hook.method else to_upper unicode request.method;
  headers = given request.headers hook.headers;
  body = given_text request.body hook.body;
  fail_count = 0;
  last_status = 0;
  last_error = [];
  next_attempt_at = none;
  updated_at = time;
}

abbrev pub succeeded : ℕ → ℕ → Webhook → Webhook
succeeded time status hook = record hook {
  fail_count = 0;
  last_status = status;
  last_error = [];
  last_delivered_at = some time;
  next_attempt_at = none;
  updated_at = time;
}

abbrev pub failed : ℕ → ℕ → Bytes → Webhook → Webhook
failed time status message hook = record hook {
  fail_count = suc hook.fail_count;
  last_status = status;
  last_error = message;
  next_attempt_at = some (time + backoff_for (suc hook.fail_count));
  updated_at = time;
}

abbrev pub status_message : Webhook → ℕ → Bytes
status_message hook status =
    codes "webhook " ++ hook.id ++ codes " returned status " ++ itoa (pos status)

-- `errors.Join` of the errors of the deliveries.
abbrev pub joined : Option Bytes → List Bytes → List Bytes
joined none rest = rest
joined (some text) rest = text ∷ rest

module _ (service : Service) where
  abbrev pub new_hook : WebhookRequest → Bytes → ℕ → Webhook
  new_hook request id time = record {
    id = id;
    owner_id = request.owner_id;
    event_name = request.event_name;
    url = request.url;
    method = given_text (to_upper service.unicode request.method) (codes "POST");
    headers = or_empty_map request.headers;
    body = request.body;
    fail_count = 0;
    last_status = 0;
    last_error = [];
    last_delivered_at = none;
    next_attempt_at = none;
    created_at = time;
    updated_at = time;
  }

  unfoldable pub create_webhook : WebhookRequest → M Webhook
  create_webhook request = do
    refuse_when
        (same_bytes request.owner_id []
          || same_bytes request.event_name []
          || same_bytes request.url [])
        (not_found webhook)
    time ← now service.env
    id ← fresh_id service.env
    let hook = new_hook request id time
    if service.has_webhooks then create service.env webhooks hook else pure tt
    pure hook

  unfoldable pub list_webhooks : Bytes → M (List Webhook)
  list_webhooks owner =
      if service.has_webhooks
      then (do
        all ← list service.env webhooks
        pure (service.sort_webhooks.sort (matches (λ h. same_bytes h.owner_id owner) all)))
      else pure []

  unfoldable pub get_webhook : Bytes → Bytes → M Webhook
  get_webhook owner id = do
    refuse_when (same_bytes id [] || not service.has_webhooks) (not_found webhook)
    hook ← get_by_id service.env webhooks id
    refuse_when (not (same_bytes hook.owner_id owner)) (not_found webhook)
    pure hook

  unfoldable pub update_webhook : Bytes → Bytes → WebhookRequest → M Webhook
  update_webhook owner id request = do
    hook ← get_webhook owner id
    time ← now service.env
    let changed = updated_hook service.unicode request time hook
    save service.env webhooks changed
    pure changed

  unfoldable pub delete_webhook : Bytes → Bytes → M (Unit {0})
  delete_webhook owner id = do hook ← get_webhook owner id; delete service.env webhooks id

  unfoldable pub record_success : ℕ → Webhook → M (Unit {0})
  record_success status hook = do
    time ← now service.env
    done ← ignoring (
        if service.has_webhooks
        then save service.env webhooks (succeeded time status hook)
        else pure tt)
    pure tt

  unfoldable pub record_failure : ℕ → Bytes → Webhook → M (Unit {0})
  record_failure status message hook = do
    time ← now service.env
    done ← ignoring (
        if service.has_webhooks
        then save service.env webhooks (failed time status message hook)
        else pure tt)
    pure tt

  abbrev pub body_for : Webhook → Event → M Bytes
  body_for hook e w = if same_bytes hook.body [] then (ok (service.json_body e), w) else (
    ok (expand_template (service.arranged w.calls) service.format_time hook.body e),
    called w,
  )

  -- A header of the webhook replaces one with the same name.
  abbrev pub with_headers : List (Bytes × Bytes) → List (Bytes × Bytes) → List (Bytes × Bytes)
  with_headers [] set = set
  with_headers ((name, value) ∷ more) set =
      with_headers more
        (if same_bytes name [] then set else store (service.canonical name) value set)

  abbrev pub outgoing : ℕ → Webhook → Bytes → Outgoing
  outgoing call hook body = record {
    headers =
        with_headers (service.arranged call hook.headers)
          ((codes "Content-Type", codes "application/json") ∷ []);
    body = body;
  }

  -- The request is sent, and the client has a reply.
  abbrev pub send_request : Webhook → Bytes → M (Result Bytes ℕ)
  send_request hook body w =
      let request = outgoing w.calls hook body in
      (
        ok (service.reply w.calls hook request),
        record (called w) { requests = w.requests ++ (hook.id, request) ∷ [] },
      )

  -- The error of a delivery, or none.
  abbrev pub replied : Webhook → Result Bytes ℕ → M (Option Bytes)
  replied hook (err text) = do record_failure 0 text hook; pure (some text)
  replied hook (ok status) =
      if leb 400 status
      then (do
        record_failure status (status_message hook status) hook
        pure (some (status_message hook status)))
      else (do record_success status hook; pure none)

  abbrev pub requested : Webhook → Bytes → Option Bytes → M (Option Bytes)
  requested hook body (some text) = pure (some text)
  requested hook body none = do reply ← send_request hook body; replied hook reply

  unfoldable pub deliver : Event → Webhook → M (Option Bytes)
  deliver e hook = do
    body ← body_for hook e
    requested hook body (service.request_error hook.method hook.url)

  -- The clock is called where an attempt may have to wait.
  unfoldable pub should_attempt : Webhook → Option ℕ → M Bool
  should_attempt hook none = pure true
  should_attempt hook (some next) = do time ← now service.env; pure (is_due time (some next))

  unfoldable pub attempt : Event → Webhook → M (Option Bytes)
  attempt e hook =
      if is_for hook e
      then (do
        due ← should_attempt hook hook.next_attempt_at
        if due then deliver e hook else pure none)
      else pure none

  -- The loop of `DeliverEvent`, with the errors that it joins.
  abbrev pub attempt_all : Event → List Webhook → M (List Bytes)
  attempt_all e [] = pure []
  attempt_all e (hook ∷ more) = do
    failure ← attempt e hook
    rest ← attempt_all e more
    pure (joined failure rest)

  -- `return deliveryErr`: nil where no delivery failed.
  abbrev pub raise_failures : List Bytes → M (Unit {0})
  raise_failures [] = pure tt
  raise_failures (text ∷ texts) = raise (deliveries_failed (text ∷ texts))

  unfoldable pub deliver_event : Event → M (Unit {0})
  deliver_event e =
      if service.has_webhooks
      then (if service.has_client
          then (do
            all ← list service.env webhooks
            failures ← attempt_all e all
            raise_failures failures)
          else pure tt)
      else pure tt
