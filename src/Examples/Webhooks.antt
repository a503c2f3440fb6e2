-- ===== src/Examples/Webhooks.antt =====
-- Webhooks at concrete inputs.
use spark_server.Base.{◌≡◌, refl, true, false, [], ◌∷◌, codes, none, err, arith, min, ◌*◌, ◌^◌}
use spark_server.Base.Sort.{insertion}
use spark_server.Webhooks.Models.{Webhook, WebhookRequest}
use spark_server.Webhooks.Backoff.{backoff_for, backoff_for-min, minute, hour}
use spark_server.Webhooks.Template.{is_for, expand_template}
use spark_server.Webhooks.Service.{
  Service, older, new_hook, deliver_event, record_failure, attempt, should_attempt, deliver,
}
use spark_server.Records.{list, save}
use spark_server.Records.Files.{bad_id, has_slash}
use spark_server.Records.Effects.{World, now, deliveries_failed}
use spark_server.Examples.Records.{env, unicode, world}
use spark_server.Examples.Events.{named}

older-asym : (x y : Webhook) → older y x ≡ true → older x y ≡ false
older-asym x y h = ground arith

older-chain : (x y z : Webhook) → older y x ≡ false → older z y ≡ false → older z x ≡ false
older-chain x y z h k = ground arith

-- The client refuses every request.
abbrev service : Service
service = record {
  env = env;
  has_webhooks = true;
  has_client = true;
  unicode = unicode;
  sort_webhooks = insertion older (record { asym = older-asym; chain = older-chain });
  request_error = λ method url. none;
  reply = λ n hook body. err (codes "refused");
  json_body = λ e. e.data_text;
  format_time = λ time. codes "now";
  canonical = λ name. name;
  arranged = λ n places. places;
}

abbrev asked : WebhookRequest
asked = record {
  owner_id = codes "ann";
  event_name = codes "temp*";
  url = codes "http://a";
  method = codes "put";
  headers = none;
  body = codes "{{data}}C at {{name}}";
}

abbrev hook : Webhook
hook = new_hook service asked (codes "h1") 5

matched : is_for hook (named (codes "temp/in")) ≡ true
unfolding is_for
matched = refl

expanded :
    expand_template (λ places. places) (λ time. []) hook.body (named (codes "temp/in"))
    ≡ codes "21C at temp/in"
unfolding expand_template
expanded = refl

-- Two webhooks of which both are for the event, and the first refusal does not keep the second from
-- its request.
abbrev hooked : World
hooked = record world {
  webhooks = (codes "h1", hook) ∷ (codes "h2", new_hook service asked (codes "h2") 6) ∷ [];
}

both_refused :
    (deliver_event service (named (codes "temp/in")) hooked).0
    ≡ err (deliveries_failed (codes "refused" ∷ codes "refused" ∷ []))
unfolding deliver_event list is_for expand_template record_failure now save bad_id attempt
    should_attempt deliver has_slash
both_refused = refl

backoff_for-min_example : backoff_for 7 ≡ min (minute * 2 ^ 6) hour
backoff_for-min_example = backoff_for-min 6
