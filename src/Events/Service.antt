-- ===== src/Events/Service.antt =====
-- internal/events/service.go: Publish.
use spark_server.Base.{Bool, [], same_bytes, ok, if◌then◌else◌, ◌==◌}
use spark_server.Events.Models.{Event}
use spark_server.Events.Broker.{publish_to_subscribers, deliver_to_sinks}
use spark_server.Records.Effects.{Env, M, ◌>>=◌, ◌>>◌, pure, now, fresh_id}
use spark_server.Records.{events, create}

pub record Service : Type 0 where
  pub env : Env
  pub has_events : Bool  -- `service.events != nil`

module _ (service : Service) where
  abbrev pub with_id : Event → M Event
  with_id e =
      if same_bytes e.id []
      then (do id ← fresh_id service.env; pure (record e { id = id }))
      else pure e

  abbrev pub with_time : Event → M Event
  with_time e =
      if e.published == 0
      then (do time ← now service.env; pure (record e { published = time }))
      else pure e

  abbrev pub broadcast : Event → M (Unit {0})
  broadcast e w =
      (ok tt, record w { broker = deliver_to_sinks e (publish_to_subscribers e w.broker) })

  abbrev pub prepared : Event → M Event
  prepared e = do named ← with_id e; with_time named

  unfoldable pub publish : Event → M Event
  publish e = do
    dated ← prepared e
    if service.has_events then create service.env events dated else pure tt
    broadcast dated
    pure dated
