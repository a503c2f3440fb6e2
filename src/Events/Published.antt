-- ===== src/Events/Published.antt =====
-- Who gets an event.
use spark_server.Base.{◌≡◌, suc, true, [], same_bytes, none, if◌then◌else◌, ◌==◌}
use spark_server.Base.Maps.{lookup}
use spark_server.Events.Models.{Event}
use spark_server.Events.Broker.{publish_to_subscribers, deliver_to_sinks}
use spark_server.Events.Service.{Service}
use spark_server.Records.Files.{write_file}
use spark_server.Records.Effects.{Env, World}
use spark_server.Records.{events}

-- Neither the stored events nor the broker have changed.
abbrev pub IsQuiet : World → World → Type 0
IsQuiet w v = (v.broker ≡ w.broker) × (v.events ≡ w.events)

-- The event is the one that was given, with a new ID where it had none and the time of the clock where
-- it had none.
pub record IsDated (env : Env) (e : Event) (w : World) (d : Event) : Type 0 where
  pub id_is : d.id ≡ (if same_bytes e.id [] then env.new_id w.calls else e.id)
  pub time_is : d.published ≡ (
      if e.published == 0
      then env.clock (if same_bytes e.id [] then suc w.calls else w.calls)
      else e.published)
  pub name_is : d.name ≡ e.name
  pub data_is : d.data_text ≡ e.data_text
  pub device_is : d.device_id ≡ e.device_id
  pub product_is : d.product_id ≡ e.product_id

-- The event has been handed to the subscribers and sinks, and is stored where there is a store.
pub record IsPublished (service : Service) (e : Event) (w : World) (d : Event) (v : World)
    : Type 0 where
  pub dated : IsDated service.env e w d
  pub reached : v.broker ≡ deliver_to_sinks d (publish_to_subscribers d w.broker)
  pub kept : v.events ≡ (if service.has_events then write_file d.id d w.events else w.events)
  pub new : service.has_events ≡ true → lookup d.id w.events ≡ none

module _ (service : Service) where
  -- After the call of the store, where there is one.
  record IsStored (d : Event) (w v : World) : Type 0 where
    pub broker : v.broker ≡ w.broker
    pub kept : v.events ≡ (if service.has_events then write_file d.id d w.events else w.events)
    pub new : service.has_events ≡ true → lookup d.id w.events ≡ none
