-- ===== src/Examples/Events.antt =====
-- Events, their subscribers and sinks at concrete inputs.
use spark_server.Base.{◌≡◌, true, [], ◌∷◌, ◌++◌, Bytes, codes, some, take, replicate}
use spark_server.Events.Models.{Event, Filter, Broker}
use spark_server.Events.Broker.{
  new_broker, subscribe, add_sink, publish_to_subscribers, deliver_to_sinks, receive,
}
use spark_server.Events.Broker.Streams.{
  Reachable, start, subscribes, adds_sink, publishes, receives, AreStreams, Reachable-AreStreams,
  allowed, offered, offered_first_sixteen,
}
use spark_server.Events.Service.{Service}
use spark_server.Examples.Records.{env}

abbrev pub named : Bytes → Event
named name = record {
  id = [];
  name = name;
  data_text = codes "21";
  device_id = codes "d1";
  product_id = [];
  published = 7;
}

abbrev temperatures : Filter
temperatures = record { prefix = codes "temp"; device_id = []; product_id = [] }

abbrev listening : Broker
listening = add_sink (some 1) (subscribe temperatures new_broker)

abbrev published : Broker
published =
    deliver_to_sinks (named (codes "temp/in"))
      (publish_to_subscribers (named (codes "temp/in")) listening)

published-Reachable : Reachable ([] ++ named (codes "temp/in") ∷ []) (receive 0 published)
published-Reachable = receives ([] ++ named (codes "temp/in") ∷ []) published 0 (
    publishes [] listening (named (codes "temp/in")) (
      adds_sink [] (subscribe temperatures new_broker) (some 1)
        (subscribes [] new_broker temperatures start)))

Reachable-AreStreams_example :
    AreStreams ([] ++ named (codes "temp/in") ∷ []) (receive 0 published).subscribers
Reachable-AreStreams_example =
    Reachable-AreStreams ([] ++ named (codes "temp/in") ∷ []) (receive 0 published)
      published-Reachable

offered_first_sixteen_example :
    (offered
      (replicate 20 (named (codes "temp/in")))
      (record { filter = temperatures; queue = []; taken = [] })).queue
    ≡ take 16 (allowed temperatures (replicate 20 (named (codes "temp/in"))))
offered_first_sixteen_example =
    offered_first_sixteen temperatures (replicate 20 (named (codes "temp/in")))

abbrev service : Service
service = record { env = env; has_events = true }
