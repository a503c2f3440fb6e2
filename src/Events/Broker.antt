-- ===== src/Events/Broker.antt =====
-- internal/events/service.go: the subscribers and sinks.
pub mod Streams
use spark_server.Base.{
  ℕ, suc, ◌+◌, Bool, true, false, ◌&&◌, ◌||◌, List, [], ◌∷◌, ◌++◌, Bytes, same_bytes, Option, none,
  some, if◌then◌else◌, ltb, ◌==◌, length,
}
use spark_server.Events.Models.{Event, Filter, Subscription, Broker}

-- The capacity of a subscriber's channel.
abbrev pub capacity : ℕ
capacity = 16

-- `strings.HasPrefix`.
abbrev pub has_prefix : Bytes → Bytes → Bool
has_prefix text [] = true
has_prefix [] (p ∷ ps) = false
has_prefix (c ∷ cs) (p ∷ ps) = (c == p) && has_prefix cs ps

unfoldable pub allows : Filter → Event → Bool
allows filter e =
    has_prefix e.name filter.prefix
    && (same_bytes filter.device_id [] || same_bytes e.device_id filter.device_id)
    && (same_bytes filter.product_id [] || same_bytes e.product_id filter.product_id)

abbrev pub new_broker : Broker
new_broker = record { next_id = 0; subscribers = []; sinks = []; delivered = [] }

abbrev pub subscribe : Filter → Broker → Broker
subscribe filter b = record b {
  next_id = suc b.next_id;
  subscribers = (b.next_id, record { filter = filter; queue = []; taken = [] }) ∷ b.subscribers;
}

abbrev pub without : ℕ → List (ℕ × Subscription) → List (ℕ × Subscription)
without id [] = []
without id ((i, s) ∷ more) = let rest = without id more in if i == id then rest else (i, s) ∷ rest

-- What follows the end of a subscriber's context.
abbrev pub unsubscribe : ℕ → Broker → Broker
unsubscribe id b = record b { subscribers = without id b.subscribers }

abbrev pub add_sink : Option ℕ → Broker → Broker
add_sink none b = b
add_sink (some sink) b = record b { sinks = b.sinks ++ sink ∷ [] }

-- A send that does not wait: an event is dropped where the channel is full.
abbrev pub offer : Event → Subscription → Subscription
offer e s =
    if allows s.filter e && ltb (length s.queue) capacity
    then record s { queue = s.queue ++ e ∷ [] }
    else s

abbrev pub offer_to : Event → List (ℕ × Subscription) → List (ℕ × Subscription)
offer_to e [] = []
offer_to e ((i, s) ∷ more) = (i, offer e s) ∷ offer_to e more

abbrev pub publish_to_subscribers : Event → Broker → Broker
publish_to_subscribers e b = record b { subscribers = offer_to e b.subscribers }

abbrev pub handed : Event → List ℕ → List (ℕ × Event)
handed e [] = []
handed e (sink ∷ more) = (sink, e) ∷ handed e more

abbrev pub deliver_to_sinks : Event → Broker → Broker
deliver_to_sinks e b = record b { delivered = b.delivered ++ handed e b.sinks }

-- The receiver takes the first event, where there is one.
abbrev pub take_first : Subscription → List Event → Subscription
take_first s [] = s
take_first s (e ∷ more) = record s { queue = more; taken = s.taken ++ e ∷ [] }

abbrev pub receive_in : ℕ → List (ℕ × Subscription) → List (ℕ × Subscription)
receive_in id [] = []
receive_in id ((i, s) ∷ more) =
    let rest = receive_in id more in
    if i == id then (i, take_first s s.queue) ∷ more else (i, s) ∷ rest

abbrev pub receive : ℕ → Broker → Broker
receive id b = record b { subscribers = receive_in id b.subscribers }
