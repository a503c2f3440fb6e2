-- ===== src/Events/Models.antt =====
-- internal/events/models.go and the types of service.go. A channel of events is what is buffered in it
-- and what its receiver has taken from it, and a sink is a number.
use spark_server.Base.{ℕ, List, Bytes}

pub record Event : Type 0 where
  pub id : Bytes
  pub name : Bytes
  pub data_text : Bytes
  pub device_id : Bytes
  pub product_id : Bytes
  pub published : ℕ

pub record Filter : Type 0 where
  pub prefix : Bytes
  pub device_id : Bytes
  pub product_id : Bytes

pub record Subscription : Type 0 where
  pub filter : Filter
  pub queue : List Event
  pub taken : List Event

-- `delivered` is what the sinks have been handed.
pub record Broker : Type 0 where
  pub next_id : ℕ
  pub subscribers : List (ℕ × Subscription)
  pub sinks : List ℕ
  pub delivered : List (ℕ × Event)
