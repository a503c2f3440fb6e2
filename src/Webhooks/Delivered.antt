-- ===== src/Webhooks/Delivered.antt =====
-- Which requests DeliverEvent sends, and which error it returns.
use spark_server.Base.{
  ℕ, suc, ◌≤◌, ◌≡◌, ◌≢◌, ◌⊎◌, Bool, true, false, [], Option, some, Result, ok, err,
}
use spark_server.Events.Models.{Event}
use spark_server.Webhooks.Backoff.{is_due}
use spark_server.Webhooks.Service.{Service}
use spark_server.Webhooks.Delivery.{SameRequests}
use spark_server.Records.Effects.{World, Error, io, deliveries_failed, ◌>>=◌}
use spark_server.Webhooks.Attempted.{hooks, AreAttempted}

module _ (service : Service) (early late : ℕ) (e : Event) where
  -- The outcomes: nothing has failed, deliveries have, or the webhooks could not be listed.
  abbrev pub IsDelivered : World → Result Error (Unit {0}) × World → Type 0
  IsDelivered w (ok _, v) = AreAttempted service early late e (hooks service w) w [] v
  IsDelivered w (err (deliveries_failed texts), v) =
      (texts ≢ []) × AreAttempted service early late e (hooks service w) w texts v
  IsDelivered w (err (io text), v) =
      ((service.env.cancelled w.calls ≡ some text) ⊎ (service.env.fault (suc w.calls) ≡ some text))
      × SameRequests w v
  IsDelivered w (err _, v) = ⊥

  module _ (span : (n : ℕ) → (early ≤ service.env.clock n) × (service.env.clock n ≤ late)) where
    abbrev IsTimely : Option ℕ → World → Bool → World → Type 0
    IsTimely next w due v =
        (due ≡ false → is_due early next ≡ false)
        × (due ≡ true → is_due late next ≡ true)
        × SameRequests w v
