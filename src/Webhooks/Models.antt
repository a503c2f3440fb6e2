-- ===== src/Webhooks/Models.antt =====
-- internal/webhooks/models.go and the request of service.go.
use spark_server.Base.{ℕ, Bytes, List, Option}

pub record Webhook : Type 0 where
  pub id : Bytes
  pub owner_id : Bytes
  pub event_name : Bytes
  pub url : Bytes
  pub method : Bytes
  pub headers : List (Bytes × Bytes)
  pub body : Bytes
  pub fail_count : ℕ
  pub last_status : ℕ
  pub last_error : Bytes
  pub last_delivered_at : Option ℕ
  pub next_attempt_at : Option ℕ
  pub created_at : ℕ
  pub updated_at : ℕ

-- `Request`; no headers are none.
pub record WebhookRequest : Type 0 where
  pub owner_id : Bytes
  pub event_name : Bytes
  pub url : Bytes
  pub method : Bytes
  pub headers : Option (List (Bytes × Bytes))
  pub body : Bytes

-- The header and the body of a request that is sent; its method and URL are the webhook's.
pub record Outgoing : Type 0 where
  pub headers : List (Bytes × Bytes)
  pub body : Bytes
