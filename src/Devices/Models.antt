-- ===== src/Devices/Models.antt =====
-- internal/devices/models.go. Times are numbers, and the zero time is 0.
use spark_server.Base.{ℕ, Bool, List, Bytes, Option}

pub record Device : Type 0 where
  pub id : Bytes
  pub name : Bytes
  pub owner_id : Bytes
  pub product_id : Bytes
  pub connected : Bool
  pub variables : List (Bytes × Bytes)
  pub functions : List Bytes
  pub attributes : List (Bytes × Bytes)
  pub last_heard_at : Option ℕ
  pub created_at : ℕ
  pub updated_at : ℕ

pub record DeviceClaim : Type 0 where
  pub code : Bytes
  pub owner_id : Bytes
  pub expires_at : ℕ
  pub created_at : ℕ
  pub used_at : Option ℕ
  pub device_id : Bytes

pub record Description : Type 0 where
  pub variables : List (Bytes × Bytes)
  pub functions : List Bytes
  pub attributes : List (Bytes × Bytes)
