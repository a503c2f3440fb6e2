-- ===== src/Products/Models.antt =====
-- internal/products/models.go.
use spark_server.Base.{ℕ, Bool, Bytes, Option}
use spark_server.Base.Integers.{ℤ}

pub record Product : Type 0 where
  pub id : Bytes
  pub slug : Bytes
  pub name : Bytes
  pub description : Bytes
  pub owner_id : Bytes
  pub created_at : ℕ
  pub updated_at : ℕ

pub record ProductDevice : Type 0 where
  pub id : Bytes
  pub product_id : Bytes
  pub device_id : Bytes
  pub owner_id : Bytes
  pub notes : Bytes
  pub denied : Bool
  pub development : Bool
  pub quarantined : Bool
  pub desired_firmware_version : Option ℤ
  pub created_at : ℕ
  pub updated_at : ℕ

-- The requests of internal/products/service.go.
pub record CreateRequest : Type 0 where
  pub owner_id : Bytes
  pub id : Bytes
  pub slug : Bytes
  pub name : Bytes
  pub description : Bytes

pub record UpdateRequest : Type 0 where
  pub name : Bytes
  pub slug : Bytes
  pub description : Bytes

pub record ProductDeviceUpdateRequest : Type 0 where
  pub notes : Option Bytes
  pub denied : Option Bool
  pub development : Option Bool
  pub quarantined : Option Bool
  pub desired_firmware_version : Option ℤ
  pub clear_desired_firmware : Bool
