-- ===== src/Firmware/Models.antt =====
-- internal/firmware/models.go and the constants of service.go: flash jobs and their chunks. Times
-- are numbers, and so are the counts and sizes, which the code only ever raises from 0. A version is a
-- Go int and may be negative.
use spark_server.Base.{ℕ, List, [], Bytes, Option, Bool, codes}
use spark_server.Base.Integers.{ℤ}

abbrev pub default_flash_chunk_size : ℕ
default_flash_chunk_size = 512

abbrev pub max_missed_flash_chunks : ℕ
max_missed_flash_chunks = 10

pub data FlashStatus : Type 0 where
  queued running completed failed : FlashStatus

pub record OtaChunk : Type 0 where
  pub index : ℕ
  pub offset : ℕ
  pub size : ℕ
  pub sha256 : Bytes
  pub transferred : Bool

pub record FlashJob : Type 0 where
  pub id : Bytes
  pub device_id : Bytes
  pub product_id : Bytes
  pub firmware_id : Bytes
  pub firmware_version : ℤ
  pub binary_path : Bytes
  pub size : ℕ
  pub sha256 : Bytes
  pub chunk_size : ℕ
  pub chunk_count : ℕ
  pub transferred : ℕ
  pub chunks : List OtaChunk
  pub status : FlashStatus
  pub progress : ℕ
  pub error : Bytes
  pub created_at : ℕ
  pub updated_at : ℕ
  pub started_at : Option ℕ
  pub completed_at : Option ℕ

-- `not_found` and `conflict` are the two of the file. The texts of the others are those that the parts they come from
-- give; `out_of_fuel` is no Go value.
pub data Error : Type 0 where
  not_found conflict checksum_mismatch out_of_fuel : Error
  store : Bytes → Error
  transport : Bytes → Error
  io : Bytes → Error

-- `err.Error()`.
abbrev pub error_text : Error → Bytes
error_text not_found = codes "firmware record not found"
error_text conflict = codes "firmware record already exists"
error_text checksum_mismatch = codes "chunk checksum mismatch"
error_text out_of_fuel = []
error_text (store text) = text
error_text (transport text) = text
error_text (io text) = text

-- The fields of `ProductFirmware` that a flash job takes over.
pub record FlashTarget : Type 0 where
  pub id : Bytes
  pub product_id : Bytes
  pub version : ℤ
  pub size : ℕ
  pub sha256 : Bytes
  pub binary_path : Bytes

-- `FlashRequest`.
pub record FlashRequest : Type 0 where
  pub device_id : Bytes
  pub product_id : Bytes
  pub firmware_id : Bytes

pub record ProductFirmware : Type 0 where
  pub id : Bytes
  pub product_id : Bytes
  pub version : ℤ
  pub title : Bytes
  pub description : Bytes
  pub filename : Bytes
  pub content_type : Bytes
  pub size : ℕ
  pub sha256 : Bytes
  pub binary_path : Bytes
  pub release_notes : Bytes
  pub released : Bool
  pub default : Bool
  pub current : Bool
  pub created_at : ℕ
  pub updated_at : ℕ
