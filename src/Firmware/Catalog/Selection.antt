-- ===== src/Firmware/Catalog/Selection.antt =====
-- internal/firmware/selection.go: which firmware a device gets, and the start of its update.
use spark_server.Base.{
  Bool, true, false, ◌&&◌, ◌||◌, not, List, [], ◌∷◌, Bytes, codes, same_bytes, Option, none, some,
  if◌then◌else◌,
}
use spark_server.Base.Maps.{lookup}
use spark_server.Base.Integers.{ℤ, pos, atoi, itoa, ltb_int, same_int}
use spark_server.Devices.Models.{Device}
use spark_server.Devices.Service.{first_non_empty, or_empty, product_of}
use spark_server.Products.Models.{ProductDevice}
use spark_server.Products.Members.{linked}
use spark_server.Firmware.Models.{ProductFirmware, FlashJob, FlashTarget, FlashRequest}
use spark_server.Firmware.Effects
use spark_server.Firmware.Ota.{start_device_flash}
use spark_server.Firmware.Signals.{has_flash_job_for_device}
use spark_server.Records.Effects.{firmware, not_found, M, ◌>>=◌, ◌>>◌, pure, refuse_when, on_flash}
use spark_server.Records.{links, get_all, first_match}
use spark_server.Firmware.Catalog.{
  Service, list_product_firmware, get_product_firmware, the_firmware,
}

-- `UpdateCheckRequest`; its DeviceID is not read.
pub record UpdateCheckRequest : Type 0 where
  pub product_id : Bytes
  pub target_version : Option ℤ
  pub current_version : ℤ
  pub current_firmware : Bytes

-- What `CurrentProductFirmware` picks: the first that is current or default, else the last.
abbrev pub is_chosen : ProductFirmware → Bool
is_chosen f = f.current || f.default

abbrev pub last : List ProductFirmware → Option ProductFirmware
last [] = none
last (f ∷ []) = some f
last (f ∷ g ∷ more) = last (g ∷ more)

abbrev or_last : Option ProductFirmware → List ProductFirmware → Option ProductFirmware
or_last none all = last all
or_last (some f) all = some f

abbrev pub pick : List ProductFirmware → Option ProductFirmware
pick all = or_last (first_match is_chosen all) all

abbrev pub attribute : Device → Bytes → Bytes
attribute d key = or_empty (lookup key d.attributes)

abbrev pub product_id_for_device : Device → Bytes
product_id_for_device d =
    if same_bytes d.product_id [] then product_of d.attributes else d.product_id

-- The first of the texts that is a number.
abbrev pub first_number : List Bytes → ℤ
first_number [] = pos 0
first_number (text ∷ more) = let rest = first_number more in or_else rest (atoi text)
  where
    or_else : ℤ → Option ℤ → ℤ
    or_else rest none = rest
    or_else rest (some v) = v

abbrev pub firmware_version_for_device : Device → ℤ
firmware_version_for_device d = first_number (
    attribute d (codes "product_firmware_version")
    ∷ attribute d (codes "firmware_version")
    ∷ attribute d (codes "firmwareVersion")
    ∷ attribute d (codes "version")
    ∷ [])

abbrev pub firmware_for_device : Device → Bytes
firmware_for_device d = first_non_empty (
    attribute d (codes "firmware_id")
    ∷ attribute d (codes "firmwareID")
    ∷ attribute d (codes "product_firmware_id")
    ∷ [])

-- Whether the device runs the target already, or a later version.
abbrev pub is_up_to_date : UpdateCheckRequest → ProductFirmware → Bool
is_up_to_date request target =
    (not (same_bytes request.current_firmware []) && same_bytes request.current_firmware target.id)
    || (not (ltb_int request.current_version target.version)
        && not (same_int request.current_version (pos 0)))

abbrev pub is_withheld : Option ℤ → ProductFirmware → Bool
is_withheld none target = not target.released && not target.current && not target.default
is_withheld (some version) target = false

abbrev pub flash_target : ProductFirmware → FlashTarget
flash_target f = record {
  id = f.id;
  product_id = f.product_id;
  version = f.version;
  size = f.size;
  sha256 = f.sha256;
  binary_path = f.binary_path;
}

abbrev desired_of : Option ProductDevice → Option ℤ
desired_of none = none
desired_of (some link) = link.desired_firmware_version

module _ (service : Service) where
  unfoldable pub current_product_firmware : Bytes → M ProductFirmware
  current_product_firmware product_id = do
    all ← list_product_firmware service product_id
    the_firmware service (pick all)

  unfoldable pub target_product_firmware : Bytes → Option ℤ → M ProductFirmware
  target_product_firmware product_id none = current_product_firmware product_id
  target_product_firmware product_id (some version) =
      get_product_firmware service product_id (itoa version)

  -- The target and whether the device should get it.
  unfoldable pub check_product_firmware_update :
      UpdateCheckRequest → M (Option ProductFirmware × Bool)
  check_product_firmware_update request = do
    refuse_when (same_bytes request.product_id []) (not_found firmware)
    target ← target_product_firmware request.product_id request.target_version
    pure (
        if is_withheld request.target_version target
        then (none, false)
        else (some target, not (is_up_to_date request target)))

  unfoldable pub desired_firmware_version : Bytes → Bytes → M (Option ℤ)
  desired_firmware_version product_id device_id =
      if not service.has_product_devices || same_bytes product_id [] || same_bytes device_id []
      then pure none
      else (do
        all ← get_all service.env links (λ l. same_bytes l.product_id product_id)
        pure (desired_of (first_match (linked device_id) all)))

  unfoldable pub select_firmware : Bytes → Bytes → M ProductFirmware
  select_firmware product_id id =
      if same_bytes id []
      then current_product_firmware product_id
      else get_product_firmware service product_id id

  -- `StartDeviceFlash` of ota.go, which first finds the firmware among the records.
  unfoldable pub start_device_flash_of : FlashRequest → M FlashJob
  start_device_flash_of request = do
    refuse_when (same_bytes request.device_id [] || same_bytes request.product_id [])
        (not_found firmware)
    f ← select_firmware request.product_id request.firmware_id
    on_flash (start_device_flash service.flash_env (λ _. Effects.pure (flash_target f)) request)

  abbrev start_for : Device → Bytes → Bytes → M (Option FlashJob)
  start_for d product_id firmware_id = do
    started ← on_flash (has_flash_job_for_device service.flash_env d.id firmware_id)
    let start = (do
      job ←
          start_device_flash_of
            (record { device_id = d.id; product_id = product_id; firmware_id = firmware_id })
      pure (some job))
    if started then pure none else start

  abbrev start_checked : Device → Bytes → Option ProductFirmware × Bool → M (Option FlashJob)
  start_checked d product_id (some target, true) = start_for d product_id target.id
  start_checked d product_id _ = pure none

  abbrev checked_start : Device → Bytes → M (Option FlashJob)
  checked_start d product_id = do
    version ← desired_firmware_version product_id d.id
    answer ← check_product_firmware_update (record {
      product_id = product_id;
      target_version = version;
      current_version = firmware_version_for_device d;
      current_firmware = firmware_for_device d;
    })
    start_checked d product_id answer

  unfoldable pub check_and_start_product_firmware_update : Device → M (Option FlashJob)
  check_and_start_product_firmware_update d = do
    refuse_when (same_bytes d.id []) (not_found firmware)
    (if same_bytes (product_id_for_device d) []
        then pure none
        else checked_start d (product_id_for_device d))
