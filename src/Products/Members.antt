-- ===== src/Products/Members.antt =====
-- internal/products/service.go: the devices of a product.
use spark_server.Base.{
  ℕ, Bool, true, false, not, List, [], ◌∷◌, Bytes, same_bytes, Option, none, some, if◌then◌else◌,
}
use spark_server.Devices.Models.{Device}
use spark_server.Firmware.Models.{ProductFirmware}
use spark_server.Products.Models.{Product, ProductDevice, ProductDeviceUpdateRequest}
use spark_server.Base.Integers.{ℤ, same_int}
use spark_server.Records.Effects.{
  device, product, not_found, M, ◌>>=◌, ◌>>◌, pure, raise, refuse_when, optional, ignoring, now,
  fresh_id,
}
use spark_server.Records.{
  devices, links, firmwares, create, get_by_id, save, delete, get_all, first_match,
}
use spark_server.Products.Service.{Service, given, get, get_by_product_id}

abbrev pub has_version : ℤ → List ProductFirmware → Bool
has_version version [] = false
has_version version (f ∷ more) =
    let rest = has_version version more in if same_int f.version version then true else rest

-- The device where it is there and belongs to the owner.
abbrev pub with_owned : Bytes → Option Device → List Device → List Device
with_owned owner none rest = rest
with_owned owner (some d) rest = if same_bytes d.owner_id owner then d ∷ rest else rest

abbrev pub linked : Bytes → ProductDevice → Bool
linked device_id link = same_bytes link.device_id device_id

-- The assignments of `UpdateDevice` before the one of the version.
abbrev pub with_policy : ProductDeviceUpdateRequest → ProductDevice → ProductDevice
with_policy request link = record link {
  notes = given request.notes link.notes;
  denied = given request.denied link.denied;
  development = given request.development link.development;
  quarantined = given request.quarantined link.quarantined;
}

module _ (service : Service) where
  unfoldable pub has_product_firmware_version : Bytes → ℤ → M Bool
  has_product_firmware_version product_id version = do
    all ← get_all service.env firmwares (λ f. same_bytes f.product_id product_id)
    pure (has_version version all)

  abbrev pub new_link : Bytes → Bytes → Bytes → Bytes → ℕ → ProductDevice
  new_link id product_id device_id owner time = record {
    id = id;
    product_id = product_id;
    device_id = device_id;
    owner_id = owner;
    notes = [];
    denied = false;
    development = false;
    quarantined = false;
    desired_firmware_version = none;
    created_at = time;
    updated_at = time;
  }

  abbrev link_found : Bytes → Product → Device → Bytes → Option ProductDevice → M ProductDevice
  link_found owner p d device_id (some link) = pure link
  link_found owner p d device_id none = do
    time ← now service.env
    id ← fresh_id service.env
    let link = new_link id p.id device_id owner time
    create service.env links link
    save service.env devices (record d { product_id = p.id; updated_at = time })
    pure link

  unfoldable pub add_device : Bytes → Bytes → Bytes → M ProductDevice
  add_device owner product_id_or_slug device_id = do
    refuse_when (same_bytes device_id []) (not_found product)
    p ← get service owner product_id_or_slug
    d ← get_by_id service.env devices device_id
    refuse_when (not (same_bytes d.owner_id owner)) (not_found product)
    all ← get_by_product_id service p.id
    link_found owner p d device_id (first_match (linked device_id) all)

  abbrev pub owned_devices : Bytes → List ProductDevice → M (List Device)
  owned_devices owner [] = pure []
  owned_devices owner (l ∷ more) = do
    o ← optional device (get_by_id service.env devices l.device_id)
    rest ← owned_devices owner more
    pure (with_owned owner o rest)

  unfoldable pub list_devices : Bytes → Bytes → M (List Device)
  list_devices owner product_id_or_slug = do
    p ← get service owner product_id_or_slug
    all ← get_by_product_id service p.id
    owned ← owned_devices owner all
    pure (service.sort_devices.sort owned)

  abbrev device_of_link : Bytes → Bytes → Option ProductDevice → M (Device × ProductDevice)
  device_of_link owner device_id none = raise (not_found product)
  device_of_link owner device_id (some link) = do
    d ← get_by_id service.env devices device_id
    refuse_when (not (same_bytes d.owner_id owner)) (not_found product)
    pure (d, link)

  unfoldable pub get_device : Bytes → Bytes → Bytes → M (Device × ProductDevice)
  get_device owner product_id_or_slug device_id = do
    p ← get service owner product_id_or_slug
    all ← get_by_product_id service p.id
    device_of_link owner device_id (first_match (linked device_id) all)

  unfoldable pub validate_firmware_version : Bytes → ℤ → M (Unit {0})
  validate_firmware_version product_id version =
      if service.has_firmwares
      then (do
        known ← has_product_firmware_version product_id version
        refuse_when (not known) (not_found product))
      else pure tt

  -- The version that `UpdateDevice` sets.
  abbrev desired_version : ProductDevice → Bool → Option ℤ → M (Option ℤ)
  desired_version link true version = pure none
  desired_version link false none = pure link.desired_firmware_version
  desired_version link false (some version) = do
    validate_firmware_version link.product_id version
    pure (some version)

  unfoldable pub update_device :
      Bytes → Bytes → Bytes → ProductDeviceUpdateRequest → M ProductDevice
  update_device owner product_id_or_slug device_id request = do
    (d, link) ← get_device owner product_id_or_slug device_id
    version ← desired_version link request.clear_desired_firmware request.desired_firmware_version
    time ← now service.env
    let updated = record (with_policy request link) {
      desired_firmware_version = version;
      updated_at = time;
    }
    save service.env links updated
    pure updated

  abbrev unlink : Product → Option Device → M (Unit {0})
  unlink p none = pure tt
  unlink p (some d) =
      if same_bytes d.product_id p.id
      then (do
        time ← now service.env
        save service.env devices (record d { product_id = []; updated_at = time }))
      else pure tt

  abbrev remove_link : Product → Bytes → Option ProductDevice → M (Unit {0})
  remove_link p device_id none = raise (not_found product)
  remove_link p device_id (some link) = do
    delete service.env links link.id
    o ← ignoring (get_by_id service.env devices device_id)
    unlink p o

  unfoldable pub remove_device : Bytes → Bytes → Bytes → M (Unit {0})
  remove_device owner product_id_or_slug device_id = do
    p ← get service owner product_id_or_slug
    all ← get_by_product_id service p.id
    remove_link p device_id (first_match (linked device_id) all)
