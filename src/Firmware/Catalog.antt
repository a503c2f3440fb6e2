-- ===== src/Firmware/Catalog.antt =====
-- internal/firmware/metadata.go: the firmware of the products, and their binaries. A record that Go
-- returns beside the error of its last call is not part of the model's error.
pub mod Uploads
pub mod Found
pub mod Current
pub mod Written
pub mod Single
pub mod Operations
pub mod Selection
use spark_server.Base.{
  ℕ, suc, ◌+◌, Bool, true, false, ◌&&◌, ◌||◌, not, List, [], ◌∷◌, ◌++◌, Bytes, codes, same_bytes,
  Option, none, some, Result, ok, err, length, ltb, ◌==◌, if◌then◌else◌,
}
use spark_server.Base.Maps.{lookup, remove, store, is_some}
use spark_server.Base.Sort.{Sorting}
use spark_server.Base.Texts.{Unicode, trim_space}
use spark_server.Base.Integers.{ℤ, pos, atoi, ltb_int, same_int, next_int}
use spark_server.Firmware.Models.{ProductFirmware}
use spark_server.Firmware.Effects
use spark_server.Firmware.Catalog.Uploads.{
  Upload, Update, ext, or_text, largest, with_version, int_from_string, made_current, new_firmware,
  with_fields, has_separator,
}
use spark_server.Firmware.Signals.{has_active_flash_job_for_firmware}
use spark_server.Products.Service.{given}
use spark_server.Records.Effects.{
  Kind, firmware, Error, not_found, conflict, empty_binary, World, Env, M, ◌>>=◌, ◌>>◌, pure, raise,
  refuse_when, ignoring, optional, now, fresh_id, on_flash,
}
use spark_server.Records.{firmwares, begin, disk, create, get_by_id, save, delete, get_all}

-- The order of `ListProductFirmware`.
abbrev pub by_version : ProductFirmware → ProductFirmware → Bool
by_version left right =
    if same_int left.version right.version
    then ltb left.created_at right.created_at
    else ltb_int left.version right.version

-- `path_in_directory` is `filepath.Join` with the directory of the binaries.
pub record Service : Type 0 where
  pub env : Env
  pub has_firmwares : Bool  -- `service.firmwares != nil`
  pub has_product_devices : Bool  -- `service.productDevices != nil`
  pub unicode : Unicode
  pub sort_firmwares : Sorting by_version
  pub path_in_directory : Bytes → Bytes
  pub flash_env : Effects.Env

module _ (service : Service) where
  abbrev env : Env
  env = service.env

  abbrev read : Result Error Bytes → M Bytes
  read (ok content) = pure content
  read (err e) = raise e

  -- `writeBinary`: the bytes are written beside the other files and renamed. The uses of the disk are
  -- the directory, the temporary file, its end and the renaming.
  unfoldable pub write_binary : Bytes → Bytes → Result Error Bytes → M (Bytes × ℕ × Bytes)
  write_binary id filename reader = do
    begin env firmwares
    disk env firmwares
    let path = service.path_in_directory (id ++ or_text (ext filename) (codes ".bin"))
    disk env firmwares
    content ← read reader
    disk env firmwares
    refuse_when (length content == 0) empty_binary
    disk env firmwares
    (λ w. (ok tt, record w { binaries = store path content w.binaries }))
    pure (path, length content, service.flash_env.sha256_hex content)

  unfoldable pub get_by_product_id : Bytes → M (List ProductFirmware)
  get_by_product_id id = get_all env firmwares (λ f. same_bytes f.product_id id)

  unfoldable pub list_product_firmware : Bytes → M (List ProductFirmware)
  list_product_firmware product_id = do
    refuse_when (same_bytes product_id []) (not_found firmware)
    let sorted = (do all ← get_by_product_id product_id; pure (service.sort_firmwares.sort all))
    if service.has_firmwares then sorted else pure []

  unfoldable pub next_version : Bytes → M ℤ
  next_version product_id = do
    all ← list_product_firmware product_id
    pure (next_int (largest (pos 0) all))

  -- A firmware that is current is saved as one that is not.
  unfoldable pub clear_one : ProductFirmware → M (Unit {0})
  clear_one f =
      if f.current
      then (do
        time ← now env
        save env firmwares (record f { current = false; default = false; updated_at = time }))
      else pure tt

  abbrev pub clear_all : List ProductFirmware → M (Unit {0})
  clear_all [] = pure tt
  clear_all (f ∷ more) = do clear_one f; clear_all more

  unfoldable pub clear_current : Bytes → M (Unit {0})
  clear_current product_id =
      if service.has_firmwares
      then (do all ← get_by_product_id product_id; clear_all all)
      else pure tt

  unfoldable pub chosen_version : Bytes → ℤ → M ℤ
  chosen_version product_id version =
      if same_int version (pos 0) then next_version product_id else pure version

  abbrev pub created : ProductFirmware → M (Unit {0})
  created f = if service.has_firmwares then create env firmwares f else pure tt

  abbrev pub saved : ProductFirmware → M (Unit {0})
  saved f = if service.has_firmwares then save env firmwares f else pure tt

  -- Where `when` holds, no other firmware stays current and this one is.
  unfoldable pub take_over : Bool → Bytes → ProductFirmware → M ProductFirmware
  take_over true product_id f = do clear_current product_id; pure (made_current f)
  take_over false product_id f = pure f

  abbrev uploaded : Upload → Option (Result Error Bytes) → M ProductFirmware
  uploaded upload none = raise (not_found firmware)
  uploaded upload (some reader) = do
    begin env firmwares
    version ← chosen_version upload.product_id upload.version
    time ← now env
    id ← fresh_id env
    (path, size, checksum) ← write_binary id upload.filename reader
    let made = new_firmware upload id version path size checksum time
    f ← take_over (made.current || made.default) upload.product_id made
    created f
    pure f

  unfoldable pub upload_product_firmware : Upload → M ProductFirmware
  upload_product_firmware upload = do
    refuse_when (same_bytes upload.product_id []) (not_found firmware)
    uploaded upload upload.reader

  abbrev the_firmware : Option ProductFirmware → M ProductFirmware
  the_firmware none = raise (not_found firmware)
  the_firmware (some f) = pure f

  abbrev by_version_number : Bytes → Option ℤ → M ProductFirmware
  by_version_number product_id none = raise (not_found firmware)
  by_version_number product_id (some version) = do
    all ← list_product_firmware product_id
    the_firmware (with_version version all)

  abbrev by_id_found : Bytes → Bytes → Option ProductFirmware → M ProductFirmware
  by_id_found product_id id none = by_version_number product_id (int_from_string service.unicode id)
  by_id_found product_id id (some f) =
      if same_bytes f.product_id product_id then pure f else raise (not_found firmware)

  unfoldable pub get_product_firmware : Bytes → Bytes → M ProductFirmware
  get_product_firmware product_id id = do
    refuse_when (same_bytes product_id [] || same_bytes id [] || not service.has_firmwares)
        (not_found firmware)
    o ← optional firmware (get_by_id env firmwares id)
    by_id_found product_id id o

  unfoldable pub release_product_firmware : Bytes → Bytes → M ProductFirmware
  release_product_firmware product_id id = do
    f ← get_product_firmware product_id id
    time ← now env
    let released = record f { released = true; updated_at = time }
    saved released
    pure released

  unfoldable pub set_default_product_firmware : Bytes → Bytes → M ProductFirmware
  set_default_product_firmware product_id id = do
    f ← get_product_firmware product_id id
    clear_current product_id
    time ← now env
    let chosen = record (made_current f) { updated_at = time }
    saved chosen
    pure chosen

  abbrev remove_file : Bytes → M (Unit {0})
  remove_file path = do
    disk env firmwares
    (λ w. (ok tt, record w { binaries = remove path w.binaries }))

  -- The binary that an update brings.
  abbrev with_binary : Update → Option (Result Error Bytes) → ProductFirmware → M ProductFirmware
  with_binary update none f = pure (record f {
    filename = given update.filename f.filename;
    content_type = given update.content_type f.content_type;
  })
  with_binary update (some reader) f = do
    let filename = or_text (or_text (given update.filename []) f.filename) (codes "firmware.bin")
    (path, size, checksum) ← write_binary f.id filename reader
    let obsolete = not (same_bytes f.binary_path []) && not (same_bytes f.binary_path path)
    done ← ignoring (if obsolete then remove_file f.binary_path else pure tt)
    pure (record f {
      filename = filename;
      binary_path = path;
      size = size;
      sha256 = checksum;
      content_type = given update.content_type f.content_type;
    })

  unfoldable pub update_product_firmware : Bytes → Bytes → Update → M ProductFirmware
  update_product_firmware product_id id update = do
    f ← get_product_firmware product_id id
    refuse_when (not (ltb_int (pos 0) (given update.version (pos 1)))) (not_found firmware)
    written ← with_binary update update.reader (with_fields update f)
    kept ← take_over (given update.default false || given update.current false) product_id written
    time ← now env
    let updated = record kept { updated_at = time }
    saved updated
    pure updated

  -- `os.Remove` of the binary, where an absent file is no error.
  abbrev remove_binary : Bytes → M (Unit {0})
  remove_binary path = if same_bytes path [] then pure tt else remove_file path

  unfoldable pub delete_product_firmware : Bytes → Bytes → M (Unit {0})
  delete_product_firmware product_id id = do
    refuse_when (not service.has_firmwares) (not_found firmware)
    f ← get_product_firmware product_id id
    active ← on_flash (has_active_flash_job_for_firmware service.flash_env f.id)
    refuse_when active (conflict firmware)
    delete env firmwares f.id
    remove_binary f.binary_path
