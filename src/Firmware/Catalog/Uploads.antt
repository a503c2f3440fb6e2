-- ===== src/Firmware/Catalog/Uploads.antt =====
-- internal/firmware/metadata.go and service.go: uploads, updates and what is computed from them.
use spark_server.Base.{
  ℕ, Bool, true, false, ◌&&◌, ◌||◌, not, List, [], ◌∷◌, Bytes, same_bytes, Option, none, some,
  Result, ◌==◌, if◌then◌else◌,
}
use spark_server.Base.Texts.{Unicode, trim_space}
use spark_server.Base.Integers.{ℤ, atoi, ltb_int, same_int}
use spark_server.Firmware.Models.{ProductFirmware}
use spark_server.Products.Service.{given}
use spark_server.Records.Effects.{Error}

-- `Upload`. What the reader gives is its bytes or an error.
pub record Upload : Type 0 where
  pub product_id : Bytes
  pub version : ℤ
  pub title : Bytes
  pub description : Bytes
  pub filename : Bytes
  pub content_type : Bytes
  pub release_notes : Bytes
  pub released : Bool
  pub default : Bool
  pub current : Bool
  pub reader : Option (Result Error Bytes)

pub record Update : Type 0 where
  pub version : Option ℤ
  pub title : Option Bytes
  pub description : Option Bytes
  pub filename : Option Bytes
  pub content_type : Option Bytes
  pub release_notes : Option Bytes
  pub released : Option Bool
  pub default : Option Bool
  pub current : Option Bool
  pub reader : Option (Result Error Bytes)

-- `filepath.Ext`: what begins at the last dot of the last part of a path.
abbrev pub has_separator : Bytes → Bool
has_separator [] = false
has_separator (c ∷ cs) = (c == 0x2f) || has_separator cs

abbrev pub ext : Bytes → Bytes
ext [] = []
ext (c ∷ cs) =
    let rest = ext cs in
    if same_bytes rest []
    then (if (c == 0x2e) && not (has_separator cs) then c ∷ cs else [])
    else rest

abbrev pub or_text : Bytes → Bytes → Bytes
or_text value other = if same_bytes value [] then other else value

abbrev pub largest : ℤ → List ProductFirmware → ℤ
largest version [] = version
largest version (f ∷ more) = largest (if ltb_int version f.version then f.version else version) more

-- The first of a list with a version.
abbrev pub with_version : ℤ → List ProductFirmware → Option ProductFirmware
with_version version [] = none
with_version version (f ∷ more) =
    let rest = with_version version more in if same_int f.version version then some f else rest

abbrev pub int_from_string : Unicode → Bytes → Option ℤ
int_from_string unicode value = atoi (trim_space unicode value)

abbrev pub made_current : ProductFirmware → ProductFirmware
made_current f = record f { current = true; default = true; released = true }

abbrev pub new_firmware : Upload → Bytes → ℤ → Bytes → ℕ → Bytes → ℕ → ProductFirmware
new_firmware upload id version path size checksum time = record {
  id = id;
  product_id = upload.product_id;
  version = version;
  title = or_text upload.title upload.filename;
  description = upload.description;
  filename = upload.filename;
  content_type = upload.content_type;
  size = size;
  sha256 = checksum;
  binary_path = path;
  release_notes = upload.release_notes;
  released = upload.released || upload.current || upload.default;
  default = upload.default || upload.current;
  current = upload.current;
  created_at = time;
  updated_at = time;
}

-- The assignments of `UpdateProductFirmware` before those of the binary.
abbrev pub with_fields : Update → ProductFirmware → ProductFirmware
with_fields update f = record f {
  version = given update.version f.version;
  title = given update.title f.title;
  description = given update.description f.description;
  release_notes = given update.release_notes f.release_notes;
  released = given update.released f.released;
  default = given update.default f.default;
  current = given update.current f.current;
}
