-- ===== src/Examples/Catalog.antt =====
-- Firmware records at concrete inputs.
use spark_server.Base.{
  ℕ, ◌≡◌, refl, sym, ◌∙◌, Bool, true, false, [], ◌∷◌, codes, none, some, ok, arith, ltb,
  if◌then◌else◌,
}
use spark_server.Base.Sort.{insertion}
use spark_server.Base.Integers.{ℤ, pos, negsuc, same_int, ltb_int}
use spark_server.Firmware.Models.{ProductFirmware}
use spark_server.Firmware.Catalog.Uploads.{Upload, Update}
use spark_server.Firmware.Catalog.Current.{IsCatalog, Kept}
use spark_server.Firmware.Catalog.Operations.{operations-IsCatalog}
use spark_server.Firmware.Catalog.{
  Service, by_version, upload_product_firmware, release_product_firmware,
  set_default_product_firmware, update_product_firmware, delete_product_firmware,
}
use spark_server.Records.Effects.{World}
use spark_server.Records.Calls.{Ends}
use spark_server.Examples.Firmware as Flashing
use spark_server.Examples.Records.{env, unicode, world, only}

-- The order of versions and times.
abbrev comes_before : ℤ → ℕ → ℤ → ℕ → Bool
comes_before v a w b = if same_int v w then ltb a b else ltb_int v w

before-asym : (v w : ℤ) (a b : ℕ) → comes_before w b v a ≡ true → comes_before v a w b ≡ false
before-asym (pos m) (pos n) a b h = ground arith
before-asym (pos m) (negsuc n) a b h = ground arith
before-asym (negsuc m) (pos n) a b h = ground arith
before-asym (negsuc m) (negsuc n) a b h = ground arith

before-chain :
    (u v w : ℤ) (a b c : ℕ)
    → comes_before v b u a ≡ false
    → comes_before w c v b ≡ false
    → comes_before w c u a ≡ false
before-chain (pos l) (pos m) (pos n) a b c h k = ground arith
before-chain (pos l) (pos m) (negsuc n) a b c h k = ground arith
before-chain (pos l) (negsuc m) (pos n) a b c h k = ground arith
before-chain (pos l) (negsuc m) (negsuc n) a b c h k = ground arith
before-chain (negsuc l) (pos m) (pos n) a b c h k = ground arith
before-chain (negsuc l) (pos m) (negsuc n) a b c h k = ground arith
before-chain (negsuc l) (negsuc m) (pos n) a b c h k = ground arith
before-chain (negsuc l) (negsuc m) (negsuc n) a b c h k = ground arith

pub by_version-asym : (x y : ProductFirmware) → by_version y x ≡ true → by_version x y ≡ false
by_version-asym x y h = before-asym x.version y.version x.created_at y.created_at h

pub by_version-chain :
    (x y z : ProductFirmware)
    → by_version y x ≡ false
    → by_version z y ≡ false
    → by_version z x ≡ false
by_version-chain x y z h k =
    before-chain x.version y.version z.version x.created_at y.created_at z.created_at h k

abbrev pub service : Service
service = record {
  env = env;
  has_firmwares = true;
  has_product_devices = true;
  unicode = unicode;
  sort_firmwares =
      insertion by_version (record { asym = by_version-asym; chain = by_version-chain });
  path_in_directory = λ name. name;
  flash_env = Flashing.env;
}

abbrev pub blink : ProductFirmware
blink = record {
  id = codes "f1";
  product_id = codes "p1";
  version = pos 3;
  title = codes "blink";
  description = [];
  filename = codes "blink.bin";
  content_type = [];
  size = 2;
  sha256 = [];
  binary_path = codes "f1.bin";
  release_notes = [];
  released = true;
  default = true;
  current = true;
  created_at = 1;
  updated_at = 1;
}

abbrev pub stocked : World
stocked = record world {
  firmwares = (codes "f1", blink) ∷ [];
  binaries = (codes "f1.bin", 1 ∷ 2 ∷ []) ∷ [];
}

pub stocked-IsCatalog : IsCatalog stocked.firmwares
stocked-IsCatalog = record {
  directory = (refl, tt, tt);
  single = λ k l f g e e' same current current'.
      sym (only (codes "f1") k blink f e) ∙ only (codes "f1") l blink g e';
}

abbrev upload : Upload
upload = record {
  product_id = codes "p1";
  version = pos 0;
  title = [];
  description = [];
  filename = codes "blink2.bin";
  content_type = [];
  release_notes = [];
  released = false;
  default = false;
  current = true;
  reader = some (ok (7 ∷ 8 ∷ 9 ∷ []));
}

abbrev change : Update
change = record {
  version = some (pos 5);
  title = none;
  description = none;
  filename = none;
  content_type = none;
  release_notes = none;
  released = none;
  default = some true;
  current = none;
  reader = none;
}

operations-IsCatalog_example :
    Ends (λ _ v. Kept v) Kept (upload_product_firmware service upload stocked)
    × Ends (λ _ v. Kept v) Kept (release_product_firmware service (codes "p1") (codes "3") stocked)
    × Ends
        (λ _ v. Kept v)
        Kept
        (set_default_product_firmware service (codes "p1") (codes "3") stocked)
    × Ends
        (λ _ v. Kept v)
        Kept
        (update_product_firmware service (codes "p1") (codes "3") change stocked)
    × Ends (λ _ v. Kept v) Kept (delete_product_firmware service (codes "p1") (codes "3") stocked)
operations-IsCatalog_example =
    operations-IsCatalog service upload (codes "p1") (codes "3") change stocked stocked-IsCatalog
