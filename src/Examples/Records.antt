-- ===== src/Examples/Records.antt =====
-- Devices, claim codes, products and their files at concrete inputs.
use spark_server.Base.{
  ◌≡◌, ◌≢◌, refl, sym, ◌∙◌, true, false, [], ◌∷◌, Bytes, codes, same_bytes, same_bytes_iff, none,
  some, ok, arith, Bool-cases, inl, inr,
}
use spark_server.Base.Maps.{lookup}
use spark_server.Base.Sort.{insertion}
use spark_server.Base.Texts.{Unicode}
use spark_server.Devices.Models.{Device, DeviceClaim}
use spark_server.Devices.Service.{blank_device, new_claim, claim, provision, get, update, unclaim}
use spark_server.Devices.Service as Claiming
use spark_server.Devices.Service.Ownership.{HasDevices, devices_of_others_kept}
use spark_server.Devices.Service.Claims.{HasClaims, IsClaimed, claim-IsClaimed, provision_once}
use spark_server.Products.Models.{Product, CreateRequest, UpdateRequest}
use spark_server.Products.Service.{older, older_device, create_product, delete_product}
use spark_server.Products.Service as Selling
use spark_server.Products.Service.Unique.{IsShelf}
use spark_server.Products.Service.Ownership.{operations-IsShelf, products_of_others_kept}
use spark_server.Events.Broker.{new_broker}
use spark_server.Records.Effects.{World, Env, now}
use spark_server.Records.{create, save, get_by_id}
use spark_server.Records.Calls.{Ends, SameRecords}
use spark_server.Records.Files.{bad_id}
use spark_server.Examples.Firmware as Flashing

abbrev pub env : Env
env = record {
  cancelled = λ n. none;
  fault = λ n. none;
  clock = λ n. 100;
  new_id = λ n. codes "new";
}

abbrev mine : Device
mine = record (blank_device (codes "d1") 10) { owner_id = codes "ann"; name = codes "lamp" }

abbrev theirs : Device
theirs = record (blank_device (codes "d2") 20) { owner_id = codes "bob" }

abbrev code : DeviceClaim
code = new_claim (codes "c") (codes "ann") 90 1000

abbrev shop : Product
shop = record {
  id = codes "p1";
  slug = codes "lamps";
  name = codes "Lamps";
  description = [];
  owner_id = codes "ann";
  created_at = 5;
  updated_at = 5;
}

abbrev pub world : World
world = record {
  devices = (codes "d1", mine) ∷ (codes "d2", theirs) ∷ [];
  claims = (codes "c", code) ∷ [];
  products = (codes "p1", shop) ∷ [];
  links = [];
  firmwares = [];
  events = [];
  users = [];
  tokens = [];
  webhooks = [];
  requests = [];
  broker = new_broker;
  binaries = [];
  flash = Flashing.world;
  calls = 0;
}

abbrev service : Claiming.Service
service = record { env = env; has_claims = true; live_client = none; claim_lifetime = 600 }

world-HasDevices : HasDevices world
world-HasDevices = (refl, (refl, tt), (refl, tt, tt))

world-HasClaims : HasClaims world
world-HasClaims = (refl, tt, tt)

bob_not_ann : codes "bob" ≢ codes "ann"
bob_not_ann e = let same : false ≡ true = (same_bytes_iff (codes "bob") (codes "ann")).1 e in cc

devices_of_others_kept_example :
    Ends
      (λ _ v. lookup (codes "d2") v.devices ≡ some theirs)
      (λ v. lookup (codes "d2") v.devices ≡ some theirs)
      (update service (codes "ann") (codes "d1") (codes "heater") world)
    × Ends
        (λ _ v. lookup (codes "d2") v.devices ≡ some theirs)
        (λ v. lookup (codes "d2") v.devices ≡ some theirs)
        (unclaim service (codes "ann") (codes "d1") world)
devices_of_others_kept_example =
    devices_of_others_kept service (codes "ann") (codes "d1") (codes "heater") world (codes "d2")
      theirs world-HasDevices refl bob_not_ann

claim-IsClaimed_example :
    Ends
      (IsClaimed env (codes "ann") (codes "d2") world)
      (SameRecords world)
      (claim service (codes "ann") (codes "d2") world)
claim-IsClaimed_example = claim-IsClaimed service (codes "ann") (codes "d2") world world-HasDevices

provision_once_example :
    Ends
      (λ _ v. Ends (λ _ _. ⊥) (SameRecords v) (provision service (codes "d2") (codes "c") v))
      (λ _. Unit)
      (provision service (codes "d3") (codes "c") world)
provision_once_example =
    provision_once service (codes "d3") (codes "d2") (codes "c") world world-HasDevices
      world-HasClaims

-- The code is accepted, so the second provision is of a used code.
provisioned :
    (provision service (codes "d3") (codes "c") world).0
    ≡ ok (record (blank_device (codes "d3") 100) { owner_id = codes "ann" })
unfolding provision claim now create get_by_id save bad_id
provisioned = refl

older-asym : (x y : Product) → older y x ≡ true → older x y ≡ false
older-asym x y h = ground arith

older-chain : (x y z : Product) → older y x ≡ false → older z y ≡ false → older z x ≡ false
older-chain x y z h k = ground arith

older_device-asym : (x y : Device) → older_device y x ≡ true → older_device x y ≡ false
older_device-asym x y h = ground arith

older_device-chain :
    (x y z : Device)
    → older_device y x ≡ false
    → older_device z y ≡ false
    → older_device z x ≡ false
older_device-chain x y z h k = ground arith

abbrev pub unicode : Unicode
unicode = record { to_lower = λ s. s; to_upper = λ s. s; trim_space = λ s. s }

abbrev selling : Selling.Service
selling = record {
  env = env;
  has_firmwares = true;
  unicode = unicode;
  sort_products = insertion older (record { asym = older-asym; chain = older-chain });
  sort_devices =
      insertion older_device (record { asym = older_device-asym; chain = older_device-chain });
}

pub only : {A : Type 0} (l k : Bytes) (a b : A) → lookup k ((l, a) ∷ []) ≡ some b → l ≡ k
only l k a b e = elim (Bool-cases (same_bytes l k)) [
  | inl same ↦ (same_bytes_iff l k).0 same
  | inr other ↦ absurd (ground arith)
]

world-IsShelf : IsShelf world
world-IsShelf = record {
  directory = (refl, tt, tt);
  unique = λ k l p q e f same. sym (only (codes "p1") k shop p e) ∙ only (codes "p1") l shop q f;
}

abbrev another : CreateRequest
another = record {
  owner_id = codes "bob";
  id = [];
  slug = [];
  name = codes " New Lamps ";
  description = [];
}

abbrev renaming : UpdateRequest
renaming = record { name = codes "Bulbs"; slug = codes "Bulbs"; description = [] }

operations-IsShelf_example :
    Ends (λ _ v. IsShelf v) IsShelf (create_product selling another world)
    × Ends
        (λ _ v. IsShelf v)
        IsShelf
        (Selling.update selling (codes "ann") (codes "p1") renaming world)
    × Ends (λ _ v. IsShelf v) IsShelf (delete_product selling (codes "ann") (codes "p1") world)
operations-IsShelf_example =
    operations-IsShelf selling another (codes "ann") (codes "p1") renaming world world-IsShelf

products_of_others_kept_example :
    Ends
      (λ _ v. lookup (codes "p1") v.products ≡ some shop)
      (λ v. lookup (codes "p1") v.products ≡ some shop)
      (Selling.update selling (codes "bob") (codes "lamps") renaming world)
    × Ends
        (λ _ v. lookup (codes "p1") v.products ≡ some shop)
        (λ v. lookup (codes "p1") v.products ≡ some shop)
        (delete_product selling (codes "bob") (codes "lamps") world)
products_of_others_kept_example =
    products_of_others_kept selling (codes "bob") (codes "lamps") renaming world (codes "p1") shop
      world-IsShelf refl (λ e. bob_not_ann (sym e))
