-- ===== src/Products/Service.antt =====
-- internal/products/service.go. A product that Go returns beside the error of its last call is not
-- part of the model's error.
pub mod Found
pub mod Unique
pub mod Updated
pub mod Created
pub mod Ownership
use spark_server.Base.{
  ℕ, Bool, true, false, ◌&&◌, not, List, [], ◌∷◌, Bytes, same_bytes, Option, none, some,
  if◌then◌else◌, ltb, ◌==◌,
}
use spark_server.Base.Sort.{Sorting}
use spark_server.Devices.Models.{Device}
use spark_server.Devices.Service.{first_non_empty}
use spark_server.Firmware.Models.{ProductFirmware}
use spark_server.Products.Models.{
  Product, ProductDevice, CreateRequest, UpdateRequest, ProductDeviceUpdateRequest,
}
use spark_server.Base.Texts.{Unicode}
use spark_server.Base.Integers.{ℤ, same_int}
use spark_server.Products.Slugs.{clean_slug}
use spark_server.Records.Effects.{
  device, product, firmware, not_found, conflict, Env, M, ◌>>=◌, ◌>>◌, pure, raise, refuse_when,
  optional, ignoring, now, fresh_id,
}
use spark_server.Records.{
  devices, products, links, firmwares, create, get_by_id, save, delete, list, get_first, get_all,
  matches, first_match,
}

abbrev pub older : Product → Product → Bool
older left right = ltb left.created_at right.created_at

abbrev pub older_device : Device → Device → Bool
older_device left right = ltb left.created_at right.created_at

pub record Service : Type 0 where
  pub env : Env
  pub has_firmwares : Bool  -- `service.firmwares != nil`
  pub unicode : Unicode
  pub sort_products : Sorting older
  pub sort_devices : Sorting older_device

-- A field that the request gives replaces the one of the record.
abbrev pub given {ℓ} : {A : Type ℓ} → Option A → A → A
given none old = old
given (some new) old = new

abbrev pub given_text : Bytes → Bytes → Bytes
given_text new old = if same_bytes new [] then old else new

-- Whether a product other than `p` was found.
abbrev pub is_other : Product → Option Product → Bool
is_other p none = false
is_other p (some found) = not (same_bytes found.id p.id)

abbrev pub is_there : Option Product → Bool
is_there none = false
is_there (some p) = true

module _ (service : Service) where
  unfoldable pub get_by_slug : Bytes → M Product
  get_by_slug slug = get_first service.env products (λ p. same_bytes p.slug slug)

  unfoldable pub get_by_product_id : Bytes → M (List ProductDevice)
  get_by_product_id id = get_all service.env links (λ l. same_bytes l.product_id id)

  abbrev pub requested_slug : CreateRequest → Bytes
  requested_slug request =
      given_text (clean_slug service.unicode request.slug) (clean_slug service.unicode request.name)

  abbrev pub chosen_id : Bytes → M Bytes
  chosen_id id = if same_bytes id [] then fresh_id service.env else pure id

  abbrev pub new_product : CreateRequest → Bytes → Bytes → ℕ → Product
  new_product request id slug time = record {
    id = id;
    slug = slug;
    name = first_non_empty (request.name ∷ slug ∷ []);
    description = request.description;
    owner_id = request.owner_id;
    created_at = time;
    updated_at = time;
  }

  unfoldable pub create_new : CreateRequest → Bytes → Bytes → M Product
  create_new request slug id = do
    time ← now service.env
    let made = new_product request id slug time
    create service.env products made
    pure made

  unfoldable pub create_product : CreateRequest → M Product
  create_product request = do
    refuse_when (same_bytes request.owner_id []) (not_found product)
    let slug = requested_slug request
    refuse_when (same_bytes slug []) (not_found product)
    id ← chosen_id request.id
    by_id ← optional product (get_by_id service.env products id)
    refuse_when (is_there by_id) (conflict product)
    by_slug ← optional product (get_by_slug slug)
    refuse_when (is_there by_slug) (conflict product)
    create_new request slug id

  unfoldable pub list_products : Bytes → M (List Product)
  list_products owner = do
    all ← list service.env products
    pure (service.sort_products.sort (matches (λ p. same_bytes p.owner_id owner) all))

  abbrev pub by_id_found : Bytes → Option Product → M Product
  by_id_found slug none = get_by_slug slug
  by_id_found slug (some p) = pure p

  unfoldable pub product_by_id_or_slug : Bytes → M Product
  product_by_id_or_slug id_or_slug = do
    refuse_when (same_bytes id_or_slug []) (not_found product)
    o ← optional product (get_by_id service.env products id_or_slug)
    by_id_found id_or_slug o

  unfoldable pub get : Bytes → Bytes → M Product
  get owner id_or_slug = do
    p ← product_by_id_or_slug id_or_slug
    refuse_when (not (same_bytes p.owner_id owner)) (not_found product)
    pure p

  abbrev pub reslugged : Bytes → Product → M Product
  reslugged requested p = do
    let slug = clean_slug service.unicode requested
    existing ← optional product (get_by_slug slug)
    refuse_when (is_other p existing) (conflict product)
    pure (record p { slug = slug })

  -- The new slug, where the request gives one.
  unfoldable pub with_slug : Bytes → Product → M Product
  with_slug requested p = if same_bytes requested [] then pure p else reslugged requested p

  unfoldable pub update : Bytes → Bytes → UpdateRequest → M Product
  update owner id_or_slug request = do
    p ← get owner id_or_slug
    q ← with_slug request.slug p
    time ← now service.env
    let updated = record q {
      name = given_text request.name q.name;
      description = given_text request.description q.description;
      updated_at = time;
    }
    save service.env products updated
    pure updated

  abbrev pub delete_links : List ProductDevice → M (Unit {0})
  delete_links [] = pure tt
  delete_links (l ∷ more) = do done ← ignoring (delete service.env links l.id); delete_links more

  unfoldable pub delete_product : Bytes → Bytes → M (Unit {0})
  delete_product owner id_or_slug = do
    p ← get owner id_or_slug
    all ← get_by_product_id p.id
    delete_links all
    delete service.env products p.id
