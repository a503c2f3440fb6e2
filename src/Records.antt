-- ===== src/Records.antt =====
-- internal/jsonfile: the store of one kind of record. A `Table` says where in the world its files
-- are. A file is the record that is read from it: the encoding as a JSON document is not modelled, and
-- the records are those that it keeps, whose strings are valid UTF-8.
pub mod Files
pub mod Effects
pub mod Calls
pub mod Matches
use spark_server.Base.{
  ℕ, suc, Bool, true, false, List, [], ◌∷◌, Bytes, Option, none, some, Result, ok, err,
  if◌then◌else◌,
}
use spark_server.Base.Maps.{lookup, remove, is_some}
use spark_server.Devices.Models.{Device, DeviceClaim}
use spark_server.Products.Models.{Product, ProductDevice}
use spark_server.Auth.Models.{User, AccessToken}
use spark_server.Webhooks.Models.{Webhook}
use spark_server.Events.Models.{Event}
use spark_server.Firmware.Models.{ProductFirmware}
use spark_server.Records.Files.{bad_id, write_file, records}
use spark_server.Records.Effects.{
  Kind, device, product, firmware, event, webhook, auth, Error, not_found, conflict, invalid_id,
  World, Env, M, ◌>>=◌, ◌>>◌, pure, raise, refuse_when, raise_io, called,
}

pub record Table (A : Type 0) : Type 0 where
  pub kind : Kind
  pub id_of : A → Bytes
  pub files : World → List (Bytes × A)
  pub put : List (Bytes × A) → World → World

abbrev pub devices : Table Device
devices = record {
  kind = device;
  id_of = λ d. d.id;
  files = λ w. w.devices;
  put = λ m w. record w { devices = m };
}

abbrev pub claims : Table DeviceClaim
claims = record {
  kind = device;
  id_of = λ c. c.code;
  files = λ w. w.claims;
  put = λ m w. record w { claims = m };
}

abbrev pub products : Table Product
products = record {
  kind = product;
  id_of = λ p. p.id;
  files = λ w. w.products;
  put = λ m w. record w { products = m };
}

abbrev pub links : Table ProductDevice
links = record {
  kind = product;
  id_of = λ l. l.id;
  files = λ w. w.links;
  put = λ m w. record w { links = m };
}

abbrev pub firmwares : Table ProductFirmware
firmwares = record {
  kind = firmware;
  id_of = λ f. f.id;
  files = λ w. w.firmwares;
  put = λ m w. record w { firmwares = m };
}

abbrev pub events : Table Event
events = record {
  kind = event;
  id_of = λ e. e.id;
  files = λ w. w.events;
  put = λ m w. record w { events = m };
}

abbrev pub webhooks : Table Webhook
webhooks = record {
  kind = webhook;
  id_of = λ h. h.id;
  files = λ w. w.webhooks;
  put = λ m w. record w { webhooks = m };
}

abbrev pub users : Table User
users = record {
  kind = auth;
  id_of = λ u. u.id;
  files = λ w. w.users;
  put = λ m w. record w { users = m };
}

abbrev pub tokens : Table AccessToken
tokens = record {
  kind = auth;
  id_of = λ t. t.token;
  files = λ w. w.tokens;
  put = λ m w. record w { tokens = m };
}

-- The loops of the repositories over List: the first match, and all matches.
module _ {A : Type 0} (test : A → Bool) where
  abbrev pub first_match : List A → Option A
  first_match [] = none
  first_match (a ∷ more) = let rest = first_match more in if test a then some a else rest

  abbrev pub matches : List A → List A
  matches [] = []
  matches (a ∷ more) = let rest = matches more in if test a then a ∷ rest else rest

module _ (env : Env) {A : Type 0} (table : Table A) where
  -- The test of the context, which each operation begins with, and the first use of the disk.
  abbrev pub begin : M (Unit {0})
  begin w = raise_io (env.cancelled w.calls) (called w)

  abbrev pub disk : M (Unit {0})
  disk w = raise_io (env.fault w.calls) (called w)

  abbrev pub write : A → M (Unit {0})
  write a w = (ok tt, table.put (write_file (table.id_of a) a (table.files w)) w)

  abbrev pub found : Option A → M A
  found none = raise (not_found table.kind)
  found (some a) = pure a

  unfoldable pub create : A → M (Unit {0})
  create a = do
    begin
    refuse_when (bad_id (table.id_of a)) invalid_id
    disk
    taken ← (λ w. (ok (is_some (lookup (table.id_of a) (table.files w))), w))
    refuse_when taken (conflict table.kind)
    write a

  unfoldable pub get_by_id : Bytes → M A
  get_by_id id = do
    begin
    refuse_when (bad_id id) invalid_id
    disk
    (λ w. found (lookup id (table.files w)) w)

  unfoldable pub save : A → M (Unit {0})
  save a = do begin; refuse_when (bad_id (table.id_of a)) invalid_id; disk; write a

  abbrev pub removed : Bytes → Option A → M (Unit {0})
  removed id none = raise (not_found table.kind)
  removed id (some a) = λ w. (ok tt, table.put (remove id (table.files w)) w)

  unfoldable pub delete : Bytes → M (Unit {0})
  delete id = do
    begin
    refuse_when (bad_id id) invalid_id
    disk
    (λ w. removed id (lookup id (table.files w)) w)

  unfoldable pub list : M (List A)
  list = do begin; disk; (λ w. (ok (records (table.files w)), w))

  unfoldable pub get_first : (A → Bool) → M A
  get_first test = do all ← list; found (first_match test all)

  unfoldable pub get_all : (A → Bool) → M (List A)
  get_all test = do all ← list; pure (matches test all)
