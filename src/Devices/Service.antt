-- ===== src/Devices/Service.antt =====
-- internal/devices/service.go. A device that Go returns beside the error of its last call is not part
-- of the model's error.
pub mod Ownership
pub mod Claims
use spark_server.Base.{
  ℕ, suc, ◌+◌, Bool, true, false, ◌||◌, ◌&&◌, not, List, [], ◌∷◌, Bytes, codes, same_bytes, Option,
  none, some, Result, ok, err, if◌then◌else◌, ltb, ◌==◌,
}
use spark_server.Base.Maps.{lookup, is_some}
use spark_server.Devices.Models.{Device, DeviceClaim, Description}
use spark_server.Records.Effects.{
  device, Error, not_found, device_offline, device_timeout, deadline_exceeded, Env, M, ◌>>=◌, ◌>>◌,
  pure, raise, refuse_when, optional, called, now, fresh_id,
}
use spark_server.Records.{devices, claims, create, get_by_id, save, list, get_first, matches}

-- `LiveDeviceClient`: replies of a connected device. A function's result is only passed on.
pub record LiveClient : Type 0 where
  pub get_variable : ℕ → Bytes → Bytes → Result Error Bytes
  pub call_function : ℕ → Bytes → Bytes → Bytes → Result Error ℕ
  pub ping : ℕ → Bytes → Result Error (Unit {0})

pub record Service : Type 0 where
  pub env : Env
  pub has_claims : Bool  -- `service.deviceClaims != nil`
  pub live_client : Option LiveClient
  pub claim_lifetime : ℕ

abbrev pub first_non_empty : List Bytes → Bytes
first_non_empty [] = []
first_non_empty (value ∷ values) =
    let rest = first_non_empty values in if same_bytes value [] then rest else value

-- A key that is not there reads as the empty string.
abbrev pub or_empty : Option Bytes → Bytes
or_empty none = []
or_empty (some value) = value

abbrev pub map_live_call_error : {A : Type 0} → Result Error A → Result Error A
map_live_call_error (ok a) = ok a
map_live_call_error (err deadline_exceeded) = err device_timeout
map_live_call_error (err e) = err e

abbrev pub live_call : {A : Type 0} → (ℕ → Result Error A) → M A
live_call reply w = (map_live_call_error (reply w.calls), called w)

-- A device with the fields that are set, the others zero.
abbrev pub blank_device : Bytes → ℕ → Device
blank_device id time = record {
  id = id;
  name = [];
  owner_id = [];
  product_id = [];
  connected = false;
  variables = [];
  functions = [];
  attributes = [];
  last_heard_at = none;
  created_at = time;
  updated_at = time;
}

abbrev pub product_of : List (Bytes × Bytes) → Bytes
product_of attributes = first_non_empty (
    or_empty (lookup (codes "product_id") attributes)
    ∷ or_empty (lookup (codes "productID") attributes)
    ∷ or_empty (lookup (codes "product") attributes)
    ∷ [])

-- The assignments of `UpdateDescription`.
unfoldable pub described : ℕ → Description → Device → Device
described time description d = record d {
  connected = true;
  last_heard_at = some time;
  updated_at = time;
  variables = description.variables;
  functions = description.functions;
  attributes = description.attributes;
  product_id =
      if same_bytes (product_of description.attributes) []
      then d.product_id
      else product_of description.attributes;
  created_at = if d.created_at == 0 then time else d.created_at;
}

abbrev pub new_claim : Bytes → Bytes → ℕ → ℕ → DeviceClaim
new_claim code owner time lifetime = record {
  code = code;
  owner_id = owner;
  expires_at = time + lifetime;
  created_at = time;
  used_at = none;
  device_id = [];
}

-- Whether a claim code can not be used any more.
abbrev pub is_spent : ℕ → DeviceClaim → Bool
is_spent time claim = is_some claim.used_at || ltb claim.expires_at time

module _ (service : Service) where
  abbrev claim_found : Bytes → Bytes → ℕ → Option Device → M Device
  claim_found owner id time none = do
    let new = record (blank_device id time) { owner_id = owner }
    create service.env devices new
    pure new
  claim_found owner id time (some d) = do
    let owned = record d { owner_id = owner; updated_at = time }
    save service.env devices owned
    pure owned

  unfoldable pub claim : Bytes → Bytes → M Device
  claim owner id = do
    refuse_when (same_bytes id []) (not_found device)
    time ← now service.env
    o ← optional device (get_by_id service.env devices id)
    claim_found owner id time o

  unfoldable pub create_claim_code : Bytes → M DeviceClaim
  create_claim_code owner = do
    time ← now service.env
    code ← fresh_id service.env
    let made = new_claim code owner time service.claim_lifetime
    if service.has_claims then (do create service.env claims made; pure made) else pure made

  unfoldable pub provision : Bytes → Bytes → M Device
  provision id code = do
    refuse_when (not service.has_claims) (not_found device)
    used ← get_by_id service.env claims code
    time ← now service.env
    refuse_when (is_spent time used) (not_found device)
    d ← claim used.owner_id id
    save service.env claims (record used { used_at = some time; device_id = id })
    pure d

  unfoldable pub list_owned : Bytes → M (List Device)
  list_owned owner = do
    all ← list service.env devices
    pure (matches (λ d. same_bytes d.owner_id owner) all)

  abbrev connected_found : Bytes → ℕ → Option Device → M (Unit {0})
  connected_found id time none =
      create service.env devices
        (record (blank_device id time) { connected = true; last_heard_at = some time })
  connected_found id time (some d) =
      save service.env devices
        (record d { connected = true; last_heard_at = some time; updated_at = time })

  unfoldable pub mark_connected : Bytes → M (Unit {0})
  mark_connected id = do
    refuse_when (same_bytes id []) (not_found device)
    time ← now service.env
    o ← optional device (get_by_id service.env devices id)
    connected_found id time o

  abbrev described_found : Bytes → ℕ → Description → Option Device → M Device
  described_found id time description none = do
    let new = described time description (blank_device id time)
    create service.env devices new
    pure new
  described_found id time description (some d) = do
    let updated = described time description d
    save service.env devices updated
    pure updated

  unfoldable pub update_description : Bytes → Description → M Device
  update_description id description = do
    refuse_when (same_bytes id []) (not_found device)
    time ← now service.env
    o ← optional device (get_by_id service.env devices id)
    described_found id time description o

  abbrev disconnected_found : Option Device → M (Unit {0})
  disconnected_found none = pure tt
  disconnected_found (some d) = do
    time ← now service.env
    save service.env devices (record d { connected = false; updated_at = time })

  unfoldable pub mark_disconnected : Bytes → M (Unit {0})
  mark_disconnected id = do
    o ← optional device (get_by_id service.env devices id)
    disconnected_found o

  abbrev get_found : Bytes → Bytes → Option Device → M Device
  get_found owner name none =
      get_first service.env devices (λ d. same_bytes d.owner_id owner && same_bytes d.name name)
  get_found owner name (some d) =
      if same_bytes d.owner_id owner then pure d else raise (not_found device)

  unfoldable pub get : Bytes → Bytes → M Device
  get owner id_or_name = do
    o ← optional device (get_by_id service.env devices id_or_name)
    get_found owner id_or_name o

  unfoldable pub update : Bytes → Bytes → Bytes → M Device
  update owner id_or_name name = do
    d ← get owner id_or_name
    time ← now service.env
    let renamed = record d { name = name; updated_at = time }
    save service.env devices renamed
    pure renamed

  abbrev kept_value : Option Bytes → M Bytes
  kept_value none = raise device_offline
  kept_value (some value) = pure value

  -- A call of a device: with no client, or for a device that is not connected, what is put in its place.
  abbrev live :
      {A : Type 0} → Device → Option LiveClient → M A → (LiveClient → ℕ → Result Error A) → M A
  live d none other reply = other
  live d (some client) other reply = if d.connected then live_call (reply client) else other

  unfoldable pub get_variable : Bytes → Bytes → Bytes → M Bytes
  get_variable owner id_or_name variable_name = do
    refuse_when (same_bytes variable_name []) (not_found device)
    d ← get owner id_or_name
    live d service.live_client (kept_value (lookup variable_name d.variables))
        (λ client n. client.get_variable n d.id variable_name)

  unfoldable pub call_function : Bytes → Bytes → Bytes → Bytes → M ℕ
  call_function owner id_or_name function_name argument = do
    refuse_when (same_bytes function_name []) (not_found device)
    d ← get owner id_or_name
    live d service.live_client (raise device_offline)
        (λ client n. client.call_function n d.id function_name argument)

  unfoldable pub ping : Bytes → Bytes → M Device
  ping owner id_or_name = do
    d ← get owner id_or_name
    live d service.live_client (raise device_offline) (λ client n. client.ping n d.id)
    pure d

  unfoldable pub unclaim : Bytes → Bytes → M (Unit {0})
  unclaim owner id_or_name = do
    d ← get owner id_or_name
    time ← now service.env
    save service.env devices (record d { owner_id = []; updated_at = time })
