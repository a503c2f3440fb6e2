-- ===== src/Records/Effects.antt =====
-- The records of the server, and the calls that may fail: a call's outcome may depend on how many
-- calls came before it.
use spark_server.Base.{
  ℕ, suc, Bool, true, false, List, Bytes, Option, none, some, Result, ok, err, if◌then◌else◌,
}
use spark_server.Devices.Models.{Device, DeviceClaim}
use spark_server.Products.Models.{Product, ProductDevice}
use spark_server.Firmware.Models.{ProductFirmware}
use spark_server.Firmware.Effects
use spark_server.Events.Models.{Event, Broker}
use spark_server.Auth.Models.{User, AccessToken}
use spark_server.Webhooks.Models.{Webhook, Outgoing}

-- Which of the packages an `ErrNotFound` or an `ErrConflict` is from.
pub data Kind : Type 0 where
  device product firmware event webhook auth : Kind

-- `io` is an error of the context or the file system, with its text; `deliveries_failed` joins the
-- errors of the deliveries of an event; `flash_failure` is what a call on flash jobs returns.
pub data Error : Type 0 where
  not_found conflict : Kind → Error
  device_offline device_timeout deadline_exceeded invalid_id empty_binary invalid_credentials :
      Error
  io : Bytes → Error
  deliveries_failed : List Bytes → Error
  flash_failure : Effects.Failure → Error

-- `requests` are the webhook requests that were sent, with the IDs of the
-- webhooks; `broker` is what the event service keeps; `binaries` are the paths and contents of the firmware files; `flash` is what flash jobs change.
pub record World : Type 0 where
  pub devices : List (Bytes × Device)
  pub claims : List (Bytes × DeviceClaim)
  pub products : List (Bytes × Product)
  pub links : List (Bytes × ProductDevice)
  pub firmwares : List (Bytes × ProductFirmware)
  pub events : List (Bytes × Event)
  pub users : List (Bytes × User)
  pub tokens : List (Bytes × AccessToken)
  pub webhooks : List (Bytes × Webhook)
  pub broker : Broker
  pub requests : List (Bytes × Outgoing)
  pub binaries : List (Bytes × Bytes)
  pub flash : Effects.World
  pub calls : ℕ

-- What the services get from outside: `ctx.Err()`, failures of the file system, the clock and the
-- random IDs.
pub record Env : Type 0 where
  pub cancelled : ℕ → Option Bytes
  pub fault : ℕ → Option Bytes
  pub clock : ℕ → ℕ
  pub new_id : ℕ → Bytes

abbrev pub M : Type 0 → Type 0
M A = World → Result Error A × World

abbrev pub continue : {A B : Type 0} → Result Error A × World → (A → M B) → Result Error B × World
continue (ok a, w) f = f a w
continue (err e, w) f = (err e, w)

infixl 5 ◌>>=◌ ◌>>◌
abbrev pub ◌>>=◌ : {A B : Type 0} → M A → (A → M B) → M B
◌>>=◌ m f w = continue (m w) f

abbrev pub ◌>>◌ : {B : Type 0} → M (Unit {0}) → M B → M B
m >> k = m >>= λ _. k

abbrev pub pure : {A : Type 0} → A → M A
pure a w = (ok a, w)

abbrev pub raise : {A : Type 0} → Error → M A
raise e w = (err e, w)

abbrev pub refuse_when : Bool → Error → M (Unit {0})
refuse_when true e = raise e
refuse_when false e = pure tt

abbrev pub raise_io : Option Bytes → M (Unit {0})
raise_io none = pure tt
raise_io (some text) = raise (io text)

abbrev pub same_kind : Kind → Kind → Bool
same_kind device device = true
same_kind product product = true
same_kind firmware firmware = true
same_kind event event = true
same_kind webhook webhook = true
same_kind auth auth = true
same_kind _ _ = false

-- `errors.Is(err, ErrNotFound)`.
abbrev pub is_not_found : Kind → Error → Bool
is_not_found kind (not_found other) = same_kind kind other
is_not_found kind _ = false

-- A record that is not there is none.
abbrev pub caught : {A : Type 0} → Kind → Result Error A × World → Result Error (Option A) × World
caught kind (ok a, w) = (ok (some a), w)
caught kind (err e, w) = if is_not_found kind e then (ok none, w) else (err e, w)

abbrev pub optional : {A : Type 0} → Kind → M A → M (Option A)
optional kind m w = caught kind (m w)

-- A call whose error the code drops.
abbrev pub dropped : {A : Type 0} → Result Error A × World → Result Error (Option A) × World
dropped (ok a, w) = (ok (some a), w)
dropped (err e, w) = (ok none, w)

abbrev pub ignoring : {A : Type 0} → M A → M (Option A)
ignoring m w = dropped (m w)

abbrev pub called : World → World
called w = record w { calls = suc w.calls }

module _ (env : Env) where
  unfoldable pub now : M ℕ
  now w = (ok (env.clock w.calls), called w)

  unfoldable pub fresh_id : M Bytes
  fresh_id w = (ok (env.new_id w.calls), called w)

-- A call on flash jobs.
abbrev pub lifted :
    {A : Type 0} → World → Result Effects.Failure A × Effects.World → Result Error A × World
lifted w (ok a, flash) = (ok a, record w { flash = flash })
lifted w (err e, flash) = (err (flash_failure e), record w { flash = flash })

abbrev pub on_flash : {A : Type 0} → Effects.M A → M A
on_flash m w = lifted w (m w.flash)
