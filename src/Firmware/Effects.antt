-- ===== src/Firmware/Effects.antt =====
-- What the firmware service calls: the job store, the event publisher, the transport to the device,
-- the clock and the file system. A call's outcome may depend on how many calls came before it.
use spark_server.Base.{
  ℕ, suc, Bool, true, false, List, [], ◌∷◌, ◌++◌, Bytes, same_bytes, Option, none, some, Result, ok,
  err, if◌then◌else◌,
}
use spark_server.Firmware.Models.{OtaChunk, FlashJob, Error, not_found, conflict, store, io}

-- A Go return of a job beside an error keeps the job.
pub record Failure : Type 0 where
  pub cause : Error
  pub job : Option FlashJob

-- What reached the device.
pub data Sent : Type 0 where
  begin : FlashJob → Sent
  chunk : FlashJob → OtaChunk → Bytes → Sent
  complete : FlashJob → Sent

pub record World : Type 0 where
  pub jobs : List FlashJob
  pub events : List (Bytes × FlashJob)
  pub wire : List Sent
  pub calls : ℕ

-- `FlashTransport`, with `FlashCompletionTransport` where it is implemented. A reply is the text of
-- an error, or none.
pub record Transport : Type 0 where
  pub begin_flash : ℕ → FlashJob → Option Bytes
  pub send_flash_chunk : ℕ → FlashJob → OtaChunk → Bytes → Option Bytes
  pub complete_flash : Option (ℕ → FlashJob → Option Bytes)

pub record Env : Type 0 where
  pub has_store : Bool  -- `service.flashJobs != nil`
  pub flash_transport : Option Transport
  pub chunk_size : ℕ
  pub clock : ℕ → ℕ
  pub new_id : ℕ → Bytes
  pub store_fault : ℕ → Option Bytes
  pub cancelled : ℕ → Option Bytes  -- `ctx.Err()`
  pub read_file : Bytes → Result Bytes Bytes
  pub sha256_hex : Bytes → Bytes

abbrev pub M : Type 0 → Type 0
M A = World → Result Failure A × World

abbrev pub continue :
    {A B : Type 0} → Result Failure A × World → (A → M B) → Result Failure B × World
continue (ok a, w) f = f a w
continue (err e, w) f = (err e, w)

infixl 5 ◌>>=◌ ◌>>◌
abbrev pub ◌>>=◌ : {A B : Type 0} → M A → (A → M B) → M B
◌>>=◌ m f w = continue (m w) f

abbrev pub ◌>>◌ : {B : Type 0} → M (Unit {0}) → M B → M B
m >> k = m >>= λ _. k

abbrev pub pure : {A : Type 0} → A → M A
pure a w = (ok a, w)

-- `return nil, err` and `return job, err`.
abbrev pub raise : {A : Type 0} → Error → M A
raise e w = (err (record { cause = e; job = none }), w)

abbrev pub raise_with : {A : Type 0} → FlashJob → Error → M A
raise_with job e w = (err (record { cause = e; job = some job }), w)

abbrev pub refuse_when : Bool → Error → M (Unit {0})
refuse_when true e = raise e
refuse_when false e = pure tt

abbrev called : World → World
called w = record w { calls = suc w.calls }

abbrev pub replace_job : FlashJob → List FlashJob → List FlashJob
replace_job job [] = job ∷ []
replace_job job (j ∷ jobs) = if same_bytes j.id job.id then job ∷ jobs else j ∷ replace_job job jobs

abbrev pub find_job : Bytes → List FlashJob → Option FlashJob
find_job id [] = none
find_job id (j ∷ jobs) = if same_bytes j.id id then some j else find_job id jobs

abbrev pub of_device : Bytes → List FlashJob → List FlashJob
of_device id [] = []
of_device id (j ∷ jobs) =
    let rest = of_device id jobs in if same_bytes j.device_id id then j ∷ rest else rest

abbrev found : Option FlashJob → M FlashJob
found none = raise not_found
found (some job) = pure job

abbrev create_in : Option FlashJob → FlashJob → M (Unit {0})
create_in none job w = (ok tt, record w { jobs = w.jobs ++ job ∷ [] })
create_in (some _) job w = raise conflict w

abbrev faulty : Option Bytes → (Bytes → Error) → M (Unit {0})
faulty none e = pure tt
faulty (some text) e = raise (e text)

-- A call whose error the code takes for `false`.
abbrev pub on_error_false : Result Failure Bool × World → Result Failure Bool × World
on_error_false (ok b, w) = (ok b, w)
on_error_false (err e, w) = (ok false, w)

module _ (env : Env) where
  unfoldable pub now : M ℕ
  now w = (ok (env.clock w.calls), called w)

  unfoldable pub fresh_id : M Bytes
  fresh_id w = (ok (env.new_id w.calls), called w)

  unfoldable pub check_context : M (Unit {0})
  check_context w = faulty (env.cancelled w.calls) io (called w)

  -- The store's `GetByID`, `Save`, `Create`, `List` and `GetByDeviceID`.
  unfoldable pub store_get : Bytes → M FlashJob
  store_get id w =
      continue (faulty (env.store_fault w.calls) store (called w)) (λ _. found (find_job id w.jobs))

  unfoldable pub store_save : FlashJob → M (Unit {0})
  store_save job w =
      continue (faulty (env.store_fault w.calls) store (called w))
        (λ _ v. (ok tt, record v { jobs = replace_job job v.jobs }))

  unfoldable pub store_create : FlashJob → M (Unit {0})
  store_create job w =
      continue (faulty (env.store_fault w.calls) store (called w))
        (λ _ v. create_in (find_job job.id v.jobs) job v)

  unfoldable pub store_list : M (List FlashJob)
  store_list w =
      continue (faulty (env.store_fault w.calls) store (called w)) (λ _ v. (ok v.jobs, v))

  unfoldable pub store_of_device : Bytes → M (List FlashJob)
  store_of_device id w =
      continue (faulty (env.store_fault w.calls) store (called w)) (λ _. pure (of_device id w.jobs))

  -- `if service.flashJobs != nil { Save }`.
  unfoldable pub save : FlashJob → M (Unit {0})
  save job = if env.has_store then store_save job else pure tt

  -- `publishFlashEvent`: what a publisher is handed; its errors are dropped by the code.
  unfoldable pub publish : Bytes → FlashJob → M (Unit {0})
  publish phase job w = (ok tt, record w { events = w.events ++ (phase, job) ∷ [] })

  -- A call of the transport: the message is on the wire, and the reply is an error's text or none.
  unfoldable pub send : Sent → (ℕ → Option Bytes) → M (Option Bytes)
  send message reply w =
      (ok (reply w.calls), record w { calls = suc w.calls; wire = w.wire ++ message ∷ [] })
