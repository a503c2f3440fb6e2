-- ===== src/Firmware/Ota.antt =====
-- internal/firmware/ota.go: the operations on flash jobs.
pub mod Reliable
pub mod Parts
pub mod Started
pub mod Step
pub mod Pump
pub mod Start
use spark_server.Base.{
  ℕ, zero, suc, ◌+◌, Bool, true, false, ◌&&◌, ◌||◌, not, List, [], ◌∷◌, ◌++◌, Bytes, codes,
  same_bytes, Option, none, some, Result, ok, err, length, ltb, leb, ◌==◌, if◌then◌else◌, get_elem?,
}
use spark_server.Base.Sort.{Sorting}
use spark_server.Firmware.Models.{
  FlashStatus, queued, OtaChunk, FlashJob, Error, not_found, transport, out_of_fuel, error_text,
  FlashTarget, FlashRequest, max_missed_flash_chunks,
}
use spark_server.Firmware.Effects.{
  Env, M, Transport, Sent, begin, chunk, complete, ◌>>=◌, ◌>>◌, pure, raise, raise_with,
  refuse_when, now, fresh_id, store_get, store_create, store_list, store_of_device, save, publish,
  send, on_error_false,
}
use spark_server.Firmware.Job.{
  run_job, fail_job, complete_job, start_queued, transfer_chunk, all_transferred, progress_for,
  is_active, is_over, is_completed, is_queued, unique_valid_chunk_indexes,
}
use spark_server.Firmware.Manifest.{build_chunk_manifest, read_chunk_data}

-- The orders that the two sorts of the file are by.
abbrev pub newest_first : FlashJob → FlashJob → Bool
newest_first left right = ltb right.updated_at left.updated_at

abbrev pub oldest_first : FlashJob → FlashJob → Bool
oldest_first left right = ltb left.created_at right.created_at

-- The loop of `SendNextFlashChunk`: the index field of the first chunk not yet transferred.
abbrev pub next_index : List OtaChunk → Option ℕ
next_index [] = none
next_index (c ∷ chunks) = if c.transferred then next_index chunks else some c.index

module _ (env : Env) where
  unfoldable pub get_flash_job_by_id : Bytes → M FlashJob
  get_flash_job_by_id id = do
    refuse_when (same_bytes id [] || not env.has_store) not_found
    store_get env id

  unfoldable pub mark_flash_job_running : FlashJob → M FlashJob
  mark_flash_job_running job = do
    time ← now env
    let running = run_job time job
    save env running
    publish env (codes "running") running
    pure running

  unfoldable pub start_flash_job : Bytes → M FlashJob
  start_flash_job id = do job ← get_flash_job_by_id id; mark_flash_job_running job

  unfoldable pub fail_flash_job : FlashJob → Bytes → M FlashJob
  fail_flash_job job message = do
    time ← now env
    let failed = fail_job time message job
    save env failed
    publish env (codes "failed") failed
    pure failed

  unfoldable pub fail_flash_job_by_id : Bytes → Bytes → M FlashJob
  fail_flash_job_by_id id message = do job ← get_flash_job_by_id id; fail_flash_job job message

  unfoldable pub complete_flash_job : FlashJob → M FlashJob
  complete_flash_job job = do
    time ← now env
    let completed = complete_job time job
    save env completed
    publish env (codes "completed") completed
    pure completed

  unfoldable pub complete_flash_job_by_id : Bytes → M FlashJob
  complete_flash_job_by_id id = do job ← get_flash_job_by_id id; complete_flash_job job

  -- The last part of `MarkFlashChunkTransferred`.
  unfoldable pub record_chunk : FlashJob → M FlashJob
  record_chunk job = do
    time ← now env
    let updated = record job { progress = progress_for job; updated_at = time }
    save env updated
    publish env (codes "chunk") updated
    pure updated

  -- A queued job runs from the time of a call of the clock; for another the clock is not called.
  unfoldable pub start_marked : FlashJob → M FlashJob
  start_marked job =
      if is_queued job.status then (do time ← now env; pure (start_queued time job)) else pure job

  unfoldable pub mark_flash_chunk_transferred : Bytes → ℕ → M FlashJob
  mark_flash_chunk_transferred id index = do
    job ← get_flash_job_by_id id
    refuse_when (leb (length job.chunks) index) not_found
    started ← start_marked job
    let marked = transfer_chunk index started
    if all_transferred marked then complete_flash_job marked else record_chunk marked

  abbrev the_transport : Option Transport → M Transport
  the_transport none = raise not_found
  the_transport (some t) = pure t

  abbrev the_chunk : Option OtaChunk → M OtaChunk
  the_chunk none = raise not_found
  the_chunk (some c) = pure c

  -- After a call of the transport: on an error the job fails, and both are returned.
  unfoldable pub fail_on : FlashJob → Option Bytes → M (Unit {0})
  fail_on job none = pure tt
  fail_on job (some text) = do
    failed ← fail_flash_job job (error_text (transport text))
    raise_with failed (transport text)

  -- `completeDeviceFlash`.
  unfoldable pub complete_device_flash :
      Option (ℕ → FlashJob → Option Bytes) → FlashJob → M (Option Bytes)
  complete_device_flash none job = pure none
  complete_device_flash (some reply) job = send env (complete job) (λ n. reply n job)

  unfoldable pub finish_on_device : Transport → FlashJob → M FlashJob
  finish_on_device t job =
      if is_completed job.status
      then (do reply ← complete_device_flash t.complete_flash job; fail_on job reply; pure job)
      else pure job

  unfoldable pub start_if_queued : FlashJob → M FlashJob
  start_if_queued job = if is_queued job.status then mark_flash_job_running job else pure job

  unfoldable pub send_flash_chunk : Bytes → ℕ → M FlashJob
  send_flash_chunk id index = do
    loaded ← get_flash_job_by_id id
    t ← the_transport env.flash_transport
    part ← the_chunk (get_elem? loaded.chunks index)
    bytes ← read_chunk_data env loaded.binary_path part
    job ← start_if_queued loaded
    reply ← send env (chunk job part bytes) (λ n. t.send_flash_chunk n job part bytes)
    fail_on job reply
    updated ← mark_flash_chunk_transferred job.id index
    finish_on_device t updated

  unfoldable pub send_next : Bytes → FlashJob → Option ℕ → M FlashJob
  send_next id job none = complete_flash_job job
  send_next id job (some index) = send_flash_chunk id index

  unfoldable pub send_next_flash_chunk : Bytes → M FlashJob
  send_next_flash_chunk id = do
    job ← get_flash_job_by_id id
    send_next id job (next_index job.chunks)

  -- The loop of `PumpFlashJob`; the fuel stands for rounds.
  unfoldable pub pump_flash_job : ℕ → Bytes → M FlashJob
  pump_flash_job zero id = raise out_of_fuel
  pump_flash_job (suc fuel) id = do
    job ← send_next_flash_chunk id
    let more = pump_flash_job fuel id
    if is_over job.status then pure job else more

  unfoldable pub begin_and_pump_flash_job : Transport → FlashJob → M FlashJob
  begin_and_pump_flash_job t job = do
    reply ← send env (begin job) (λ n. t.begin_flash n job)
    fail_on job reply
    running ← mark_flash_job_running job
    pump_flash_job (suc (length running.chunks)) running.id

  -- `StartDeviceFlash` with a target: without a store, and with one.
  unfoldable pub start_without_store : Option Transport → FlashJob → M FlashJob
  start_without_store none job = do publish env (codes "queued") job; pure job
  start_without_store (some t) job = do
    reply ← send env (begin job) (λ n. t.begin_flash n job)
    fail_on job reply
    mark_flash_job_running job

  unfoldable pub start_with_store : Option Transport → FlashJob → M FlashJob
  start_with_store none job = do store_create env job; publish env (codes "queued") job; pure job
  start_with_store (some t) job = do
    store_create env job
    publish env (codes "queued") job
    begin_and_pump_flash_job t job

  -- The job that `StartDeviceFlash` makes.
  abbrev pub new_job : Bytes → ℕ → FlashRequest → FlashTarget → List OtaChunk → FlashJob
  new_job id time request target chunks = record {
    id = id;
    device_id = request.device_id;
    product_id = target.product_id;
    firmware_id = target.id;
    firmware_version = target.version;
    binary_path = target.binary_path;
    size = target.size;
    sha256 = target.sha256;
    chunk_size = env.chunk_size;
    chunk_count = length chunks;
    transferred = 0;
    chunks = chunks;
    status = queued;
    progress = 0;
    error = [];
    created_at = time;
    updated_at = time;
    started_at = none;
    completed_at = none;
  }

  -- `select_firmware` is the lookup of selection.go.
  unfoldable pub start_device_flash : (FlashRequest → M FlashTarget) → FlashRequest → M FlashJob
  start_device_flash select_firmware request = do
    refuse_when (same_bytes request.device_id [] || same_bytes request.product_id []) not_found
    target ← select_firmware request
    refuse_when (same_bytes target.binary_path []) not_found
    chunks ← build_chunk_manifest env target.binary_path
    time ← now env
    id ← fresh_id env
    let job = new_job id time request target chunks
    if env.has_store
        then start_with_store env.flash_transport job
        else start_without_store env.flash_transport job
