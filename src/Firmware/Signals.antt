-- ===== src/Firmware/Signals.antt =====
-- internal/firmware/ota.go: what a device or a listing asks of the flash jobs.
pub mod Chosen
pub mod Asked
pub mod Resent
use spark_server.Base.{
  ℕ, Bool, false, ◌&&◌, ◌||◌, not, List, [], ◌∷◌, Bytes, codes, same_bytes, Option, none, some,
  length, ltb, ◌==◌, if◌then◌else◌,
}
use spark_server.Base.Sort.{Sorting}
use spark_server.Firmware.Models.{FlashStatus, FlashJob, not_found, max_missed_flash_chunks}
use spark_server.Firmware.Effects.{
  Env, M, ◌>>=◌, ◌>>◌, pure, raise, refuse_when, store_list, store_of_device, publish,
  on_error_false,
}
use spark_server.Firmware.Job.{is_active, is_completed, unique_valid_chunk_indexes}
use spark_server.Firmware.Ota.{
  newest_first, oldest_first, get_flash_job_by_id, fail_flash_job, send_flash_chunk,
}

-- The first job of a list with a status of a kind.
abbrev pub first_with : (FlashStatus → Bool) → List FlashJob → Option FlashJob
first_with test [] = none
first_with test (job ∷ jobs) = if test job.status then some job else first_with test jobs

abbrev pub or_completed : Option FlashJob → List FlashJob → Option FlashJob
or_completed (some job) jobs = some job
or_completed none jobs = first_with is_completed jobs

-- The two loops of `activeFlashJobForDevice` over the sorted jobs.
abbrev pub active_or_completed : List FlashJob → Option FlashJob
active_or_completed jobs = or_completed (first_with is_active jobs) jobs

abbrev pub not_failed : FlashStatus → Bool
not_failed status = is_active status || is_completed status

abbrev pub any_job : (FlashStatus → Bool) → Bytes → List FlashJob → Bool
any_job test firmware_id [] = false
any_job test firmware_id (job ∷ jobs) =
    (same_bytes job.firmware_id firmware_id && test job.status) || any_job test firmware_id jobs

abbrev or_not_found : Option FlashJob → M FlashJob
or_not_found none = raise not_found
or_not_found (some job) = pure job

module _ (env : Env) where
  unfoldable pub active_flash_job_for_device : Sorting newest_first → Bytes → M FlashJob
  active_flash_job_for_device slice device_id = do
    refuse_when (same_bytes device_id [] || not env.has_store) not_found
    jobs ← store_of_device env device_id
    or_not_found (active_or_completed (slice.sort jobs))

  -- The loop of `RetryMissedFlashChunks`; the result of the last call is returned.
  unfoldable pub resend : Bytes → FlashJob → List ℕ → M FlashJob
  resend id current [] = pure current
  resend id current (index ∷ indexes) = do
    next ← send_flash_chunk env id index
    resend id next indexes

  unfoldable pub resend_valid : FlashJob → List ℕ → M FlashJob
  resend_valid job [] = pure job
  resend_valid job (index ∷ indexes) = do
    publish env (codes "missed") job
    resend job.id job (index ∷ indexes)

  unfoldable pub retry_missed_flash_chunks : Sorting newest_first → Bytes → List ℕ → M FlashJob
  retry_missed_flash_chunks slice device_id indexes = do
    job ← active_flash_job_for_device slice device_id
    if length indexes == 0
        then pure job
        else if ltb max_missed_flash_chunks (length indexes)
        then fail_flash_job env job (codes "too many missed OTA chunks")
        else resend_valid job (unique_valid_chunk_indexes indexes (length job.chunks))

  unfoldable pub abort_device_flash : Sorting newest_first → Bytes → Bytes → M FlashJob
  abort_device_flash slice device_id message = do
    job ← active_flash_job_for_device slice device_id
    fail_flash_job env job (if same_bytes message [] then codes "device aborted flash" else message)

  unfoldable pub list_device_flash_jobs : Sorting oldest_first → Bytes → M (List FlashJob)
  list_device_flash_jobs slice device_id = do
    refuse_when (same_bytes device_id []) not_found
    let listed = (do jobs ← store_of_device env device_id; pure (slice.sort jobs))
    if env.has_store then listed else pure []

  unfoldable pub get_device_flash_job : Bytes → Bytes → M FlashJob
  get_device_flash_job device_id id = do
    refuse_when (same_bytes device_id []) not_found
    job ← get_flash_job_by_id env id
    refuse_when (not (same_bytes job.device_id device_id)) not_found
    pure job

  unfoldable pub has_flash_job_for_device : Bytes → Bytes → M Bool
  has_flash_job_for_device device_id firmware_id w = on_error_false (
      (do
        jobs ← (if env.has_store then store_of_device env device_id else pure [])
        pure (any_job not_failed firmware_id jobs))
        w)

  unfoldable pub has_active_flash_job_for_firmware : Bytes → M Bool
  has_active_flash_job_for_firmware firmware_id w = on_error_false (
      (do
        jobs ← (if env.has_store then store_list env else pure [])
        pure (any_job is_active firmware_id jobs))
        w)
