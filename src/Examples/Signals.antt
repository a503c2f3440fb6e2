-- ===== src/Examples/Signals.antt =====
-- What a device means and says about its flash job, at concrete inputs.
use spark_server.Base.{[], ◌∷◌, ◌≡◌, refl, true, false, codes, ok, arith}
use spark_server.Base.Sort.{Sorting, IsOrder, insertion}
use spark_server.Firmware.Models.{FlashJob}
use spark_server.Firmware.Effects.{store_of_device}
use spark_server.Firmware.Ota.{newest_first}
use spark_server.Firmware.Signals.{active_flash_job_for_device}
use spark_server.Firmware.Signals.Chosen.{Answers, active_flash_job_for_device-IsChosen}
use spark_server.Firmware.Reliable.{Returns}
use spark_server.Firmware.Job.{unique_valid_chunk_indexes, unique_valid_from, contains}
use spark_server.Firmware.Signals.{retry_missed_flash_chunks}
use spark_server.Firmware.Signals.Asked.{asked_parts}
use spark_server.Firmware.Signals.Resent.{IsPresent, Retried, retry_missed_flash_chunks-Retried}
use spark_server.Examples.Firmware.{
  device, binary, parts, some_id, device-IsAccepting, parts-Cuts, env, world, job, env-IsReliable,
}

newest-asym : (x y : FlashJob) → newest_first y x ≡ true → newest_first x y ≡ false
newest-asym x y h = ground arith

newest-chain :
    (x y z : FlashJob)
    → newest_first y x ≡ false
    → newest_first z y ≡ false
    → newest_first z x ≡ false
newest-chain x y z h k = ground arith

abbrev newest_order : IsOrder newest_first
newest_order = record { asym = newest-asym; chain = newest-chain }

abbrev sorting : Sorting newest_first
sorting = insertion newest_first newest_order

job-chosen :
    active_flash_job_for_device env sorting (codes "device") world
    ≡ (ok job, record world { calls = 1 })
unfolding active_flash_job_for_device store_of_device insertion
job-chosen = refl

active_flash_job_for_device-IsChosen_example : Answers env sorting (codes "device") world
active_flash_job_for_device-IsChosen_example =
    active_flash_job_for_device-IsChosen env sorting (codes "device") world env-IsReliable (λ e. cc)

job-IsPresent : IsPresent env binary job (record world { calls = 1 })
job-IsPresent = record { some_id = some_id; found = refl; readable = refl; cut = parts-Cuts }

-- The first chunk was transferred, the third is asked for twice, and there is no tenth.
retry_missed_flash_chunks-Retried_example :
    Returns
      (retry_missed_flash_chunks env sorting (codes "device") (2 ∷ 0 ∷ 2 ∷ 9 ∷ []))
      world
      (Retried env binary job (record world { calls = 1 }) (2 ∷ 0 ∷ 2 ∷ 9 ∷ []))
retry_missed_flash_chunks-Retried_example =
    retry_missed_flash_chunks-Retried env device env-IsReliable refl device-IsAccepting binary
      sorting (codes "device") job world (record world { calls = 1 }) job-chosen
      (2 ∷ 0 ∷ 2 ∷ 9 ∷ []) job-IsPresent

resent_parts :
    asked_parts binary parts (unique_valid_chunk_indexes (2 ∷ 0 ∷ 2 ∷ 9 ∷ []) 3)
    ≡ (2, codes "k") ∷ (0, codes "sp") ∷ []
unfolding unique_valid_chunk_indexes unique_valid_from contains
resent_parts = refl
