-- ===== src/Examples/Firmware.antt =====
-- Flash jobs at concrete inputs.
use spark_server.Base.Integers.{pos}
use spark_server.Base.{
  ◌++◌, ◌&&◌, ltb, ◌⊎◌, ℕ, ◌+◌, ◌<◌, ◌≡◌, ◌≢◌, refl, true, List, [], ◌∷◌, Bytes, Option, none, some,
  Result, ok, err, codes, arith, length, same_bytes, if◌then◌else◌,
}
use spark_server.Firmware.Models.{
  completed, not_found, FlashTarget, FlashRequest, FlashJob, OtaChunk, queued, transport,
}
use spark_server.Firmware.Effects.{M, Env, World, Transport, find_job}
use spark_server.Firmware.Job.{contains, unique_valid_chunk_indexes}
use spark_server.Firmware.Job.Missed.{IsDistinct, unique_valid_chunk_indexes-IsDistinct}
use spark_server.Firmware.Job.Progress.{IsConsistent}
use spark_server.Firmware.Manifest.{chunk_of, build_chunk_manifest, read_chunk_data}
use spark_server.Firmware.Manifest.Cuts.{Fresh, Cuts, joined, build_chunk_manifest-Cuts}
use spark_server.Firmware.Manifest.Read.{IsRead, read_chunk_data-IsRead}
use spark_server.Firmware.Reliable.{IsReliable, Returns, Untouched, Stored}
use spark_server.Firmware.Ota.{
  start_device_flash, fail_on, mark_flash_chunk_transferred, pump_flash_job,
}
use spark_server.Firmware.Ota.Reliable.{
  over, fail_on-failed, mark_flash_chunk_transferred-IsConsistent, mark_flash_chunk_transferred_new,
}
use spark_server.Firmware.Job.Marking.{IsLast, RunsOn}
use spark_server.Firmware.Ota.Started.{sent_parts, IsAccepting, OnItsWay, IsDone}
use spark_server.Firmware.Ota.Start.{bytes_of, start_device_flash-joined}
use spark_server.Firmware.Ota.Pump.{pump_flash_job-IsDone}

abbrev pub hash : Bytes → Bytes
hash bytes = bytes

abbrev pub binary : Bytes
binary = codes "spark"

abbrev accept : ℕ → FlashJob → Option Bytes
accept n job = none

abbrev pub device : Transport
device = record {
  begin_flash = accept;
  send_flash_chunk = λ n job part bytes. none;
  complete_flash = some accept;
}

abbrev disk : Bytes → Result Bytes Bytes
disk path = if same_bytes path (codes "fw.bin") then ok binary else err (codes "no such file")

abbrev pub env : Env
env = record {
  has_store = true;
  flash_transport = some device;
  chunk_size = 2;
  clock = λ n. 100 + n;
  new_id = λ n. n ∷ [];
  store_fault = λ n. none;
  cancelled = λ n. none;
  read_file = disk;
  sha256_hex = hash;
}

abbrev pub parts : List OtaChunk
parts =
    record (chunk_of hash 2 0 0 (codes "sp")) { transferred = true }
    ∷ chunk_of hash 2 1 2 (codes "ar")
    ∷ chunk_of hash 2 2 4 (codes "k")
    ∷ []

abbrev pub job : FlashJob
job = record {
  id = codes "job";
  device_id = codes "device";
  product_id = codes "product";
  firmware_id = codes "firmware";
  firmware_version = pos 3;
  binary_path = codes "fw.bin";
  size = 5;
  sha256 = codes "spark";
  chunk_size = 2;
  chunk_count = 3;
  transferred = 1;
  chunks = parts;
  status = queued;
  progress = 33;
  error = [];
  created_at = 7;
  updated_at = 8;
  started_at = none;
  completed_at = none;
}

abbrev pub world : World
world = record { jobs = job ∷ []; events = []; wire = []; calls = 0 }

pub env-IsReliable : IsReliable env
env-IsReliable = record { has_store = refl; no_fault = λ n. refl; not_cancelled = λ n. refl }

pub device-IsAccepting : IsAccepting device
device-IsAccepting = record { chunks = λ n job part bytes. refl; completion = λ n job. refl }

job-IsConsistent : IsConsistent job
job-IsConsistent = record {
  count = refl;
  some_chunk = omega arith;
  indexed = (refl, (refl, (refl, tt)));
  marked = refl;
  percent = omega arith;
  finished = λ e. cc;
}

job-found : find_job job.id world.jobs ≡ some job
job-found = refl

pub some_id : job.id ≢ []
some_id e = cc

pub parts-Cuts : Cuts hash binary 0 0 parts
parts-Cuts = (
  refl,
  refl,
  omega arith,
  omega arith,
  refl,
  (refl, refl, omega arith, omega arith, refl, (refl, refl, omega arith, omega arith, refl, refl)),
)

job-OnItsWay : OnItsWay env binary job world
job-OnItsWay = record {
  some_id = some_id;
  found = job-found;
  consistent = job-IsConsistent;
  active = refl;
  readable = refl;
  cut = parts-Cuts;
}

pump_flash_job-IsDone_example :
    Returns (pump_flash_job env 4 job.id) world (IsDone env binary job world)
pump_flash_job-IsDone_example =
    pump_flash_job-IsDone env device env-IsReliable refl device-IsAccepting binary 4 job world
      job-OnItsWay (omega arith)

build_chunk_manifest-Cuts_example :
    Returns (build_chunk_manifest env (codes "fw.bin")) world (λ chunks v.
      Cuts env.sha256_hex binary 0 0 chunks
      × (joined binary chunks ≡ binary)
      × Fresh 2 chunks
      × (0 < length chunks)
      × Untouched world v)
build_chunk_manifest-Cuts_example =
    build_chunk_manifest-Cuts env (codes "fw.bin") binary world env-IsReliable refl (omega arith)

abbrev part : OtaChunk
part = chunk_of hash 2 1 2 (codes "ar")

read_chunk_data-IsRead_example :
    (((part.size ≡ 0)
        × ((read_chunk_data env (codes "fw.bin") part world).0
            ≡ err (record { cause = not_found; job = none })))
      ⊎ ((0 < part.size)
          × IsRead env.sha256_hex
              (env.read_file (codes "fw.bin"))
              part
              (read_chunk_data env (codes "fw.bin") part world).0))
    × Untouched world (read_chunk_data env (codes "fw.bin") part world).1
read_chunk_data-IsRead_example =
    read_chunk_data-IsRead env (codes "fw.bin") part world env-IsReliable

fail_on-failed_example :
    (time : ℕ) × (v : World) × (fail_on env job (some (codes "gone")) world ≡ (
      err (record { cause = transport (codes "gone"); job = some (over time (codes "gone") job) }),
      v,
    ))
    × Stored (over time (codes "gone") job) world v
fail_on-failed_example = fail_on-failed env env-IsReliable job (codes "gone") world

mark_flash_chunk_transferred-IsConsistent_example :
    Returns
      (mark_flash_chunk_transferred env job.id 2)
      world
      (λ a v. IsConsistent a × Stored a world v)
mark_flash_chunk_transferred-IsConsistent_example =
    mark_flash_chunk_transferred-IsConsistent env env-IsReliable 2 job world some_id job-found
      (omega arith) job-IsConsistent

mark_flash_chunk_transferred_new_example :
    Returns
      (mark_flash_chunk_transferred env job.id 2)
      world
      (λ a v. (IsLast 2 job a ⊎ RunsOn 2 job a) × Stored a world v)
mark_flash_chunk_transferred_new_example =
    mark_flash_chunk_transferred_new env env-IsReliable 2 job world some_id job-found (omega arith)
      job-IsConsistent refl refl

abbrev target : FlashTarget
target = record {
  id = codes "firmware";
  product_id = codes "product";
  version = pos 3;
  size = 5;
  sha256 = codes "spark";
  binary_path = codes "fw.bin";
}

abbrev request : FlashRequest
request = record {
  device_id = codes "device";
  product_id = codes "product";
  firmware_id = codes "firmware";
}

abbrev select_firmware : FlashRequest → M FlashTarget
select_firmware asked w = (ok target, w)

new_id-fresh : (n : ℕ) → find_job (env.new_id n) world.jobs ≡ none
new_id-fresh n = ground arith

start_device_flash-joined_example :
    Returns (start_device_flash env select_firmware request) world (λ a v.
      (a.status ≡ completed)
      × IsConsistent a
      × (find_job a.id v.jobs ≡ some a)
      × (bytes_of (sent_parts v.wire) ≡ bytes_of (sent_parts world.wire) ++ binary))
start_device_flash-joined_example =
    start_device_flash-joined env device env-IsReliable refl device-IsAccepting (λ n job. refl)
      binary select_firmware request target world world (λ e. cc) (λ e. cc) refl (λ e. cc) refl
      (omega arith) (λ n e. cc) new_id-fresh

unique_valid_chunk_indexes-IsDistinct_example :
    IsDistinct (unique_valid_chunk_indexes (2 ∷ 7 ∷ 2 ∷ 0 ∷ []) 3)
    × (contains 7 (unique_valid_chunk_indexes (2 ∷ 7 ∷ 2 ∷ 0 ∷ []) 3)
        ≡ (contains 7 (2 ∷ 7 ∷ 2 ∷ 0 ∷ []) && ltb 7 3))
unique_valid_chunk_indexes-IsDistinct_example =
    unique_valid_chunk_indexes-IsDistinct (2 ∷ 7 ∷ 2 ∷ 0 ∷ []) 3 7
