-- ===== src/Firmware/Job.antt =====
-- The transitions of one job in internal/firmware/ota.go, without their store and events.
pub mod Progress
pub mod Marking
pub mod Missed
use spark_server.Base.{
  ℕ, zero, suc, ◌+◌, ◌*◌, ◌/◌, Bool, true, false, ◌&&◌, not, List, [], ◌∷◌, ◌++◌, Bytes, Option,
  none, some, get_elem?, set, length, ltb, leb, ◌==◌, if◌then◌else◌,
}
use spark_server.Firmware.Models.{
  FlashStatus, queued, running, completed, failed, OtaChunk, FlashJob,
}

-- `progressFor`; its test for a negative value cannot hold of numbers.
unfoldable pub progress_for : FlashJob → ℕ
progress_for job =
    if job.chunk_count == 0
    then 0
    else let progress = job.transferred * 100 / job.chunk_count in
      if ltb 100 progress then 100 else progress

abbrev pub is_queued : FlashStatus → Bool
is_queued queued = true
is_queued _ = false

abbrev pub is_completed : FlashStatus → Bool
is_completed completed = true
is_completed _ = false

-- `job.Status == FlashStatusRunning || job.Status == FlashStatusQueued`.
abbrev pub is_active : FlashStatus → Bool
is_active queued = true
is_active running = true
is_active _ = false

-- `job.Status == FlashStatusCompleted || job.Status == FlashStatusFailed`.
abbrev pub is_over : FlashStatus → Bool
is_over completed = true
is_over failed = true
is_over _ = false

abbrev pub or_now : Option ℕ → ℕ → Option ℕ
or_now none now = some now
or_now (some t) now = some t

-- What `markFlashJobRunning` assigns.
unfoldable pub run_job : ℕ → FlashJob → FlashJob
run_job now job = record job {
  status = running;
  error = [];
  progress = progress_for job;
  updated_at = now;
  started_at = some now;
}

-- What `failFlashJob` assigns.
unfoldable pub fail_job : ℕ → Bytes → FlashJob → FlashJob
fail_job now message job = record job {
  status = failed;
  error = message;
  updated_at = now;
  completed_at = some now;
}

abbrev pub mark_all : List OtaChunk → List OtaChunk
mark_all [] = []
mark_all (chunk ∷ chunks) = record chunk { transferred = true } ∷ mark_all chunks

-- What `completeFlashJob` assigns.
unfoldable pub complete_job : ℕ → FlashJob → FlashJob
complete_job now job = record job {
  chunks = mark_all job.chunks;
  transferred = job.chunk_count;
  status = completed;
  progress = 100;
  error = [];
  updated_at = now;
  completed_at = some now;
  started_at = or_now job.started_at now;
}

-- The two assignments of `MarkFlashChunkTransferred` to a job with that chunk: a queued job runs,
-- and a chunk that was not transferred is counted.
unfoldable pub start_queued : ℕ → FlashJob → FlashJob
start_queued now job =
    if is_queued job.status then record job { status = running; started_at = some now } else job

abbrev pub mark_chunk : List OtaChunk → ℕ → List OtaChunk
mark_chunk [] index = []
mark_chunk (chunk ∷ chunks) zero = record chunk { transferred = true } ∷ chunks
mark_chunk (chunk ∷ chunks) (suc index) = chunk ∷ mark_chunk chunks index

abbrev pub was_transferred : List OtaChunk → ℕ → Bool
was_transferred [] index = false
was_transferred (chunk ∷ chunks) zero = chunk.transferred
was_transferred (chunk ∷ chunks) (suc index) = was_transferred chunks index

unfoldable pub transfer_chunk : ℕ → FlashJob → FlashJob
transfer_chunk index job =
    if was_transferred job.chunks index
    then job
    else record job { chunks = mark_chunk job.chunks index; transferred = job.transferred + 1 }

-- `job.Transferred >= job.ChunkCount && job.ChunkCount > 0`.
abbrev pub all_transferred : FlashJob → Bool
all_transferred job = leb job.chunk_count job.transferred && ltb 0 job.chunk_count

-- `uniqueValidChunkIndexes`; `valid` also serves as the set `seen`, which has the same elements.
unfoldable pub contains : ℕ → List ℕ → Bool
contains index [] = false
contains index (i ∷ is) = if i == index then true else contains index is

unfoldable pub unique_valid_from : List ℕ → List ℕ → ℕ → List ℕ
unique_valid_from valid [] chunk_count = valid
unique_valid_from valid (index ∷ indexes) chunk_count =
    unique_valid_from
      (if leb chunk_count index
        then valid
        else if contains index valid
        then valid
        else valid ++ index ∷ [])
      indexes chunk_count

unfoldable pub unique_valid_chunk_indexes : List ℕ → ℕ → List ℕ
unique_valid_chunk_indexes indexes chunk_count = unique_valid_from [] indexes chunk_count
