-- ===== src/Firmware/Job/Marking.antt =====
-- What `MarkFlashChunkTransferred` makes of a job.
use spark_server.Base.{
  ℕ, ◌+◌, ◌<◌, ◌≡◌, ◌⊎◌, inl, inr, refl, ap, ◌∙◌, true, false, length, if◌then◌else◌, arith,
  Bool-cases,
}
use spark_server.Firmware.Models.{completed, FlashJob}
use spark_server.Firmware.Job.{
  progress_for, complete_job, mark_chunk, was_transferred, start_queued, transfer_chunk,
  all_transferred, is_queued, is_active,
}
use spark_server.Firmware.Job.Progress.{
  IsConsistent, count_marked, count_marked-mark_chunk, count_marked-le-length,
  start_queued-IsConsistent, transfer_chunk-IsConsistent, complete_job-IsConsistent,
  length-mark_chunk, progress_for-le,
}

-- What `MarkFlashChunkTransferred` makes of a job, by the times of its two calls of the clock.
abbrev pub after_chunk : ℕ → ℕ → ℕ → FlashJob → FlashJob
after_chunk index start time job =
    let marked = transfer_chunk index (start_queued start job) in
    if all_transferred marked
    then complete_job time marked
    else record marked { progress = progress_for marked; updated_at = time }

start_queued-chunks : (start : ℕ) (job : FlashJob) → (start_queued start job).chunks ≡ job.chunks
unfolding start_queued
start_queued-chunks start job = elim (Bool-cases (is_queued job.status)) [
  | inl q ↦ rw q
  | inr q ↦ rw q
]

updated-IsConsistent :
    (time : ℕ) (job : FlashJob)
    → IsConsistent job
    → IsConsistent (record job { progress = progress_for job; updated_at = time })
updated-IsConsistent time job c = record {
  count = c.count;
  some_chunk = c.some_chunk;
  indexed = c.indexed;
  marked = c.marked;
  percent = progress_for-le job;
  finished = c.finished;
}

pub after_chunk-IsConsistent :
    (index start time : ℕ) (job : FlashJob)
    → index < length job.chunks
    → IsConsistent job
    → IsConsistent (after_chunk index start time job)
after_chunk-IsConsistent index start time job h c =
    let marked = transfer_chunk index (start_queued start job) in
    let started = start_queued-IsConsistent start job c in
    let within : index < length (start_queued start job).chunks =
      rw (start_queued-chunks start job) h in
    let m = transfer_chunk-IsConsistent index (start_queued start job) within started in
    elim (Bool-cases (all_transferred marked)) [
      | inl full ↦ rw full (complete_job-IsConsistent time marked m)
      | inr more ↦ rw more (updated-IsConsistent time marked m)
    ]

-- What a transition keeps of a job.
pub record Keeps (job a : FlashJob) : Type 0 where
  pub id : a.id ≡ job.id
  pub binary_path : a.binary_path ≡ job.binary_path

-- A job with one chunk more.
record HasMore (index : ℕ) (job a : FlashJob) : Type 0 where
  keeps : Keeps job a
  chunks : a.chunks ≡ mark_chunk job.chunks index
  transferred : a.transferred ≡ job.transferred + 1
  chunk_count : a.chunk_count ≡ job.chunk_count
  status : is_active a.status ≡ true

-- What becomes of the job when the chunk was not transferred before: it was the last one and the job
-- is completed, or the job runs on with the chunk marked.
pub record IsLast (index : ℕ) (job a : FlashJob) : Type 0 where
  pub keeps : Keeps job a
  pub status : a.status ≡ completed
  pub full : count_marked (mark_chunk job.chunks index) ≡ length (mark_chunk job.chunks index)

pub record RunsOn (index : ℕ) (job a : FlashJob) : Type 0 where
  pub keeps : Keeps job a
  pub chunks : a.chunks ≡ mark_chunk job.chunks index
  pub status : is_active a.status ≡ true
  pub left : count_marked job.chunks + 1 < length job.chunks
  pub count : count_marked a.chunks ≡ count_marked job.chunks + 1

marked-HasMore :
    (index start : ℕ) (job : FlashJob)
    → is_active job.status ≡ true
    → was_transferred job.chunks index ≡ false
    → HasMore index job (transfer_chunk index (start_queued start job))
unfolding start_queued transfer_chunk
marked-HasMore index start job active unsent = elim (Bool-cases (is_queued job.status)) [
  | inl q ↦
      rw (q, unsent)
        (record {
          keeps = record { id = refl; binary_path = refl };
          chunks = refl;
          transferred = refl;
          chunk_count = refl;
          status = refl;
        })
  | inr q ↦
      rw (q, unsent)
        (record {
          keeps = record { id = refl; binary_path = refl };
          chunks = refl;
          transferred = refl;
          chunk_count = refl;
          status = active;
        })
]

pub after_chunk-cases :
    (index start time : ℕ) (job : FlashJob)
    → index < length job.chunks
    → IsConsistent job
    → is_active job.status ≡ true
    → was_transferred job.chunks index ≡ false
    → IsLast index job (after_chunk index start time job)
      ⊎ RunsOn index job (after_chunk index start time job)
unfolding complete_job
after_chunk-cases index start time job h c active unsent =
    let marked = transfer_chunk index (start_queued start job) in
    let m = marked-HasMore index start job active unsent in
    let counted = count_marked-mark_chunk job.chunks index h unsent in
    let size = length-mark_chunk job.chunks index in
    elim (Bool-cases (all_transferred marked)) [
      | inl full ↦ inl (
          rw full (record {
            keeps = record { id = m.keeps.id; binary_path = m.keeps.binary_path };
            status = refl;
            full = ground (
              arith,
              count_marked-le-length (mark_chunk job.chunks index),
              counted,
              size,
              m.transferred,
              m.chunk_count,
              c.marked,
              c.count,
            );
          }))
      | inr more ↦ inr (
          rw more (record {
            keeps = record { id = m.keeps.id; binary_path = m.keeps.binary_path };
            chunks = m.chunks;
            status = m.status;
            left = ground (arith, m.transferred, m.chunk_count, c.marked, c.count, c.some_chunk);
            count = ap count_marked m.chunks ∙ counted;
          }))
    ]
