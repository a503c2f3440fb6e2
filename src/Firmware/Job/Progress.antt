-- ===== src/Firmware/Job/Progress.antt =====
-- The invariant of a job and what the transitions of ota.go do to it.
use native.Mathlib.Nat.{div-add-mod, mod-lt}
use spark_server.Base.{
  sym, ◌↔◌, ℕ, zero, suc, ◌+◌, ◌*◌, ◌/◌, ◌≤◌, ◌<◌, ◌≡◌, inl, inr, refl, ap, ◌∙◌, false, List, [],
  ◌∷◌, Bytes, length, if◌then◌else◌, arith, Bool-cases,
}
use spark_server.Firmware.Models.{completed, OtaChunk, FlashJob}
use spark_server.Firmware.Job.{
  progress_for, run_job, fail_job, complete_job, mark_all, mark_chunk, was_transferred,
  start_queued, transfer_chunk, is_queued,
}

-- The chunks that are marked.
abbrev pub count_marked : List OtaChunk → ℕ
count_marked [] = 0
count_marked (chunk ∷ chunks) = (if chunk.transferred then 1 else 0) + count_marked chunks

-- Each chunk has its position for an index.
abbrev pub Indexed : ℕ → List OtaChunk → Type 0
Indexed from [] = Unit
Indexed from (chunk ∷ chunks) = (chunk.index ≡ from) × Indexed (from + 1) chunks

pub record IsConsistent (job : FlashJob) : Type 0 where
  pub count : job.chunk_count ≡ length job.chunks
  pub some_chunk : 0 < job.chunk_count
  pub indexed : Indexed 0 job.chunks
  pub marked : job.transferred ≡ count_marked job.chunks
  pub percent : job.progress ≤ 100
  pub finished : job.status ≡ completed → job.transferred ≡ job.chunk_count

pub count_marked-le-length : (chunks : List OtaChunk) → count_marked chunks ≤ length chunks
count_marked-le-length [] = omega arith
count_marked-le-length (chunk ∷ chunks) = ground (arith, count_marked-le-length chunks)

length-mark_all : (chunks : List OtaChunk) → length (mark_all chunks) ≡ length chunks
length-mark_all [] = refl
length-mark_all (chunk ∷ chunks) = ap suc (length-mark_all chunks)

count_marked-mark_all : (chunks : List OtaChunk) → count_marked (mark_all chunks) ≡ length chunks
count_marked-mark_all [] = refl
count_marked-mark_all (chunk ∷ chunks) = omega (arith, count_marked-mark_all chunks)

Indexed-mark_all :
    (from : ℕ) (chunks : List OtaChunk) → Indexed from chunks → Indexed from (mark_all chunks)
Indexed-mark_all from [] h = tt
Indexed-mark_all from (chunk ∷ chunks) h = (h.0, Indexed-mark_all (from + 1) chunks h.1)

pub length-mark_chunk :
    (chunks : List OtaChunk) (i : ℕ) → length (mark_chunk chunks i) ≡ length chunks
length-mark_chunk [] i = refl
length-mark_chunk (chunk ∷ chunks) zero = refl
length-mark_chunk (chunk ∷ chunks) (suc i) = ap suc (length-mark_chunk chunks i)

Indexed-mark_chunk :
    (from : ℕ) (chunks : List OtaChunk) (i : ℕ)
    → Indexed from chunks
    → Indexed from (mark_chunk chunks i)
Indexed-mark_chunk from [] i h = tt
Indexed-mark_chunk from (chunk ∷ chunks) zero h = h
Indexed-mark_chunk from (chunk ∷ chunks) (suc i) h =
    (h.0, Indexed-mark_chunk (from + 1) chunks i h.1)

pub count_marked-mark_chunk :
    (chunks : List OtaChunk) (i : ℕ)
    → i < length chunks
    → was_transferred chunks i ≡ false
    → count_marked (mark_chunk chunks i) ≡ count_marked chunks + 1
count_marked-mark_chunk [] i h e = absurd (omega arith)
count_marked-mark_chunk (chunk ∷ chunks) zero h e = rw e (omega arith)
count_marked-mark_chunk (chunk ∷ chunks) (suc i) h e =
    omega (arith, count_marked-mark_chunk chunks i (omega arith) e)

percent_le : (t n : ℕ) → 0 < n → t ≤ n → t * 100 / n ≤ 100
percent_le t n h le = grind (arith, div-add-mod (t * 100) n, mod-lt (t * 100) h)

percent_full : (t n : ℕ) → 0 < n → t ≤ n → t * 100 / n ≡ 100 → t ≡ n
percent_full t n h le e = grind (arith, div-add-mod (t * 100) n, mod-lt (t * 100) h)

full_percent : (n : ℕ) → 0 < n → n * 100 / n ≡ 100
full_percent n h = grind (arith, div-add-mod (n * 100) n, mod-lt (n * 100) h)

-- The reported progress is a percentage, and 100 exactly when every chunk is transferred.
pub progress_for-eq-hundred :
    (job : FlashJob)
    → 0 < job.chunk_count
    → job.transferred ≤ job.chunk_count
    → (progress_for job ≤ 100) × ((progress_for job ≡ 100) ↔ (job.transferred ≡ job.chunk_count))
unfolding progress_for
progress_for-eq-hundred job h le =
    let le_hundred = percent_le job.transferred job.chunk_count h le in
    (
      ground arith,
      (
        λ e. percent_full job.transferred job.chunk_count h le (ground (arith, le_hundred)),
        λ e. ground (arith, full_percent job.chunk_count h, ap (λ t. t * 100 / job.chunk_count) e),
      ),
    )

pub progress_for-le : (job : FlashJob) → progress_for job ≤ 100
unfolding progress_for
progress_for-le job = ground arith

pub run_job-IsConsistent :
    (now : ℕ) (job : FlashJob) → IsConsistent job → IsConsistent (run_job now job)
unfolding run_job
run_job-IsConsistent now job c = record {
  count = c.count;
  some_chunk = c.some_chunk;
  indexed = c.indexed;
  marked = c.marked;
  percent = progress_for-le job;
  finished = λ e. cc;
}

pub fail_job-IsConsistent :
    (now : ℕ) (message : Bytes) (job : FlashJob)
    → IsConsistent job
    → IsConsistent (fail_job now message job)
unfolding fail_job
fail_job-IsConsistent now message job c = record {
  count = c.count;
  some_chunk = c.some_chunk;
  indexed = c.indexed;
  marked = c.marked;
  percent = c.percent;
  finished = λ e. cc;
}

pub complete_job-IsConsistent :
    (now : ℕ) (job : FlashJob) → IsConsistent job → IsConsistent (complete_job now job)
unfolding complete_job
complete_job-IsConsistent now job c = record {
  count = c.count ∙ sym (length-mark_all job.chunks);
  some_chunk = c.some_chunk;
  indexed = Indexed-mark_all 0 job.chunks c.indexed;
  marked = c.count ∙ sym (count_marked-mark_all job.chunks);
  percent = omega arith;
  finished = λ e. refl;
}

pub start_queued-IsConsistent :
    (now : ℕ) (job : FlashJob) → IsConsistent job → IsConsistent (start_queued now job)
unfolding start_queued
start_queued-IsConsistent now job c = elim (Bool-cases (is_queued job.status)) [
  | inl q ↦ rw q (record {
    count = c.count;
    some_chunk = c.some_chunk;
    indexed = c.indexed;
    marked = c.marked;
    percent = c.percent;
    finished = λ e. cc;
  })
  | inr q ↦ rw q c
]

pub transfer_chunk-IsConsistent :
    (i : ℕ) (job : FlashJob)
    → i < length job.chunks
    → IsConsistent job
    → IsConsistent (transfer_chunk i job)
unfolding transfer_chunk
transfer_chunk-IsConsistent i job h c = elim (Bool-cases (was_transferred job.chunks i)) [
  | inl old ↦ rw old c
  | inr new ↦
      let counted = count_marked-mark_chunk job.chunks i h new in
      let size = length-mark_chunk job.chunks i in
      let bound = count_marked-le-length (mark_chunk job.chunks i) in
      rw new (record {
        count = c.count ∙ sym size;
        some_chunk = c.some_chunk;
        indexed = Indexed-mark_chunk 0 job.chunks i c.indexed;
        marked = ap (λ n. n + 1) c.marked ∙ sym counted;
        percent = c.percent;
        finished =
            λ e. absurd (omega (arith, c.finished e, c.count, c.marked, counted, size, bound));
      })
]
