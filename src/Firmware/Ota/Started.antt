-- ===== src/Firmware/Ota/Started.antt =====
-- Jobs on their way to a device, and the calls of `SendFlashChunk` before and behind its chunk.
use spark_server.Base.{
  sym, ℕ, suc, ◌+◌, ◌≡◌, ◌≢◌, ◌⊎◌, refl, ap, ◌∙◌, true, List, [], ◌∷◌, ◌++◌, Bytes, Option, none,
  some, ok, length, append-nil, Bool-cases, inl, inr, subst,
}
use spark_server.Firmware.Models.{FlashJob, OtaChunk, completed}
use spark_server.Firmware.Effects.{
  Env, World, send, Sent, begin, chunk, complete, Transport, find_job,
}
use spark_server.Firmware.Job.{run_job, is_active, is_queued, is_completed}
use spark_server.Firmware.Job.Progress.{IsConsistent, count_marked, run_job-IsConsistent}
use spark_server.Firmware.Manifest.Cuts.{Cuts}
use spark_server.Firmware.Reliable.{IsReliable, Returns}
use spark_server.Firmware.Ota.{start_if_queued, finish_on_device, complete_device_flash, fail_on}
use spark_server.Firmware.Ota.Reliable.{running_returns, Becomes}
use spark_server.Firmware.Ota.Parts.{pending_parts}

-- The indices and the bytes of the chunks that were put on the wire.
abbrev pub sent_parts : List Sent → List (ℕ × Bytes)
sent_parts [] = []
sent_parts (begin job ∷ wire) = sent_parts wire
sent_parts (chunk job part bytes ∷ wire) = (part.index, bytes) ∷ sent_parts wire
sent_parts (complete job ∷ wire) = sent_parts wire

pub sent_parts-append : (xs ys : List Sent) → sent_parts (xs ++ ys) ≡ sent_parts xs ++ sent_parts ys
sent_parts-append [] ys = refl
sent_parts-append (begin job ∷ xs) ys = sent_parts-append xs ys
sent_parts-append (chunk job part bytes ∷ xs) ys =
    ap (λ l. (part.index, bytes) ∷ l) (sent_parts-append xs ys)
sent_parts-append (complete job ∷ xs) ys = sent_parts-append xs ys

-- The device takes every chunk and the completion, where the transport sends one.
abbrev pub Accepts : Option (ℕ → FlashJob → Option Bytes) → Type 0
Accepts none = Unit
Accepts (some reply) = (n : ℕ) (job : FlashJob) → reply n job ≡ none

pub record IsAccepting (t : Transport) : Type 0 where
  pub chunks :
      (n : ℕ) (job : FlashJob) (part : OtaChunk) (bytes : Bytes)
      → t.send_flash_chunk n job part bytes ≡ none
  pub completion : Accepts t.complete_flash

-- A job on its way: active and in the store, and its chunks cut its binary, which can be read.
pub record OnItsWay (env : Env) (whole : Bytes) (job : FlashJob) (w : World) : Type 0 where
  pub some_id : job.id ≢ []
  pub found : find_job job.id w.jobs ≡ some job
  pub consistent : IsConsistent job
  pub active : is_active job.status ≡ true
  pub readable : env.read_file job.binary_path ≡ ok whole
  pub cut : Cuts env.sha256_hex whole 0 0 job.chunks

-- The job is completed in the store, and what was pending was sent.
pub record IsDone (env : Env) (whole : Bytes) (job : FlashJob) (w : World) (a : FlashJob)
    (v : World) : Type 0 where
  pub status : a.status ≡ completed
  pub consistent : IsConsistent a
  pub found : find_job a.id v.jobs ≡ some a
  pub id : a.id ≡ job.id
  pub wire : sent_parts v.wire ≡ sent_parts w.wire ++ pending_parts whole job.chunks

-- One pending chunk was sent, and the job is still on its way.
pub record GoesOn (env : Env) (whole : Bytes) (job : FlashJob) (w : World) (a : FlashJob)
    (v : World) : Type 0 where
  pub way : OnItsWay env whole a v
  pub id : a.id ≡ job.id
  pub part : ℕ × Bytes
  pub wire : sent_parts v.wire ≡ sent_parts w.wire ++ part ∷ []
  pub pending : pending_parts whole job.chunks ≡ part ∷ pending_parts whole a.chunks
  pub left : length a.chunks ≡ length job.chunks
  pub count : count_marked a.chunks ≡ count_marked job.chunks + 1

abbrev pub Outcome : Env → Bytes → FlashJob → World → FlashJob → World → Type 0
Outcome env whole job w a v = IsDone env whole job w a v ⊎ GoesOn env whole job w a v

module _ (env : Env) (t : Transport) (r : IsReliable env)
    (has_transport : env.flash_transport ≡ some t) (accepting : IsAccepting t) (whole : Bytes) where
  -- What becomes of a job that is marked as running is on its way.
  pub running_way :
      (job : FlashJob) (w : World) (a : FlashJob) (v : World)
      → job.id ≢ []
      → IsConsistent job
      → env.read_file job.binary_path ≡ ok whole
      → Cuts env.sha256_hex whole 0 0 job.chunks
      → Becomes env r (λ time. run_job time job) w a v
      → OnItsWay env whole a v × (a.chunks ≡ job.chunks) × (a.id ≡ job.id)
  unfolding run_job
  running_way job w a v some_id consistent readable cut (time, become, stored) =
      subst (λ (j : FlashJob). OnItsWay env whole j v × (j.chunks ≡ job.chunks) × (j.id ≡ job.id))
        (sym become)
        (
          record {
            some_id = some_id;
            found = subst (λ (j : FlashJob). find_job j.id v.jobs ≡ some j) become stored.found;
            consistent = run_job-IsConsistent time job consistent;
            active = refl;
            readable = readable;
            cut = cut;
          },
          refl,
          refl,
        )

  -- A queued job runs once it is started.
  pub started_returns :
      (job : FlashJob) (w : World)
      → OnItsWay env whole job w
      → Returns (start_if_queued env job) w (λ a v.
        OnItsWay env whole a v × (v.wire ≡ w.wire) × (a.chunks ≡ job.chunks) × (a.id ≡ job.id))
  unfolding start_if_queued
  started_returns job w way = elim (Bool-cases (is_queued job.status)) [
    | inl q ↦
        let (a, v, e, become) = running_returns env r job w in
        let (runs, chunks, id) =
          running_way job w a v way.some_id way.consistent way.readable way.cut become in
        (a, v, rw q e, (runs, become.2.wire, chunks, id))
    | inr q ↦ (job, w, rw q, (way, refl, refl, refl))
  ]

  -- The completion reaches the device and changes nothing else.
  completion_returns :
      (reply : Option (ℕ → FlashJob → Option Bytes)) (job : FlashJob) (w : World)
      → Accepts reply
      → Returns
          (complete_device_flash env reply job)
          w
          (λ a v. (a ≡ none) × (v.jobs ≡ w.jobs) × (sent_parts v.wire ≡ sent_parts w.wire))
  unfolding complete_device_flash send
  completion_returns none job w h = (none, w, refl, (refl, refl, refl))
  completion_returns (some reply) job w h = (
    none,
    record w { calls = suc w.calls; wire = w.wire ++ complete job ∷ [] },
    rw (h w.calls job) refl,
    (refl, refl, sent_parts-append w.wire (complete job ∷ []) ∙ append-nil (sent_parts w.wire)),
  )

  pub finished_returns :
      (job : FlashJob) (w : World)
      → Returns
          (finish_on_device env t job)
          w
          (λ a v. (a ≡ job) × (v.jobs ≡ w.jobs) × (sent_parts v.wire ≡ sent_parts w.wire))
  unfolding finish_on_device fail_on
  finished_returns job w = elim (Bool-cases (is_completed job.status)) [
    | inl c ↦
        let (a, v, e, h) = completion_returns t.complete_flash job w accepting.completion in
        (job, v, rw (c, e, h.0) refl, (refl, h.1, h.2))
    | inr c ↦ (job, w, rw c, (refl, refl, refl))
  ]
