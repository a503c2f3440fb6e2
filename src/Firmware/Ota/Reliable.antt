-- ===== src/Firmware/Ota/Reliable.antt =====
-- Operations of ota.go over a store that answers, as triples.
use spark_server.Base.{
  true, ◌⊎◌, subst, err, ℕ, suc, ◌<◌, ◌≡◌, ◌≢◌, refl, sym, ap, ◌∙◌, false, [], Bytes, same_bytes,
  same_bytes_iff, some, ok, if◌then◌else◌, arith, leb, length, Bool-cases, inl, inr, codes,
}
use spark_server.Firmware.Models.{failed, transport, FlashJob, not_found}
use spark_server.Firmware.Effects.{
  Env, World, ◌>>=◌, ◌>>◌, pure, refuse_when, now, save, store_get, publish, find_job,
}
use spark_server.Firmware.Job.{
  is_queued, is_active, was_transferred, run_job, fail_job, complete_job, start_queued,
  transfer_chunk, all_transferred, progress_for,
}
use spark_server.Firmware.Job.Progress.{IsConsistent}
use spark_server.Firmware.Job.Marking.{
  after_chunk-cases, IsLast, RunsOn, after_chunk, after_chunk-IsConsistent,
}
use spark_server.Firmware.Ota.{
  start_marked, fail_on, get_flash_job_by_id, mark_flash_job_running, fail_flash_job,
  complete_flash_job, record_chunk, mark_flash_chunk_transferred,
}
use spark_server.Firmware.Reliable.{
  IsReliable, Returns, Returns-bind, Untouched, Stored, now_returns, publish_returns, save_returns,
}

-- A job that has failed at a time, with a text.
abbrev pub over : ℕ → Bytes → FlashJob → FlashJob
over time text job = record job {
  status = failed;
  error = text;
  updated_at = time;
  completed_at = some time;
}

module _ (env : Env) (r : IsReliable env) where
  pub get_returns :
      (id : Bytes) (job : FlashJob) (w : World)
      → id ≢ []
      → find_job id w.jobs ≡ some job
      → Returns (get_flash_job_by_id env id) w (λ a v. (a ≡ job) × Untouched w v)
  unfolding get_flash_job_by_id store_get
  get_returns id job w some_id found =
      let named : same_bytes id [] ≡ false = ground (arith, (same_bytes_iff id []).0) in
      (
        job,
        record w { calls = suc w.calls },
        rw (named, r.has_store, r.no_fault w.calls, found),
        (refl, record { jobs = refl; wire = refl }),
      )

  -- A job is saved and published.
  store_and_publish :
      (phase : Bytes) (job : FlashJob) (w u : World)
      → Untouched w u
      → Returns
          (do save env job; publish env phase job; pure job)
          u
          (λ a v. (a ≡ job) × Stored job w v)
  store_and_publish phase job w u same =
      Returns-bind (save env job) (λ _. publish env phase job >> pure job) u (λ _ v. Stored job u v)
        (λ a v. (a ≡ job) × Stored job w v) (save_returns env r job u)
        (λ _ v stored.
          Returns-bind (publish env phase job) (λ _. pure job) v (λ _ x. Untouched v x)
            (λ a x. (a ≡ job) × Stored job w x) (publish_returns env r phase job v)
            (λ _ x kept. (
              job,
              x,
              refl,
              (
                refl,
                record {
                  found = rw kept.jobs stored.found;
                  wire = kept.wire ∙ stored.wire ∙ same.wire;
                },
              ),
            )))

  -- What a transition `f` makes of a job at the time of the call is stored and returned.
  abbrev pub Becomes : (ℕ → FlashJob) → World → FlashJob → World → Type 0
  Becomes f w job v = (time : ℕ) × (job ≡ f time) × Stored job w v

  becomes :
      (phase : Bytes) (f : ℕ → FlashJob) (w : World)
      → Returns
          (do time ← now env; save env (f time); publish env phase (f time); pure (f time))
          w
          (Becomes f w)
  becomes phase f w =
      Returns-bind (now env)
        (λ time. do save env (f time); publish env phase (f time); pure (f time)) w
        (λ _ v. Untouched w v) (Becomes f w) (now_returns env r w)
        (λ time v same.
          let (a, x, e, h) = store_and_publish phase (f time) w v same in
          (f time, x, e ∙ ap (λ (j : FlashJob). (ok j, x)) h.0, (time, refl, h.1)))

  pub running_returns :
      (job : FlashJob) (w : World)
      → Returns (mark_flash_job_running env job) w (Becomes (λ t. run_job t job) w)
  unfolding mark_flash_job_running
  running_returns job w = becomes (codes "running") (λ t. run_job t job) w

  pub complete_returns :
      (job : FlashJob) (w : World)
      → Returns (complete_flash_job env job) w (Becomes (λ t. complete_job t job) w)
  unfolding complete_flash_job
  complete_returns job w = becomes (codes "completed") (λ t. complete_job t job) w

  pub fail_returns :
      (job : FlashJob) (message : Bytes) (w : World)
      → Returns (fail_flash_job env job message) w (Becomes (λ t. fail_job t message job) w)
  unfolding fail_flash_job
  fail_returns job message w = becomes (codes "failed") (λ t. fail_job t message job) w

  pub record_returns :
      (job : FlashJob) (w : World)
      → Returns
          (record_chunk env job)
          w
          (Becomes (λ t. record job { progress = progress_for job; updated_at = t }) w)
  unfolding record_chunk
  record_returns job w =
      becomes (codes "chunk") (λ t. record job { progress = progress_for job; updated_at = t }) w

  abbrev pub Marks : ℕ → FlashJob → World → FlashJob → World → Type 0
  Marks index job w a v =
      (start : ℕ) × (time : ℕ) × (a ≡ after_chunk index start time job) × Stored a w v

  settle_returns :
      (index start : ℕ) (job : FlashJob) (w u : World)
      → u.wire ≡ w.wire
      → let marked = transfer_chunk index (start_queued start job) in
        Returns
          (if all_transferred marked
            then complete_flash_job env marked
            else record_chunk env marked)
          u
          (Marks index job w)
  settle_returns index start job w u same =
      let marked = transfer_chunk index (start_queued start job) in
      elim (Bool-cases (all_transferred marked)) [
        | inl full ↦
            let (a, v, e, h) = complete_returns marked u in
            (
              a,
              v,
              rw full e,
              (
                start,
                h.0,
                h.1 ∙ sym (rw full),
                record { found = h.2.found; wire = h.2.wire ∙ same },
              ),
            )
        | inr more ↦
            let (a, v, e, h) = record_returns marked u in
            (
              a,
              v,
              rw more e,
              (
                start,
                h.0,
                h.1 ∙ sym (rw more),
                record { found = h.2.found; wire = h.2.wire ∙ same },
              ),
            )
      ]

  start_returns :
      (job : FlashJob) (w : World)
      → Returns
          (start_marked env job)
          w
          (λ a v. (start : ℕ) × (a ≡ start_queued start job) × (v.wire ≡ w.wire))
  unfolding start_marked start_queued
  start_returns job w = elim (Bool-cases (is_queued job.status)) [
    | inl q ↦
        let (time, v, e, same) = now_returns env r w in
        (start_queued time job, v, rw (q, e) refl, (time, refl, same.wire))
    | inr q ↦ (job, w, rw q, (0, rw q refl, refl))
  ]

  pub marked_returns :
      (id : Bytes) (index : ℕ) (job : FlashJob) (w : World)
      → id ≢ []
      → find_job id w.jobs ≡ some job
      → index < length job.chunks
      → Returns (mark_flash_chunk_transferred env id index) w (Marks index job w)
  unfolding mark_flash_chunk_transferred
  marked_returns id index job w some_id found within =
      let inside : leb (length job.chunks) index ≡ false = ground arith in
      let rest = λ (loaded : FlashJob). (do
        refuse_when (leb (length loaded.chunks) index) not_found
        started ← start_marked env loaded
        let marked = transfer_chunk index started
        if all_transferred marked
            then complete_flash_job env marked
            else record_chunk env marked) in
      Returns-bind (get_flash_job_by_id env id) rest w (λ a v. (a ≡ job) × Untouched w v)
        (Marks index job w) (get_returns id job w some_id found)
        (λ a v h.
          let (started, u, e, (start, is_started, wire)) = start_returns job v in
          let (b, x, e', marks) = settle_returns index start job w u (wire ∙ h.1.wire) in
          (b, x, rw (h.0, inside, e, is_started) e', marks))

  -- On a call of the transport that the device refuses, over a store that answers, the job is stored
  -- as failed with the error's text, the same time as that of its last change and of its end, and each
  -- other field as it was; both that job and the transport's error are returned, and nothing is sent.
  pub fail_on-failed :
      (job : FlashJob) (text : Bytes) (w : World)
      → (time : ℕ) × (v : World) × (fail_on env job (some text) w
          ≡ (err (record { cause = transport text; job = some (over time text job) }), v))
        × Stored (over time text job) w v
  unfolding fail_on fail_job
  fail_on-failed job text w =
      let (a, v, e, (time, become, stored)) = fail_returns job text w in
      (time, v, rw (e, become) refl, subst (λ j. Stored j w v) become stored)

  -- Marking a chunk of a stored job that is consistent stores and returns a consistent job, and sends
  -- nothing, over a store that answers.
  pub mark_flash_chunk_transferred-IsConsistent :
      (index : ℕ) (job : FlashJob) (w : World)
      → job.id ≢ []
      → find_job job.id w.jobs ≡ some job
      → index < length job.chunks
      → IsConsistent job
      → Returns
          (mark_flash_chunk_transferred env job.id index)
          w
          (λ a v. IsConsistent a × Stored a w v)
  mark_flash_chunk_transferred-IsConsistent index job w some_id found within consistent =
      let (a, v, e, (start, time, become, stored)) =
        marked_returns job.id index job w some_id found within in
      (
        a,
        v,
        e,
        (
          subst IsConsistent (sym become)
              (after_chunk-IsConsistent index start time job within consistent),
          stored,
        ),
      )

  -- Marking a chunk that was not transferred, of an active job: either every chunk is marked now and
  -- the job that is stored and returned is completed, or chunks are left, and that job is active with
  -- this chunk marked and no other change to its chunks.
  pub mark_flash_chunk_transferred_new :
      (index : ℕ) (job : FlashJob) (w : World)
      → job.id ≢ []
      → find_job job.id w.jobs ≡ some job
      → index < length job.chunks
      → IsConsistent job
      → is_active job.status ≡ true
      → was_transferred job.chunks index ≡ false
      → Returns
          (mark_flash_chunk_transferred env job.id index)
          w
          (λ a v. (IsLast index job a ⊎ RunsOn index job a) × Stored a w v)
  mark_flash_chunk_transferred_new index job w some_id found within consistent active unsent =
      let (a, v, e, (start, time, become, stored)) =
        marked_returns job.id index job w some_id found within in
      (
        a,
        v,
        e,
        (
          subst (λ j. IsLast index job j ⊎ RunsOn index job j) (sym become)
              (after_chunk-cases index start time job within consistent active unsent),
          stored,
        ),
      )
