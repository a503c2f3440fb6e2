-- ===== src/Firmware/Ota/Pump.antt =====
-- The loop of `PumpFlashJob` over a store and a device that answer.
use spark_server.Base.{
  ℕ, zero, suc, ◌+◌, ◌<◌, ◌≡◌, refl, sym, ap, ◌∙◌, true, false, [], ◌∷◌, Bytes, some, ok, arith,
  length, append_assoc, append-nil, inl, inr, subst,
}
use spark_server.Firmware.Models.{FlashJob, completed, queued, running, failed, FlashStatus}
use spark_server.Firmware.Effects.{Env, World, Transport}
use spark_server.Firmware.Job.{complete_job, is_active, is_over}
use spark_server.Firmware.Job.Progress.{
  IsConsistent, count_marked, complete_job-IsConsistent, count_marked-le-length,
}
use spark_server.Firmware.Reliable.{IsReliable, Returns, Stored}
use spark_server.Firmware.Ota.{send_next, send_next_flash_chunk, pump_flash_job}
use spark_server.Firmware.Ota.Reliable.{get_returns, complete_returns}
use spark_server.Firmware.Ota.Parts.{pending_parts, pending_parts-full, IsNext, find_unsent}
use spark_server.Firmware.Ota.Started.{sent_parts, IsAccepting, OnItsWay, IsDone, GoesOn, Outcome}
use spark_server.Firmware.Ota.Step.{sent_returns, since, stays}

is_over-active : (status : FlashStatus) → is_active status ≡ true → is_over status ≡ false
is_over-active queued h = refl
is_over-active running h = refl
is_over-active completed h = cc
is_over-active failed h = cc

module _ (env : Env) (t : Transport) (r : IsReliable env)
    (has_transport : env.flash_transport ≡ some t) (accepting : IsAccepting t) (whole : Bytes) where
  completed_job :
      (time : ℕ) (job : FlashJob) (w : World) (a : FlashJob) (v : World)
      → IsConsistent job
      → count_marked job.chunks ≡ length job.chunks
      → a ≡ complete_job time job
      → Stored a w v
      → IsDone env whole job w a v
  unfolding complete_job
  completed_job time job w a v consistent full become stored = record {
    status = ap (λ (j : FlashJob). j.status) become;
    consistent = subst IsConsistent (sym become) (complete_job-IsConsistent time job consistent);
    found = stored.found;
    id = ap (λ (j : FlashJob). j.id) become;
    wire =
        ap sent_parts stored.wire
        ∙ sym (rw (pending_parts-full whole job.chunks full) (append-nil (sent_parts w.wire)));
  }

  next_returns :
      (job : FlashJob) (w : World)
      → OnItsWay env whole job w
      → Returns (send_next_flash_chunk env job.id) w (Outcome env whole job w)
  unfolding send_next_flash_chunk send_next
  next_returns job w way =
      let (got, w1, e1, (is_job, same1)) = get_returns env r job.id job w way.some_id way.found in
      let e = e1 ∙ ap (λ (j : FlashJob). (ok j, w1)) is_job in
      elim (find_unsent env.sha256_hex whole 0 0 job.chunks way.cut) [
        | inl (none_left, full) ↦
            let (a, v, e2, (time, become, stored)) = complete_returns env r job w1 in
            (
              a,
              v,
              rw (e, none_left) e2,
              since env t r has_transport accepting whole job job w w1 a v refl refl same1.wire
                  (inl (completed_job time job w1 a v way.consistent full become stored)),
            )
        | inr (k, part, p) ↦
            let at_k =
              subst (λ n. IsNext env.sha256_hex whole job.chunks n k part) (omega arith) p in
            let (a, v, e2, out) =
              sent_returns env t r has_transport accepting whole k part job w1
                (stays env t r has_transport accepting whole job w w1 way same1.jobs) at_k in
            (
              a,
              v,
              rw (e, at_k.next) e2,
              since env t r has_transport accepting whole job job w w1 a v refl refl same1.wire out,
            )
      ]

  after_one :
      (job : FlashJob) (w : World) (b : FlashJob) (u : World) (a : FlashJob) (v : World)
      → GoesOn env whole job w b u
      → IsDone env whole b u a v
      → IsDone env whole job w a v
  after_one job w b u a v on done = record {
    status = done.status;
    consistent = done.consistent;
    found = done.found;
    id = done.id ∙ on.id;
    wire =
        done.wire
        ∙ rw (on.wire, on.pending)
            (append_assoc (sent_parts w.wire) (on.part ∷ []) (pending_parts whole b.chunks));
  }

  -- The pump ends: the stored job is completed and consistent, and the wire has gained the index and
  -- the bytes of each chunk that was not transferred, each once and in the order of the file. Enough
  -- fuel is one more than the chunks that are not transferred.
  pub pump_flash_job-IsDone :
      (fuel : ℕ) (job : FlashJob) (w : World)
      → OnItsWay env whole job w
      → length job.chunks < fuel + count_marked job.chunks
      → Returns (pump_flash_job env fuel job.id) w (IsDone env whole job w)
  unfolding pump_flash_job
  pump_flash_job-IsDone zero job w way enough =
      absurd (omega (arith, enough, count_marked-le-length job.chunks))
  pump_flash_job-IsDone (suc fuel) job w way enough =
      let (b, u, e, out) = next_returns job w way in
      elim out [
        | inl done ↦ (b, u, rw e (rw done.status refl), done)
        | inr on ↦
            let (a, v, e2, done) =
              pump_flash_job-IsDone fuel b u on.way (omega (arith, enough, on.left, on.count)) in
            let goes = is_over-active b.status on.way.active in
            (a, v, rw (e, goes) (rw (sym on.id) e2), after_one job w b u a v on done)
      ]
