-- ===== src/Firmware/Ota/Step.antt =====
-- One call of `SendFlashChunk` over a store and a device that answer.
use spark_server.Base.{
  ℕ, suc, ◌+◌, ◌≡◌, ◌⊎◌, refl, sym, ap, ◌∙◌, [], ◌∷◌, ◌++◌, Bytes, some, ok, length, inl, inr,
  get_elem?, subst,
}
use spark_server.Firmware.Models.{FlashJob, OtaChunk}
use spark_server.Firmware.Effects.{Env, World, continue, ◌>>=◌, send, chunk, Transport, find_job}
use spark_server.Firmware.Job.{mark_chunk}
use spark_server.Firmware.Job.Progress.{IsConsistent, count_marked, length-mark_chunk}
use spark_server.Firmware.Job.Marking.{IsLast, RunsOn, after_chunk-cases, after_chunk-IsConsistent}
use spark_server.Firmware.Manifest.{read_chunk_data}
use spark_server.Firmware.Manifest.Cuts.{part_of, read_chunk_data-eq}
use spark_server.Firmware.Reliable.{IsReliable, Returns}
use spark_server.Firmware.Ota.{
  start_if_queued, finish_on_device, send_flash_chunk, fail_on, get_flash_job_by_id,
  mark_flash_chunk_transferred,
}
use spark_server.Firmware.Ota.Reliable.{get_returns, marked_returns}
use spark_server.Firmware.Ota.Parts.{pending_parts, pending_parts-full, IsNext, Cuts-mark_chunk}
use spark_server.Firmware.Ota.Started.{
  sent_parts, sent_parts-append, IsAccepting, OnItsWay, Outcome, started_returns, finished_returns,
}

module _ (env : Env) (t : Transport) (r : IsReliable env)
    (has_transport : env.flash_transport ≡ some t) (accepting : IsAccepting t) (whole : Bytes) where
  close_round :
      (k : ℕ) (part : OtaChunk) (job : FlashJob) (w : World) (a : FlashJob) (x : World)
      → OnItsWay env whole job w
      → IsNext env.sha256_hex whole job.chunks k k part
      → IsConsistent a
      → find_job a.id x.jobs ≡ some a
      → sent_parts x.wire ≡ sent_parts w.wire ++ (k, part_of whole part) ∷ []
      → IsLast k job a ⊎ RunsOn k job a
      → Outcome env whole job w a x
  close_round k part job w a x way p consistent found wire (inl last) =
      let rest = pending_parts-full whole (mark_chunk job.chunks k) last.full in
      inl (record {
        status = last.status;
        consistent = consistent;
        found = found;
        id = last.keeps.id;
        wire = wire ∙ sym (rw (p.pending, rest) refl);
      })
  close_round k part job w a x way p consistent found wire (inr on) = inr (record {
    way = record {
      some_id = rw on.keeps.id way.some_id;
      found = found;
      consistent = consistent;
      active = on.status;
      readable = ap env.read_file on.keeps.binary_path ∙ way.readable;
      cut = rw on.chunks (Cuts-mark_chunk env.sha256_hex whole 0 0 job.chunks k way.cut);
    };
    id = on.keeps.id;
    part = (k, part_of whole part);
    wire = wire;
    pending = rw (p.pending, on.chunks) refl;
    left = ap length on.chunks ∙ length-mark_chunk job.chunks k;
    count = on.count;
  })

  -- Once a chunk is on the wire, its mark is stored: it was the last one or the job goes on.
  marked_sent :
      (k : ℕ) (part : OtaChunk) (job : FlashJob) (w u : World)
      → OnItsWay env whole job w
      → IsNext env.sha256_hex whole job.chunks k k part
      → u.jobs ≡ w.jobs
      → sent_parts u.wire ≡ sent_parts w.wire ++ (k, part_of whole part) ∷ []
      → Returns
          (do updated ← mark_flash_chunk_transferred env job.id k; finish_on_device env t updated)
          u
          (Outcome env whole job w)
  marked_sent k part job w u way p same wire =
      let found : find_job job.id u.jobs ≡ some job = rw same way.found in
      let (a, v, e, (start, time, become, stored)) =
        marked_returns env r job.id k job u way.some_id found p.within in
      let (b, x, e', (keep, jobs, sent)) =
        finished_returns env t r has_transport accepting whole a v in
      (
        a,
        x,
        ap (λ m. continue m (finish_on_device env t)) e
            ∙ e'
            ∙ ap (λ (j : FlashJob). (ok j, x)) keep,
        close_round k part job w a x way p
            (subst IsConsistent (sym become)
              (after_chunk-IsConsistent k start time job p.within way.consistent))
            (ap (find_job a.id) jobs ∙ stored.found) (sent ∙ ap sent_parts stored.wire ∙ wire)
            (subst (λ j. IsLast k job j ⊎ RunsOn k job j) (sym become)
              (after_chunk-cases k start time job p.within way.consistent way.active p.unsent)),
      )

  pub stays :
      (job : FlashJob) (w v : World)
      → OnItsWay env whole job w
      → v.jobs ≡ w.jobs
      → OnItsWay env whole job v
  stays job w v way same = record {
    some_id = way.some_id;
    found = ap (find_job job.id) same ∙ way.found;
    consistent = way.consistent;
    active = way.active;
    readable = way.readable;
    cut = way.cut;
  }

  -- The outcome for a job is that for the job as it was before it was started.
  pub since :
      (job started : FlashJob) (w u : World) (a : FlashJob) (v : World)
      → started.chunks ≡ job.chunks
      → started.id ≡ job.id
      → u.wire ≡ w.wire
      → Outcome env whole started u a v
      → Outcome env whole job w a v
  since job started w u a v same id wire (inl done) = inl (record {
    status = done.status;
    consistent = done.consistent;
    found = done.found;
    id = done.id ∙ id;
    wire = done.wire ∙ rw (wire, same) refl;
  })
  since job started w u a v same id wire (inr on) = inr (record {
    way = on.way;
    id = on.id ∙ id;
    part = on.part;
    wire = on.wire ∙ rw wire refl;
    pending = ap (pending_parts whole) (sym same) ∙ on.pending;
    left = on.left ∙ ap length same;
    count = on.count ∙ ap (λ c. count_marked c + 1) same;
  })

  -- `SendFlashChunk` by the results of its calls.
  pub send_run :
      (k : ℕ) (part : OtaChunk) (job started : FlashJob) (bytes : Bytes) (w w1 w2 w3 : World)
      (a : FlashJob) (v : World)
      → get_flash_job_by_id env job.id w ≡ (ok job, w1)
      → get_elem? job.chunks k ≡ some part
      → read_chunk_data env job.binary_path part w1 ≡ (ok bytes, w2)
      → start_if_queued env job w2 ≡ (ok started, w3)
      → (do updated ← mark_flash_chunk_transferred env started.id k; finish_on_device env t updated)
          (record w3 { calls = suc w3.calls; wire = w3.wire ++ chunk started part bytes ∷ [] })
        ≡ (ok a, v)
      → send_flash_chunk env job.id k w ≡ (ok a, v)
  unfolding send_flash_chunk fail_on send
  send_run k part job started bytes w w1 w2 w3 a v e1 at e2 e3 e =
      simp (e1, has_transport, at, e2, e3, accepting.chunks w3.calls started part bytes) e

  pub sent_returns :
      (k : ℕ) (part : OtaChunk) (job : FlashJob) (w : World)
      → OnItsWay env whole job w
      → IsNext env.sha256_hex whole job.chunks k k part
      → Returns (send_flash_chunk env job.id k) w (Outcome env whole job w)
  sent_returns k part job w way p =
      let (got, w1, e1, (is_job, same1)) = get_returns env r job.id job w way.some_id way.found in
      let (bytes, w2, e2, (is_part, same2)) =
        read_chunk_data-eq env job.binary_path whole part w1 r way.readable p.some_byte p.inside
          p.hashed in
      let way2 = stays job w w2 way (same2.jobs ∙ same1.jobs) in
      let (started, w3, e3, (way3, wire3, chunks3, id3)) =
        started_returns env t r has_transport accepting whole job w2 way2 in
      let p3 = subst (λ c. IsNext env.sha256_hex whole c k k part) (sym chunks3) p in
      let w4 = record w3 {
        calls = suc w3.calls;
        wire = w3.wire ++ chunk started part bytes ∷ [];
      } in
      let onto : sent_parts w4.wire ≡ sent_parts w3.wire ++ (k, part_of whole part) ∷ [] =
        sent_parts-append w3.wire (chunk started part bytes ∷ [])
        ∙ ap (λ n. sent_parts w3.wire ++ (n, bytes) ∷ []) p.named
        ∙ ap (λ b. sent_parts w3.wire ++ (k, b) ∷ []) is_part in
      let (a, v, e, out) = marked_sent k part started w3 w4 way3 p3 refl onto in
      (
        a,
        v,
        send_run k part job started bytes w w1 w2 w3 a v
            (e1 ∙ ap (λ (j : FlashJob). (ok j, w1)) is_job) p.at e2 e3 e,
        since job started w w3 a v chunks3 id3 (wire3 ∙ same2.wire ∙ same1.wire) out,
      )
