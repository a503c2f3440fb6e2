-- ===== src/Firmware/Ota/Start.antt =====
-- `StartDeviceFlash` over a store and a device that answer.
use spark_server.Base.{
  codes, ℕ, suc, ◌+◌, ◌<◌, ◌≡◌, ◌≢◌, refl, sym, ap, ◌∙◌, false, List, [], ◌∷◌, ◌++◌, Bytes,
  same_bytes, same_bytes_iff, none, some, ok, arith, length, append_assoc, append-nil,
}
use spark_server.Firmware.Models.{FlashJob, OtaChunk, FlashTarget, FlashRequest, completed}
use spark_server.Firmware.Effects.{
  send, Env, World, M, Transport, begin, find_job, store_create, fresh_id,
}
use spark_server.Firmware.Job.Progress.{IsConsistent, Indexed, count_marked}
use spark_server.Firmware.Manifest.{manifest_chunk_size}
use spark_server.Firmware.Manifest.Cuts.{Cuts, Fresh, joined, part_of, build_chunk_manifest-Cuts}
use spark_server.Firmware.Reliable.{IsReliable, Returns, now_returns, publish_returns}
use spark_server.Firmware.Ota.{
  begin_and_pump_flash_job, start_with_store, start_device_flash, new_job, fail_on,
}
use spark_server.Firmware.Ota.Reliable.{running_returns}
use spark_server.Firmware.Ota.Parts.{pending_parts}
use spark_server.Firmware.Ota.Started.{
  sent_parts, sent_parts-append, IsAccepting, IsDone, running_way,
}
use spark_server.Firmware.Ota.Pump.{pump_flash_job-IsDone}

-- The bytes of parts of a file, one behind the other.
abbrev pub bytes_of : List (ℕ × Bytes) → Bytes
bytes_of [] = []
bytes_of ((index, bytes) ∷ parts) = bytes ++ bytes_of parts

bytes_of-append : (xs ys : List (ℕ × Bytes)) → bytes_of (xs ++ ys) ≡ bytes_of xs ++ bytes_of ys
bytes_of-append [] ys = refl
bytes_of-append ((index, bytes) ∷ xs) ys =
    ap (λ b. bytes ++ b) (bytes_of-append xs ys)
    ∙ sym (append_assoc bytes (bytes_of xs) (bytes_of ys))

-- Of new chunks all are pending.
pending_parts-Fresh :
    (size : ℕ) (whole : Bytes) (chunks : List OtaChunk)
    → Fresh size chunks
    → (bytes_of (pending_parts whole chunks) ≡ joined whole chunks) × (count_marked chunks ≡ 0)
pending_parts-Fresh size whole [] h = (refl, refl)
pending_parts-Fresh size whole (c ∷ []) (t, _) = (rw t refl, rw t refl)
pending_parts-Fresh size whole (c ∷ d ∷ chunks) (t, _, more) =
    let (bytes, none_marked) = pending_parts-Fresh size whole (d ∷ chunks) more in
    (rw t (ap (λ b. part_of whole c ++ b) bytes), rw t (omega (arith, none_marked)))

Cuts-Indexed :
    (sha : Bytes → Bytes) (whole : Bytes) (from offset : ℕ) (chunks : List OtaChunk)
    → Cuts sha whole from offset chunks
    → Indexed from chunks
Cuts-Indexed sha whole from offset [] h = tt
Cuts-Indexed sha whole from offset (c ∷ chunks) (i, o, s, f, x, more) =
    (i, Cuts-Indexed sha whole (from + 1) (offset + c.size) chunks more)

new_job-IsConsistent :
    (env : Env) (id : Bytes) (time : ℕ) (request : FlashRequest) (target : FlashTarget)
    (whole : Bytes) (size : ℕ) (chunks : List OtaChunk)
    → 0 < length chunks
    → Cuts env.sha256_hex whole 0 0 chunks
    → Fresh size chunks
    → IsConsistent (new_job env id time request target chunks)
new_job-IsConsistent env id time request target whole size chunks full cut fresh = record {
  count = refl;
  some_chunk = full;
  indexed = Cuts-Indexed env.sha256_hex whole 0 0 chunks cut;
  marked = sym (pending_parts-Fresh size whole chunks fresh).1;
  percent = omega arith;
  finished = λ e. cc;
}

find_job-append :
    (job : FlashJob) (jobs : List FlashJob)
    → find_job job.id jobs ≡ none
    → find_job job.id (jobs ++ job ∷ []) ≡ some job
find_job-append job [] h = rw ((same_bytes_iff job.id job.id).1 refl)
find_job-append job (j ∷ jobs) h = ground (arith, find_job-append job jobs)

module _ (env : Env) (t : Transport) (r : IsReliable env)
    (has_transport : env.flash_transport ≡ some t) (accepting : IsAccepting t)
    (begins : (n : ℕ) (job : FlashJob) → t.begin_flash n job ≡ none) (whole : Bytes) where
  begun_returns :
      (job : FlashJob) (w : World)
      → job.id ≢ []
      → IsConsistent job
      → env.read_file job.binary_path ≡ ok whole
      → Cuts env.sha256_hex whole 0 0 job.chunks
      → Returns (begin_and_pump_flash_job env t job) w (IsDone env whole job w)
  unfolding begin_and_pump_flash_job fail_on send
  begun_returns job w some_id consistent readable cut =
      let w1 = record w { calls = suc w.calls; wire = w.wire ++ begin job ∷ [] } in
      let (running, w2, e, become) = running_returns env r job w1 in
      let (way, chunks, id) =
        running_way env t r has_transport accepting whole job w1 running w2 some_id consistent
          readable cut become in
      let (a, v, e', done) =
        pump_flash_job-IsDone env t r has_transport accepting whole (suc (length running.chunks))
          running w2 way (omega arith) in
      let begun : sent_parts w1.wire ≡ sent_parts w.wire =
        sent_parts-append w.wire (begin job ∷ []) ∙ append-nil (sent_parts w.wire) in
      (
        a,
        v,
        simp (begins w.calls job, e) e',
        record {
          status = done.status;
          consistent = done.consistent;
          found = done.found;
          id = done.id ∙ id;
          wire =
              done.wire
              ∙ ap (λ l. sent_parts l ++ pending_parts whole running.chunks) become.2.wire
              ∙ ap (λ l. l ++ pending_parts whole running.chunks) begun
              ∙ ap (λ c. sent_parts w.wire ++ pending_parts whole c) chunks;
        },
      )

  -- A new job that is created is stored beside the others.
  created_returns :
      (job : FlashJob) (w : World)
      → find_job job.id w.jobs ≡ none
      → Returns (store_create env job) w (λ _ v. (v.jobs ≡ w.jobs ++ job ∷ []) × (v.wire ≡ w.wire))
  unfolding store_create
  created_returns job w unused = (
    tt,
    record w { calls = suc w.calls; jobs = w.jobs ++ job ∷ [] },
    rw (r.no_fault w.calls, unused) refl,
    (refl, refl),
  )

  stored_returns :
      (job : FlashJob) (w : World)
      → find_job job.id w.jobs ≡ none
      → job.id ≢ []
      → IsConsistent job
      → env.read_file job.binary_path ≡ ok whole
      → Cuts env.sha256_hex whole 0 0 job.chunks
      → Returns (start_with_store env (some t) job) w (IsDone env whole job w)
  unfolding start_with_store
  stored_returns job w unused some_id consistent readable cut =
      let (u, w1, e1, (_, wire1)) = created_returns job w unused in
      let (u', w2, e2, same2) = publish_returns env r (codes "queued") job w1 in
      let (a, v, e3, done) = begun_returns job w2 some_id consistent readable cut in
      (
        a,
        v,
        simp (e1, e2) e3,
        record {
          status = done.status;
          consistent = done.consistent;
          found = done.found;
          id = done.id;
          wire =
              done.wire
              ∙ ap (λ l. sent_parts l ++ pending_parts whole job.chunks) (same2.wire ∙ wire1);
        },
      )

  -- `StartDeviceFlash` for a device and a product, whose firmware is found with a binary that can be
  -- read and is not empty: over a store and a device that answer, and with an ID that is new, it
  -- returns a job that is completed and stored, and the bytes of the chunks that were sent are the
  -- bytes of the file, each once and in order.
  pub start_device_flash-joined :
      (select_firmware : FlashRequest → M FlashTarget) (request : FlashRequest)
      (target : FlashTarget) (w w1 : World)
      → request.device_id ≢ []
      → request.product_id ≢ []
      → select_firmware request w ≡ (ok target, w1)
      → target.binary_path ≢ []
      → env.read_file target.binary_path ≡ ok whole
      → 0 < length whole
      → ((n : ℕ) → env.new_id n ≢ [])
      → ((n : ℕ) → find_job (env.new_id n) w1.jobs ≡ none)
      → Returns (start_device_flash env select_firmware request) w (λ a v.
        (a.status ≡ completed)
        × IsConsistent a
        × (find_job a.id v.jobs ≡ some a)
        × (bytes_of (sent_parts v.wire) ≡ bytes_of (sent_parts w1.wire) ++ whole))
  unfolding start_device_flash fresh_id
  start_device_flash-joined select_firmware request target w w1 device product selected path
        readable full some_id unused =
      let some_device : same_bytes request.device_id [] ≡ false =
        ground (arith, (same_bytes_iff request.device_id []).0) in
      let some_product : same_bytes request.product_id [] ≡ false =
        ground (arith, (same_bytes_iff request.product_id []).0) in
      let some_path : same_bytes target.binary_path [] ≡ false =
        ground (arith, (same_bytes_iff target.binary_path []).0) in
      let (chunks, w2, e2, (cut, join, fresh, some_chunk, same2)) =
        build_chunk_manifest-Cuts env target.binary_path whole w1 r readable full in
      let (time, w3, e3, same3) = now_returns env r w2 in
      let w4 = record w3 { calls = suc w3.calls } in
      let id = env.new_id w3.calls in
      let job = new_job env id time request target chunks in
      let consistent =
        new_job-IsConsistent env id time request target whole (manifest_chunk_size env.chunk_size)
          chunks some_chunk cut fresh in
      let new : find_job id w4.jobs ≡ none =
        ap (find_job id) (same3.jobs ∙ same2.jobs) ∙ unused w3.calls in
      let (a, v, e, done) = stored_returns job w4 new (some_id w3.calls) consistent readable cut in
      let pending =
        (pending_parts-Fresh (manifest_chunk_size env.chunk_size) whole chunks fresh).0 in
      (
        a,
        v,
        simp (some_device, some_product, selected, some_path, e2, e3, r.has_store, has_transport) e,
        (
          done.status,
          done.consistent,
          done.found,
          ap bytes_of done.wire
              ∙ bytes_of-append (sent_parts w4.wire) (pending_parts whole chunks)
              ∙ ap (λ b. bytes_of (sent_parts w4.wire) ++ b) (pending ∙ join)
              ∙ ap (λ l. bytes_of (sent_parts l) ++ whole) (same3.wire ∙ same2.wire),
        ),
      )
