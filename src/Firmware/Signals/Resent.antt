-- ===== src/Firmware/Signals/Resent.antt =====
-- What RetryMissedFlashChunks sends, over a store and a device that answer.
use spark_server.Base.{
  ℕ, suc, ◌<◌, ◌≤◌, ◌≡◌, ◌≢◌, ◌⊎◌, refl, sym, ap, ◌∙◌, true, false, List, [], ◌∷◌, ◌++◌, append-nil,
  append_assoc, Bytes, codes, some, ok, length, get_elem?, subst, arith, All, Bool-cases, inl, inr,
  ltb, ◌==◌,
}
use spark_server.Base.Sort.{Sorting}
use spark_server.Firmware.Models.{FlashJob, max_missed_flash_chunks}
use spark_server.Firmware.Effects.{Env, World, continue, send, chunk, Transport, find_job, publish}
use spark_server.Firmware.Job.{
  fail_job, run_job, is_queued, contains, unique_valid_chunk_indexes, unique_valid_from,
}
use spark_server.Firmware.Job.Missed.{unique_valid_chunk_indexes-IsDistinct}
use spark_server.Firmware.Manifest.Cuts.{Cuts, part_of, read_chunk_data-eq}
use spark_server.Firmware.Reliable.{IsReliable, Returns, Stored}
use spark_server.Firmware.Ota.{newest_first, start_if_queued, finish_on_device, send_flash_chunk}
use spark_server.Firmware.Ota.Reliable.{
  get_returns, marked_returns, running_returns, fail_returns, over,
}
use spark_server.Firmware.Ota.Started.{sent_parts, sent_parts-append, IsAccepting, finished_returns}
use spark_server.Firmware.Ota.Step.{send_run}
use spark_server.Firmware.Signals.{
  active_flash_job_for_device, resend, resend_valid, retry_missed_flash_chunks,
}
use spark_server.Firmware.Signals.Asked.{
  length-bare, bare-Cuts, Cuts-bare, asked_part, asked_parts, asked_parts-bare, chunk_at, Kept,
  Kept-trans, after_chunk-Kept,
}

-- A job in the store whose chunks cut its binary, which can be read.
pub record IsPresent (env : Env) (whole : Bytes) (job : FlashJob) (w : World) : Type 0 where
  pub some_id : job.id ≢ []
  pub found : find_job job.id w.jobs ≡ some job
  pub readable : env.read_file job.binary_path ≡ ok whole
  pub cut : Cuts env.sha256_hex whole 0 0 job.chunks

-- What sending has left: the job is present with the same chunks, and parts have reached the wire.
abbrev pub Resent : Env → Bytes → FlashJob → World → List (ℕ × Bytes) → FlashJob → World → Type 0
Resent env whole job w parts a v =
    IsPresent env whole a v × Kept job a × (sent_parts v.wire ≡ sent_parts w.wire ++ parts)

-- The job has failed, and nothing is sent.
abbrev pub IsOver : FlashJob → World → FlashJob → World → Type 0
IsOver job w a v =
    (time : ℕ) × (a ≡ over time (codes "too many missed OTA chunks") job) × Stored a w v

-- What a retry is to leave: the valid chunks sent, or a failed job.
abbrev pub Retried : Env → Bytes → FlashJob → World → List ℕ → FlashJob → World → Type 0
Retried env whole job w indexes a v =
    let valid = unique_valid_chunk_indexes indexes (length job.chunks) in
    ((length indexes ≤ max_missed_flash_chunks)
      × Resent env whole job w (asked_parts whole job.chunks valid) a v)
    ⊎ ((max_missed_flash_chunks < length indexes) × IsOver job w a v)

Kept-IsPresent :
    (env : Env) (whole : Bytes) (job a : FlashJob) (w v : World)
    → IsPresent env whole job w
    → Kept job a
    → find_job a.id v.jobs ≡ some a
    → IsPresent env whole a v
Kept-IsPresent env whole job a w v p (id, path, chunks) found = record {
  some_id = rw id p.some_id;
  found = found;
  readable = ap env.read_file path ∙ p.readable;
  cut = Cuts-bare env.sha256_hex whole 0 0 a.chunks (
      subst (Cuts env.sha256_hex whole 0 0) (sym chunks)
        (bare-Cuts env.sha256_hex whole 0 0 job.chunks p.cut));
}

length-Kept : (job a : FlashJob) → Kept job a → length a.chunks ≡ length job.chunks
length-Kept job a (id, path, chunks) =
    sym (length-bare a.chunks) ∙ ap length chunks ∙ length-bare job.chunks

asked_parts-Kept :
    (whole : Bytes) (job a : FlashJob) (indexes : List ℕ)
    → Kept job a
    → asked_parts whole a.chunks indexes ≡ asked_parts whole job.chunks indexes
asked_parts-Kept whole job a indexes (id, path, chunks) =
    sym (asked_parts-bare whole a.chunks indexes)
    ∙ ap (λ l. asked_parts whole l indexes) chunks
    ∙ asked_parts-bare whole job.chunks indexes

-- Indices that a list contains only below a bound are below it.
contained-All :
    (n : ℕ) (indexes : List ℕ)
    → ((i : ℕ) → contains i indexes ≡ true → i < n)
    → All (λ i. i < n) indexes
unfolding contains
contained-All n [] h = tt
contained-All n (k ∷ indexes) h =
    (h k (ground arith), contained-All n indexes (λ i held. h i (ground arith)))

valid-All : (indexes : List ℕ) (n : ℕ) → All (λ i. i < n) (unique_valid_chunk_indexes indexes n)
valid-All indexes n =
    contained-All n (unique_valid_chunk_indexes indexes n)
      (λ i held. let e = (unique_valid_chunk_indexes-IsDistinct indexes n i).1 in ground arith)

module _ (env : Env) (t : Transport) (r : IsReliable env)
    (has_transport : env.flash_transport ≡ some t) (accepting : IsAccepting t) (whole : Bytes) where
  start_if_queued-Kept :
      (job : FlashJob) (w : World)
      → IsPresent env whole job w
      → Returns
          (start_if_queued env job)
          w
          (λ a v. IsPresent env whole a v × Kept job a × (v.wire ≡ w.wire))
  unfolding start_if_queued run_job
  start_if_queued-Kept job w p = elim (Bool-cases (is_queued job.status)) [
    | inl q ↦
        let (a, v, e, (time, become, stored)) = running_returns env r job w in
        let kept = subst (Kept job) (sym become) (refl, refl, refl) in
        (a, v, rw q e, (Kept-IsPresent env whole job a w v p kept stored.found, kept, stored.wire))
    | inr q ↦ (job, w, rw q, (p, (refl, refl, refl), refl))
  ]

  -- One call of `SendFlashChunk`, whether or not the chunk was sent before.
  send_flash_chunk-Resent :
      (k : ℕ) (job : FlashJob) (w : World)
      → IsPresent env whole job w
      → k < length job.chunks
      → Returns
          (send_flash_chunk env job.id k)
          w
          (Resent env whole job w (asked_part whole k (get_elem? job.chunks k)))
  unfolding send
  send_flash_chunk-Resent k job w p low =
      let (part, at_k, is) = chunk_at env.sha256_hex whole 0 0 k job.chunks p.cut low in
      let named : part.index ≡ k = omega (arith, is.named) in
      let (got, w1, e1, (is_job, same1)) = get_returns env r job.id job w p.some_id p.found in
      let (bytes, w2, e2, (is_part, same2)) =
        read_chunk_data-eq env job.binary_path whole part w1 r p.readable is.some_byte is.inside
          is.hashed in
      let p2 =
        Kept-IsPresent env whole job job w w2 p (refl, refl, refl)
          (ap (find_job job.id) (same2.jobs ∙ same1.jobs) ∙ p.found) in
      let (started, w3, e3, (p3, kept3, wire3)) = start_if_queued-Kept job w2 p2 in
      let w4 = record w3 {
        calls = suc w3.calls;
        wire = w3.wire ++ chunk started part bytes ∷ [];
      } in
      let low3 : k < length started.chunks = rw (length-Kept job started kept3) low in
      let (a, v, e, (start, time, become, stored)) =
        marked_returns env r started.id k started w4 p3.some_id p3.found low3 in
      let (b, x, e', (same, jobs, sent)) =
        finished_returns env t r has_transport accepting whole a v in
      let kept_a = subst (Kept started) (sym become) (after_chunk-Kept k start time started) in
      let kept = Kept-trans job started a kept3 kept_a in
      let finished =
        ap (λ m. continue m (finish_on_device env t)) e
        ∙ e'
        ∙ ap (λ (j : FlashJob). (ok j, x)) same in
      (
        a,
        x,
        send_run env t r has_transport accepting whole k part job started bytes w w1 w2 w3 a x
            (e1 ∙ ap (λ (j : FlashJob). (ok j, w1)) is_job) at_k e2 e3 finished,
        (
          Kept-IsPresent env whole job a w x p kept (ap (find_job a.id) jobs ∙ stored.found),
          kept,
          sent
              ∙ ap sent_parts stored.wire
              ∙ sent_parts-append w3.wire (chunk started part bytes ∷ [])
              ∙ ap (λ n. sent_parts w3.wire ++ (n, bytes) ∷ []) named
              ∙ ap (λ l. sent_parts w3.wire ++ (k, l) ∷ []) is_part
              ∙ ap (λ l. sent_parts l ++ (k, part_of whole part) ∷ [])
                  (wire3 ∙ same2.wire ∙ same1.wire)
              ∙ ap (λ o. sent_parts w.wire ++ asked_part whole k o) (sym at_k),
        ),
      )

  resend-Resent :
      (indexes : List ℕ) (id : Bytes) (job : FlashJob) (w : World)
      → job.id ≡ id
      → IsPresent env whole job w
      → All (λ k. k < length job.chunks) indexes
      → Returns
          (resend env id job indexes)
          w
          (Resent env whole job w (asked_parts whole job.chunks indexes))
  unfolding resend
  resend-Resent [] id job w named p below =
      (job, w, refl, (p, (refl, refl, refl), sym (append-nil (sent_parts w.wire))))
  resend-Resent (k ∷ indexes) id job w named p below =
      let (a, v, e, (present, kept, sent)) = send_flash_chunk-Resent k job w p below.0 in
      let below_a : All (λ i. i < length a.chunks) indexes =
        subst (λ n. All (λ i. i < n) indexes) (sym (length-Kept job a kept)) below.1 in
      let (b, x, e', (present', kept', sent')) =
        resend-Resent indexes id a v (kept.0 ∙ named) present below_a in
      let here : send_flash_chunk env id k w ≡ (ok a, v) =
        ap (λ i. send_flash_chunk env i k w) (sym named) ∙ e in
      let one = asked_part whole k (get_elem? job.chunks k) in
      (
        b,
        x,
        ap (λ m. continue m (λ next. resend env id next indexes)) here ∙ e',
        (
          present',
          Kept-trans job a b kept kept',
          sent'
              ∙ ap (λ l. l ++ asked_parts whole a.chunks indexes) sent
              ∙ append_assoc (sent_parts w.wire) one (asked_parts whole a.chunks indexes)
              ∙ ap (λ l. sent_parts w.wire ++ (one ++ l))
                  (asked_parts-Kept whole job a indexes kept),
        ),
      )

  module _ (slice : Sorting newest_first) (id : Bytes) (job : FlashJob) (w u : World)
      (chosen : active_flash_job_for_device env slice id w ≡ (ok job, u)) where
    -- The valid indices are sent, and where there is none, nothing is.
    resend_valid-Resent :
        (indexes : List ℕ)
        → IsPresent env whole job u
        → All (λ i. i < length job.chunks) indexes
        → Returns
            (resend_valid env job indexes)
            u
            (Resent env whole job u (asked_parts whole job.chunks indexes))
    unfolding resend_valid publish
    resend_valid-Resent [] p below =
        (job, u, refl, (p, (refl, refl, refl), sym (append-nil (sent_parts u.wire))))
    resend_valid-Resent (k ∷ indexes) p below =
        let x = record u { events = u.events ++ (codes "missed", job) ∷ [] } in
        let present = Kept-IsPresent env whole job job u x p (refl, refl, refl) p.found in
        resend-Resent (k ∷ indexes) job.id job x refl present below

    -- A retry of the chunks that a device reports as missed, over a store and a device that answer,
    -- for the job that the device is taken to mean, whose chunks cut its binary: with ten indices at
    -- most, the chunks at the indices that uniqueValidChunkIndexes keeps of them reach the wire, in
    -- that order and with the bytes that they cover, whether they were marked as transferred or not,
    -- and the job stays in the store with the same chunks but for their marks; more than ten send
    -- nothing, and the job is stored and returned as failed with a text for it, each field but its
    -- status, its text and the times of its change and its end as it was.
    pub retry_missed_flash_chunks-Retried :
        (indexes : List ℕ)
        → IsPresent env whole job u
        → Returns
            (retry_missed_flash_chunks env slice id indexes)
            w
            (Retried env whole job u indexes)
    unfolding retry_missed_flash_chunks fail_job unique_valid_chunk_indexes unique_valid_from
    retry_missed_flash_chunks-Retried [] p = (
      job,
      u,
      rw chosen refl,
      inl (omega arith, (p, (refl, refl, refl), sym (append-nil (sent_parts u.wire)))),
    )
    retry_missed_flash_chunks-Retried (k ∷ more) p =
        let indexes = k ∷ more in
        let some_index : length indexes == 0 ≡ false = ground arith in
        elim (Bool-cases (ltb max_missed_flash_chunks (length indexes))) [
          | inl many ↦
              let (a, v, e, become) =
                fail_returns env r job (codes "too many missed OTA chunks") u in
              (a, v, rw (chosen, some_index, many) e, inr (ground arith, become))
          | inr few ↦
              let (a, v, e, sent) =
                resend_valid-Resent (unique_valid_chunk_indexes indexes (length job.chunks)) p
                  (valid-All indexes (length job.chunks)) in
              (a, v, rw (chosen, some_index, few) e, inl (ground arith, sent))
        ]
