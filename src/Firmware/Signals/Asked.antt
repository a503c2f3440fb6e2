-- ===== src/Firmware/Signals/Asked.antt =====
-- The parts of a file that a retry asks for, and what a retry keeps of a job.
use spark_server.Base.{
  ℕ, zero, suc, ◌+◌, ◌<◌, ◌≤◌, ◌≡◌, refl, sym, ap, ◌∙◌, false, List, [], ◌∷◌, ◌++◌, Bytes, Option,
  none, some, length, get_elem?, arith, Bool-cases, inl, inr,
}
use spark_server.Firmware.Models.{FlashJob, OtaChunk}
use spark_server.Firmware.Job.{
  mark_chunk, mark_all, start_queued, transfer_chunk, complete_job, is_queued, was_transferred,
  all_transferred,
}
use spark_server.Firmware.Job.Marking.{after_chunk}
use spark_server.Firmware.Manifest.Cuts.{Cuts, part_of}

-- Chunks without their marks.
abbrev pub bare : List OtaChunk → List OtaChunk
bare [] = []
bare (c ∷ chunks) = record c { transferred = false } ∷ bare chunks

bare-mark_chunk : (chunks : List OtaChunk) (k : ℕ) → bare (mark_chunk chunks k) ≡ bare chunks
bare-mark_chunk [] k = refl
bare-mark_chunk (c ∷ chunks) zero = refl
bare-mark_chunk (c ∷ chunks) (suc k) =
    ap (λ l. record c { transferred = false } ∷ l) (bare-mark_chunk chunks k)

bare-mark_all : (chunks : List OtaChunk) → bare (mark_all chunks) ≡ bare chunks
bare-mark_all [] = refl
bare-mark_all (c ∷ chunks) = ap (λ l. record c { transferred = false } ∷ l) (bare-mark_all chunks)

pub length-bare : (chunks : List OtaChunk) → length (bare chunks) ≡ length chunks
length-bare [] = refl
length-bare (c ∷ chunks) = ap suc (length-bare chunks)

pub bare-Cuts :
    (sha : Bytes → Bytes) (whole : Bytes) (from offset : ℕ) (chunks : List OtaChunk)
    → Cuts sha whole from offset chunks
    → Cuts sha whole from offset (bare chunks)
bare-Cuts sha whole from offset [] h = h
bare-Cuts sha whole from offset (c ∷ chunks) (i, o, s, f, x, more) =
    (i, o, s, f, x, bare-Cuts sha whole (from + 1) (offset + c.size) chunks more)

pub Cuts-bare :
    (sha : Bytes → Bytes) (whole : Bytes) (from offset : ℕ) (chunks : List OtaChunk)
    → Cuts sha whole from offset (bare chunks)
    → Cuts sha whole from offset chunks
Cuts-bare sha whole from offset [] h = h
Cuts-bare sha whole from offset (c ∷ chunks) (i, o, s, f, x, more) =
    (i, o, s, f, x, Cuts-bare sha whole (from + 1) (offset + c.size) chunks more)

-- The index and the bytes of the chunk at an index, where there is one.
abbrev pub asked_part : Bytes → ℕ → Option OtaChunk → List (ℕ × Bytes)
asked_part whole k none = []
asked_part whole k (some part) = (k, part_of whole part) ∷ []

abbrev pub asked_parts : Bytes → List OtaChunk → List ℕ → List (ℕ × Bytes)
asked_parts whole chunks [] = []
asked_parts whole chunks (k ∷ indexes) =
    asked_part whole k (get_elem? chunks k) ++ asked_parts whole chunks indexes

asked_part-bare :
    (whole : Bytes) (k n : ℕ) (chunks : List OtaChunk)
    → asked_part whole k (get_elem? (bare chunks) n) ≡ asked_part whole k (get_elem? chunks n)
asked_part-bare whole k n [] = refl
asked_part-bare whole k zero (c ∷ chunks) = refl
asked_part-bare whole k (suc n) (c ∷ chunks) = asked_part-bare whole k n chunks

pub asked_parts-bare :
    (whole : Bytes) (chunks : List OtaChunk) (indexes : List ℕ)
    → asked_parts whole (bare chunks) indexes ≡ asked_parts whole chunks indexes
asked_parts-bare whole chunks [] = refl
asked_parts-bare whole chunks (k ∷ indexes) =
    rw (asked_part-bare whole k k chunks, asked_parts-bare whole chunks indexes) refl

-- The chunk at an index of chunks that cut a file.
pub record IsPart (sha : Bytes → Bytes) (whole : Bytes) (index : ℕ) (part : OtaChunk) : Type 0 where
  pub named : part.index ≡ index
  pub some_byte : 0 < part.size
  pub inside : part.offset + part.size ≤ length whole
  pub hashed : part.sha256 ≡ sha (part_of whole part)

pub chunk_at :
    (sha : Bytes → Bytes) (whole : Bytes) (from offset k : ℕ) (chunks : List OtaChunk)
    → Cuts sha whole from offset chunks
    → k < length chunks
    → (part : OtaChunk) × (get_elem? chunks k ≡ some part) × IsPart sha whole (from + k) part
chunk_at sha whole from offset k [] h low = absurd (omega arith)
chunk_at sha whole from offset zero (c ∷ chunks) (i, o, s, f, x, more) low = (
  c,
  refl,
  record {
    named = omega (arith, i);
    some_byte = omega (arith, s);
    inside = omega (arith, o, f);
    hashed = x ∙ ap (λ n. sha (part_of whole (record c { offset = n }))) (sym o);
  },
)
chunk_at sha whole from offset (suc k) (c ∷ chunks) (i, o, s, f, x, more) low =
    let (part, at_k, p) =
      chunk_at sha whole (from + 1) (offset + c.size) k chunks more (omega arith) in
    (
      part,
      at_k,
      record {
        named = omega (arith, p.named);
        some_byte = p.some_byte;
        inside = p.inside;
        hashed = p.hashed;
      },
    )

-- A job with the same ID, binary and chunks up to their marks.
abbrev pub Kept : FlashJob → FlashJob → Type 0
Kept job a = (a.id ≡ job.id) × (a.binary_path ≡ job.binary_path) × (bare a.chunks ≡ bare job.chunks)

pub Kept-trans : (job a b : FlashJob) → Kept job a → Kept a b → Kept job b
Kept-trans job a b (id, path, chunks) (id', path', chunks') =
    (id' ∙ id, path' ∙ path, chunks' ∙ chunks)

start_queued-Kept : (time : ℕ) (job : FlashJob) → Kept job (start_queued time job)
unfolding start_queued
start_queued-Kept time job = elim (Bool-cases (is_queued job.status)) [
  | inl q ↦ rw q (refl, refl, refl)
  | inr q ↦ rw q (refl, refl, refl)
]

transfer_chunk-Kept : (k : ℕ) (job : FlashJob) → Kept job (transfer_chunk k job)
unfolding transfer_chunk
transfer_chunk-Kept k job = elim (Bool-cases (was_transferred job.chunks k)) [
  | inl marked ↦ rw marked (refl, refl, refl)
  | inr unsent ↦ rw unsent (refl, refl, bare-mark_chunk job.chunks k)
]

pub after_chunk-Kept : (k start time : ℕ) (job : FlashJob) → Kept job (after_chunk k start time job)
unfolding complete_job
after_chunk-Kept k start time job =
    let started = start_queued start job in
    let marked = transfer_chunk k started in
    let kept =
      Kept-trans job started marked (start_queued-Kept start job) (transfer_chunk-Kept k started) in
    elim (Bool-cases (all_transferred marked)) [
      | inl full ↦ rw full (kept.0, kept.1, bare-mark_all marked.chunks ∙ kept.2)
      | inr more ↦ rw more kept
    ]
