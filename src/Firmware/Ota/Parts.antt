-- ===== src/Firmware/Ota/Parts.antt =====
-- The chunks of a job that are still to be sent, with the bytes of the file that they cover.
use spark_server.Base.{
  ℕ, zero, suc, ◌+◌, ◌≤◌, ◌<◌, ◌≡◌, ◌⊎◌, refl, ap, ◌∙◌, true, false, List, [], ◌∷◌, Bytes, none,
  some, if◌then◌else◌, arith, length, Bool-cases, inl, inr, get_elem?,
}
use spark_server.Firmware.Models.{OtaChunk}
use spark_server.Firmware.Job.{mark_chunk, was_transferred}
use spark_server.Firmware.Job.Progress.{count_marked, count_marked-le-length}
use spark_server.Firmware.Manifest.Cuts.{Cuts, part_of}
use spark_server.Firmware.Ota.{next_index}

-- The index and the bytes of each chunk that is not transferred yet, in their order.
abbrev pub pending_parts : Bytes → List OtaChunk → List (ℕ × Bytes)
pending_parts whole [] = []
pending_parts whole (c ∷ chunks) =
    let rest = pending_parts whole chunks in
    if c.transferred then rest else (c.index, part_of whole c) ∷ rest

-- The first chunk that is not transferred yet stands at position `k`, has index `n`, and is a part
-- of the file.
pub record IsNext (sha : Bytes → Bytes) (whole : Bytes) (chunks : List OtaChunk) (n k : ℕ)
    (part : OtaChunk) : Type 0 where
  pub next : next_index chunks ≡ some n
  pub at : get_elem? chunks k ≡ some part
  pub within : k < length chunks
  pub unsent : was_transferred chunks k ≡ false
  pub named : part.index ≡ n
  pub some_byte : 0 < part.size
  pub inside : part.offset + part.size ≤ length whole
  pub hashed : part.sha256 ≡ sha (part_of whole part)
  pub pending :
      pending_parts whole chunks
      ≡ (n, part_of whole part) ∷ pending_parts whole (mark_chunk chunks k)

pub pending_parts-full :
    (whole : Bytes) (chunks : List OtaChunk)
    → count_marked chunks ≡ length chunks
    → pending_parts whole chunks ≡ []
pending_parts-full whole [] h = refl
pending_parts-full whole (c ∷ chunks) h = elim (Bool-cases c.transferred) [
  | inl t ↦ rw t (pending_parts-full whole chunks (ground arith))
  | inr t ↦ absurd (ground (arith, count_marked-le-length chunks))
]

pub Cuts-mark_chunk :
    (sha : Bytes → Bytes) (whole : Bytes) (from offset : ℕ) (chunks : List OtaChunk) (k : ℕ)
    → Cuts sha whole from offset chunks
    → Cuts sha whole from offset (mark_chunk chunks k)
Cuts-mark_chunk sha whole from offset [] k h = h
Cuts-mark_chunk sha whole from offset (c ∷ chunks) zero h = h
Cuts-mark_chunk sha whole from offset (c ∷ chunks) (suc k) (i, o, s, f, x, more) =
    (i, o, s, f, x, Cuts-mark_chunk sha whole (from + 1) (offset + c.size) chunks k more)

-- What is next behind a chunk that is transferred is next with it, one position on.
later_part :
    (sha : Bytes → Bytes) (whole : Bytes) (c : OtaChunk) (chunks : List OtaChunk) (n m k : ℕ)
    (part : OtaChunk)
    → c.transferred ≡ true
    → n ≡ m
    → IsNext sha whole chunks n k part
    → IsNext sha whole (c ∷ chunks) m (suc k) part
later_part sha whole c chunks n m k part t e p = record {
  next = rw t (p.next ∙ ap some e);
  at = p.at;
  within = omega (arith, p.within);
  unsent = p.unsent;
  named = p.named ∙ e;
  some_byte = p.some_byte;
  inside = p.inside;
  hashed = p.hashed;
  pending =
      rw t (
        p.pending
        ∙ ap (λ i. (i, part_of whole part) ∷ pending_parts whole (mark_chunk chunks k)) e);
}

-- Either every chunk is transferred, or a next one is there to be sent, whose index is its position.
pub find_unsent :
    (sha : Bytes → Bytes) (whole : Bytes) (from offset : ℕ) (chunks : List OtaChunk)
    → Cuts sha whole from offset chunks
    → ((next_index chunks ≡ none) × (count_marked chunks ≡ length chunks))
      ⊎ ((k : ℕ) × (part : OtaChunk) × IsNext sha whole chunks (from + k) k part)
find_unsent sha whole from offset [] h = inl (refl, refl)
find_unsent sha whole from offset (c ∷ chunks) (i, o, s, f, x, more) =
    elim (Bool-cases c.transferred) [
      | inr t ↦ inr (
        0,
        c,
        record {
          next = rw t (ap some (omega (arith, i)));
          at = refl;
          within = omega arith;
          unsent = t;
          named = omega (arith, i);
          some_byte = s;
          inside = omega (arith, o, f);
          hashed = rw o x;
          pending =
              rw t (ap (λ n. (n, part_of whole c) ∷ pending_parts whole chunks) (omega (arith, i)));
        },
      )
      | inl t ↦ elim (find_unsent sha whole (from + 1) (offset + c.size) chunks more) [
        | inl (e, n) ↦ inl (rw t e, rw t (omega (arith, n)))
        | inr (k, part, p) ↦ inr (
          suc k,
          part,
          later_part sha whole c chunks (from + 1 + k) (from + suc k) k part t (omega arith) p,
        )
      ]
    ]
