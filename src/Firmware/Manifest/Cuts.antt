-- ===== src/Firmware/Manifest/Cuts.antt =====
-- The chunks of a manifest cut the file, and each can be read back while the file stays.
use spark_server.Base.{
  ℕ, zero, suc, ◌+◌, ◌≤◌, ◌<◌, ◌≡◌, refl, sym, ap, ◌∙◌, Bool, true, false, ◌&&◌, not, List, [], ◌∷◌,
  ◌++◌, Bytes, same_bytes, same_bytes_iff, ok, arith, length, ltb, ◌==◌, take, drop, length-take,
  length-drop, drop-drop, take-append-drop, Bool-cases, inl, inr, subst,
}
use spark_server.Firmware.Models.{OtaChunk}
use spark_server.Firmware.Effects.{Env, World}
use spark_server.Firmware.Reliable.{IsReliable, Returns, Untouched, check_returns}
use spark_server.Firmware.Manifest.{
  chunk_of, read_chunks, read_chunk_data, build_chunk_manifest, manifest_chunk_size, some_chunks,
}

-- `chunks` cut `whole` from an offset to its end, one behind the other, with their positions, their
-- sizes of at least a byte and the hashes of what they cover.
abbrev pub Cuts : (Bytes → Bytes) → Bytes → ℕ → ℕ → List OtaChunk → Type 0
Cuts sha whole from offset [] = offset ≡ length whole
Cuts sha whole from offset (c ∷ chunks) =
    (c.index ≡ from)
    × (c.offset ≡ offset)
    × (1 ≤ c.size)
    × (offset + c.size ≤ length whole)
    × (c.sha256 ≡ sha (take c.size (drop offset whole)))
    × Cuts sha whole (from + 1) (offset + c.size) chunks

-- The bytes that a chunk covers.
abbrev pub part_of : Bytes → OtaChunk → Bytes
part_of whole c = take c.size (drop c.offset whole)

-- The bytes of all chunks, one behind the other.
abbrev pub joined : Bytes → List OtaChunk → Bytes
joined whole [] = []
joined whole (c ∷ chunks) = part_of whole c ++ joined whole chunks

take-all : (n : ℕ) (xs : Bytes) → length xs ≤ n → take n xs ≡ xs
take-all zero [] h = refl
take-all zero (x ∷ xs) h = absurd (omega arith)
take-all (suc n) [] h = refl
take-all (suc n) (x ∷ xs) h = ap (λ ys. x ∷ ys) (take-all n xs (omega arith))

drop-all : (xs : Bytes) → drop (length xs) xs ≡ []
drop-all [] = refl
drop-all (x ∷ xs) = drop-all xs

-- Chunks that cut a file from an offset on hold what stands behind it.
pub joined-Cuts :
    (sha : Bytes → Bytes) (whole : Bytes) (from offset : ℕ) (chunks : List OtaChunk)
    → Cuts sha whole from offset chunks
    → joined whole chunks ≡ drop offset whole
joined-Cuts sha whole from offset [] h = sym (drop-all whole) ∙ ap (λ n. drop n whole) (sym h)
joined-Cuts sha whole from offset (c ∷ chunks) (i, o, s, f, x, more) =
    rw
      (
        o,
        joined-Cuts sha whole (from + 1) (offset + c.size) chunks more,
        ← drop-drop c.size offset whole,
      )
      (take-append-drop c.size (drop offset whole))

-- No chunk is transferred, and each but the last one has the chunk size.
abbrev pub Fresh : ℕ → List OtaChunk → Type 0
Fresh size [] = Unit
Fresh size (c ∷ []) = (c.transferred ≡ false) × (c.size ≤ size)
Fresh size (c ∷ d ∷ chunks) = (c.transferred ≡ false) × (c.size ≡ size) × Fresh size (d ∷ chunks)

Fresh-full :
    (sha : Bytes → Bytes) (size index offset : ℕ) (bytes : Bytes) (chunks : List OtaChunk)
    → length bytes ≡ size
    → Fresh size chunks
    → Fresh size (chunk_of sha size index offset bytes ∷ chunks)
Fresh-full sha size index offset bytes [] e h = (refl, omega (arith, e))
Fresh-full sha size index offset bytes (c ∷ chunks) e h = (refl, e, h)

cut_full :
    (sha : Bytes → Bytes) (size index offset : ℕ) (whole : Bytes) (chunks : List OtaChunk)
    → 0 < size
    → offset + size ≤ length whole
    → length (take size (drop offset whole)) ≡ size
    → Cuts sha whole (index + 1) (offset + size) chunks
    → Cuts sha whole index offset
        (chunk_of sha size index offset (take size (drop offset whole)) ∷ chunks)
cut_full sha size index offset whole chunks h bound exact cut = (
  refl,
  refl,
  omega (arith, exact),
  omega (arith, exact),
  ap (λ n. sha (take n (drop offset whole))) (sym exact),
  subst (λ n. Cuts sha whole (index + 1) (offset + n) chunks) (sym exact) cut,
)

-- The read loop succeeds on every file, with the given chunk size at most, and its chunks cut it.
read_chunks-Cuts :
    (sha : Bytes → Bytes) (size fuel index offset : ℕ) (whole : Bytes)
    → 0 < size
    → offset ≤ length whole
    → length whole < fuel + offset
    → (chunks : List OtaChunk) × (read_chunks sha size fuel index offset (drop offset whole)
        ≡ ok chunks)
      × Cuts sha whole index offset chunks
      × Fresh size chunks
unfolding read_chunks
read_chunks-Cuts sha size zero index offset whole h low enough = absurd (omega arith)
read_chunks-Cuts sha size (suc fuel) index offset whole h low enough =
    let left = length-drop offset whole in
    elim (Bool-cases (length (drop offset whole) == 0)) [
      | inl end ↦ ([], rw end, ground (arith, left), tt)
      | inr more ↦ elim (Bool-cases (ltb (length (drop offset whole)) size)) [
        | inl short ↦ (
          chunk_of sha size index offset (drop offset whole) ∷ [],
          rw (more, short),
          (
            refl,
            refl,
            ground arith,
            omega (arith, left),
            ap sha (sym (take-all (length (drop offset whole)) (drop offset whole) (omega arith))),
            omega (arith, left),
          ),
          (refl, ground arith),
        )
        | inr full ↦
            let bound : offset + size ≤ length whole = ground (arith, left) in
            let sized = length-take size (drop offset whole) in
            let exact : length (take size (drop offset whole)) ≡ size =
              ground (arith, left, sized) in
            let (chunks, e, cut, fresh) =
              read_chunks-Cuts sha size fuel (index + 1) (offset + size) whole h bound
                (omega arith) in
            let read : read_chunks sha size fuel (index + 1) (offset + size)
                  (drop size (drop offset whole))
                ≡ ok chunks =
              rw (drop-drop size offset whole) e in
            (
              chunk_of sha size index offset (take size (drop offset whole)) ∷ chunks,
              rw (more, full, read) refl,
              cut_full sha size index offset whole chunks h bound exact cut,
              Fresh-full sha size index offset (take size (drop offset whole)) chunks exact fresh,
            )
      ]
    ]

chunk_size_pos : (size : ℕ) → 0 < manifest_chunk_size size
chunk_size_pos size = ground arith

-- What cuts a file that is not empty has a chunk, and the manifest is what the read loop gives.
some_cut :
    (env : Env) (whole : Bytes) (v : World) (chunks : List OtaChunk)
    → 0 < length whole
    → Cuts env.sha256_hex whole 0 0 chunks
    → (some_chunks env (ok chunks) v ≡ (ok chunks, v)) × (0 < length chunks)
some_cut env whole v [] full cut = absurd (omega (arith, cut))
some_cut env whole v (c ∷ chunks) full cut = (refl, omega arith)

-- The manifest of a readable file that is not empty: its chunks cut the file from its first byte to
-- its last, with the hashes of their bytes, and joined they are the file again; none is transferred,
-- and each is as large as the chunk size, the last one as large at most.
pub build_chunk_manifest-Cuts :
    (env : Env) (path whole : Bytes) (w : World)
    → IsReliable env
    → env.read_file path ≡ ok whole
    → 0 < length whole
    → Returns (build_chunk_manifest env path) w (λ chunks v.
      Cuts env.sha256_hex whole 0 0 chunks
      × (joined whole chunks ≡ whole)
      × Fresh (manifest_chunk_size env.chunk_size) chunks
      × (0 < length chunks)
      × Untouched w v)
unfolding build_chunk_manifest
build_chunk_manifest-Cuts env path whole w r readable full =
    let (chunks, e, cut, fresh) =
      read_chunks-Cuts env.sha256_hex (manifest_chunk_size env.chunk_size) (suc (length whole)) 0 0
        whole (chunk_size_pos env.chunk_size) (omega arith) (omega arith) in
    let (u, v, c, same) = check_returns env r w in
    let (done, some_chunk) = some_cut env whole v chunks full cut in
    (
      chunks,
      v,
      rw (c, readable, e) done,
      (cut, joined-Cuts env.sha256_hex whole 0 0 chunks cut, fresh, some_chunk, same),
    )

and_false : (b : Bool) → b && false ≡ false
and_false true = refl
and_false false = refl

-- Reading back a part of a readable file, of a byte at least and with the hash of its bytes, gives
-- its bytes.
pub read_chunk_data-eq :
    (env : Env) (path whole : Bytes) (c : OtaChunk) (w : World)
    → IsReliable env
    → env.read_file path ≡ ok whole
    → 0 < c.size
    → c.offset + c.size ≤ length whole
    → c.sha256 ≡ env.sha256_hex (part_of whole c)
    → Returns (read_chunk_data env path c) w (λ bytes v. (bytes ≡ part_of whole c) × Untouched w v)
unfolding read_chunk_data
read_chunk_data-eq env path whole c w r readable some_byte within hashed =
    let (u, v, e, same) = check_returns env r w in
    let sized = length-take c.size (drop c.offset whole) in
    let left = length-drop c.offset whole in
    let long : ltb (length (part_of whole c)) c.size ≡ false = ground (arith, left, sized) in
    let named : c.size == 0 ≡ false = ground arith in
    let right = (same_bytes_iff c.sha256 (env.sha256_hex (part_of whole c))).1 hashed in
    let unequal = and_false (not (same_bytes c.sha256 [])) in
    (part_of whole c, v, rw (e, named, readable, long, right, unequal) refl, (refl, same))
