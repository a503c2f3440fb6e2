-- ===== src/Firmware/Manifest/Read.antt =====
-- Reading back the part of a file that a chunk covers.
use spark_server.Base.{
  ◌≢◌, ◌⊎◌, none, err, Result, ℕ, zero, suc, ◌+◌, ◌≤◌, ◌<◌, ◌≡◌, refl, true, false, ◌&&◌, not, [],
  ◌∷◌, Bytes, same_bytes, same_bytes_iff, ok, arith, length, ltb, ◌==◌, take, drop, length-take,
  length-drop, Bool-cases, inl, inr,
}
use spark_server.Firmware.Models.{OtaChunk, not_found, checksum_mismatch, io}
use spark_server.Firmware.Effects.{Env, World, Failure, ◌>>=◌, ◌>>◌, pure, refuse_when}
use spark_server.Firmware.Reliable.{IsReliable, Untouched, check_returns}
use spark_server.Firmware.Manifest.{opened, read_chunk_data}
use spark_server.Firmware.Manifest.Cuts.{part_of}

take_shorter : (n : ℕ) (xs : Bytes) → length (take n xs) ≤ length xs
take_shorter zero xs = omega arith
take_shorter (suc n) [] = omega arith
take_shorter (suc n) (x ∷ xs) = omega (arith, take_shorter n xs)

-- What is read where the file holds a part: its bytes where the hash is theirs or is not given, and a
-- mismatch otherwise.
abbrev IsChecked : (Bytes → Bytes) → Bytes → OtaChunk → Result Failure Bytes → Type 0
IsChecked sha whole c result =
    (((c.sha256 ≡ []) ⊎ (c.sha256 ≡ sha (part_of whole c))) × (result ≡ ok (part_of whole c)))
    ⊎ ((c.sha256 ≢ [])
        × (c.sha256 ≢ sha (part_of whole c))
        × (result ≡ err (record { cause = checksum_mismatch; job = none })))

-- What is read from a file that opens, or does not.
abbrev pub IsRead : (Bytes → Bytes) → Result Bytes Bytes → OtaChunk → Result Failure Bytes → Type 0
IsRead sha (err text) c result = result ≡ err (record { cause = io text; job = none })
IsRead sha (ok whole) c result =
    ((length whole < c.offset + c.size) × (result ≡ err (record { cause = io []; job = none })))
    ⊎ ((c.offset + c.size ≤ length whole) × IsChecked sha whole c result)

part_of-IsChecked :
    (sha : Bytes → Bytes) (whole : Bytes) (c : OtaChunk) (v : World)
    → let part = part_of whole c in
      let wrong = not (same_bytes c.sha256 []) && not (same_bytes c.sha256 (sha part)) in
      let outcome = (refuse_when wrong checksum_mismatch >> pure part) v in
      IsChecked sha whole c outcome.0 × (outcome.1 ≡ v)
part_of-IsChecked sha whole c v = elim (Bool-cases (same_bytes c.sha256 [])) [
  | inl unhashed ↦ rw unhashed (inl (inl ((same_bytes_iff c.sha256 []).0 unhashed), refl), refl)
  | inr hashed ↦ elim (Bool-cases (same_bytes c.sha256 (sha (part_of whole c)))) [
    | inl right ↦
        rw (hashed, right)
          (inl (inr ((same_bytes_iff c.sha256 (sha (part_of whole c))).0 right), refl), refl)
    | inr wrong ↦
        let given : c.sha256 ≢ [] = ground (arith, (same_bytes_iff c.sha256 []).1) in
        let other : c.sha256 ≢ sha (part_of whole c) =
          ground (arith, (same_bytes_iff c.sha256 (sha (part_of whole c))).1) in
        rw (hashed, wrong) (inr (given, other, refl), refl)
  ]
]

opened-IsRead :
    (env : Env) (c : OtaChunk) (file : Result Bytes Bytes) (v : World)
    → 0 < c.size
    → let outcome =
        (do
          bytes ← opened env file
          let part = take c.size (drop c.offset bytes)
          refuse_when (ltb (length part) c.size) (io [])
          refuse_when
              (not (same_bytes c.sha256 []) && not (same_bytes c.sha256 (env.sha256_hex part)))
              checksum_mismatch
          pure part)
          v in
      IsRead env.sha256_hex file c outcome.0 × (outcome.1 ≡ v)
opened-IsRead env c (err text) v some_byte = (refl, refl)
opened-IsRead env c (ok whole) v some_byte =
    let left = length-drop c.offset whole in
    let sized = length-take c.size (drop c.offset whole) in
    elim (Bool-cases (ltb (length (part_of whole c)) c.size)) [
      | inl short ↦
          let cut : ltb (length (take c.size (drop c.offset whole))) c.size ≡ true = short in
          let past : length whole < c.offset + c.size = ground (arith, left, sized) in
          rw short (inl (past, refl), refl)
      | inr long ↦
          let full : ltb (length (take c.size (drop c.offset whole))) c.size ≡ false = long in
          let within : c.offset + c.size ≤ length whole =
            ground (arith, left, take_shorter c.size (drop c.offset whole)) in
          let (right, same) = part_of-IsChecked env.sha256_hex whole c v in
          rw long (inr (within, right), same)
    ]

-- All outcomes of reading back a part of a file, no call being cancelled: a part of no byte is not
-- found; otherwise a file that does not open gives its error, one that ends before the part does an
-- error, and one that holds the part gives its bytes where the hash of the chunk is empty or that of
-- the bytes, and a checksum mismatch where it is another. The jobs and the wire stay as they are.
pub read_chunk_data-IsRead :
    (env : Env) (path : Bytes) (c : OtaChunk) (w : World)
    → IsReliable env
    → let outcome = read_chunk_data env path c w in
      (((c.size ≡ 0) × (outcome.0 ≡ err (record { cause = not_found; job = none })))
        ⊎ ((0 < c.size) × IsRead env.sha256_hex (env.read_file path) c outcome.0))
      × Untouched w outcome.1
unfolding read_chunk_data
read_chunk_data-IsRead env path c w r =
    let (u, v, e, same) = check_returns env r w in
    elim (Bool-cases (c.size == 0)) [
      | inl nothing ↦ rw (e, nothing) (inl (ground arith, refl), same)
      | inr something ↦
          let some_byte : 0 < c.size = ground arith in
          let (read, kept) = opened-IsRead env c (env.read_file path) v some_byte in
          rw (e, something) (inr (some_byte, read), rw kept same)
    ]
