-- ===== src/Firmware/Manifest.antt =====
-- internal/firmware/ota.go: the chunks of a binary file, and the bytes of one chunk.
pub mod Cuts
pub mod Read
use spark_server.Base.{
  ℕ, zero, suc, ◌+◌, ◌-◌, Bool, true, false, ◌&&◌, ◌||◌, not, List, [], ◌∷◌, ◌++◌, Bytes,
  same_bytes, Result, ok, err, length, take, drop, ltb, ◌==◌, if◌then◌else◌,
}
use spark_server.Firmware.Models.{
  OtaChunk, Error, not_found, out_of_fuel, checksum_mismatch, io, default_flash_chunk_size,
}
use spark_server.Firmware.Effects.{Env, M, ◌>>=◌, ◌>>◌, pure, raise, refuse_when, check_context}

abbrev pub manifest_chunk_size : ℕ → ℕ
manifest_chunk_size size = if size == 0 then default_flash_chunk_size else size

abbrev pub prepend : OtaChunk → Result Error (List OtaChunk) → Result Error (List OtaChunk)
prepend chunk (ok chunks) = ok (chunk ∷ chunks)
prepend chunk (err e) = err e

module _ (sha256_hex : Bytes → Bytes) (size : ℕ) where
  -- The chunk of what one `io.ReadFull` read.
  abbrev pub chunk_of : ℕ → ℕ → Bytes → OtaChunk
  chunk_of index offset bytes = record {
    index = index;
    offset = offset;
    size = length bytes;
    sha256 = sha256_hex bytes;
    transferred = false;
  }

  -- The read loop, over the bytes not yet read: the end of the file, a last short read, or a full
  -- one. Each round reads a byte at least.
  unfoldable pub read_chunks : ℕ → ℕ → ℕ → Bytes → Result Error (List OtaChunk)
  read_chunks zero index offset bytes = err out_of_fuel
  read_chunks (suc fuel) index offset bytes =
      let rest = read_chunks fuel (index + 1) (offset + size) (drop size bytes) in
      if length bytes == 0
      then ok []
      else if ltb (length bytes) size
      then ok (chunk_of index offset bytes ∷ [])
      else prepend (chunk_of index offset (take size bytes)) rest

module _ (env : Env) where
  abbrev pub opened : Result Bytes Bytes → M Bytes
  opened (ok bytes) = pure bytes
  opened (err text) = raise (io text)

  abbrev pub some_chunks : Result Error (List OtaChunk) → M (List OtaChunk)
  some_chunks (ok []) = raise not_found
  some_chunks (ok (chunk ∷ chunks)) = pure (chunk ∷ chunks)
  some_chunks (err e) = raise e

  unfoldable pub build_chunk_manifest : Bytes → M (List OtaChunk)
  build_chunk_manifest path = do
    check_context env
    bytes ← opened (env.read_file path)
    some_chunks (
        read_chunks env.sha256_hex (manifest_chunk_size env.chunk_size) (suc (length bytes)) 0 0
          bytes)

  -- `file.ReadAt` is an error when the file ends before the chunk does.
  unfoldable pub read_chunk_data : Bytes → OtaChunk → M Bytes
  read_chunk_data path chunk = do
    check_context env
    refuse_when (chunk.size == 0) not_found
    bytes ← opened (env.read_file path)
    let part = take chunk.size (drop chunk.offset bytes)
    refuse_when (ltb (length part) chunk.size) (io [])
    refuse_when
        (not (same_bytes chunk.sha256 []) && not (same_bytes chunk.sha256 (env.sha256_hex part)))
        checksum_mismatch
    pure part
