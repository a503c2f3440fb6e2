-- ===== src/Protocol/Framing.antt =====
-- internal/protocol/framing/framing.go: two-byte big-endian length-prefixed frames. The stream is
-- the list of the bytes that are still to come; behind its last byte a read meets the end.
pub mod Stream
use spark_server.Base.{
  ℕ, zero, suc, ◌+◌, ◌*◌, ◌/◌, ◌%◌, ◌≤◌, ◌<◌, ◌≡◌, ◌≢◌, refl, ap, ◌∙◌, List, [], ◌∷◌, ◌++◌,
  append_assoc, Bytes, IsU16, put_u16, get_u16, Result, ok, err, arith, length, take, drop,
  length-append, take-append, drop-append, ltb, le→ltb, ◌==◌, if◌then◌else◌, All, IsByte, Bool,
  true, false,
}

abbrev pub default_max_frame_size : ℕ
default_max_frame_size = 64 * 1024

-- `frame_too_large` wraps `ErrFrameTooLarge`; the other two are those of `io.ReadFull`.
pub data Error : Type 0 where
  frame_too_large : ℕ → ℕ → Error
  eof unexpected_eof : Error

-- `io.ReadFull` into a buffer of `n` bytes: the result and what is left of the stream.
unfoldable pub read_full : ℕ → Bytes → Result Error Bytes × Bytes
read_full n stream =
    if ltb (length stream) n
    then (if length stream == 0 then err eof else err unexpected_eof, [])
    else (ok (take n stream), drop n stream)

-- `NewReader`: the bound that it keeps.
unfoldable pub reader_max : ℕ → ℕ
reader_max max = if max == 0 then default_max_frame_size else max

-- The part of `ReadFrame` behind the header.
unfoldable pub read_body : ℕ → ℕ → Bytes → Result Error Bytes × Bytes
read_body max size stream =
    if ltb max size then (err (frame_too_large size max), stream) else read_full size stream

abbrev pub frame_size : Bytes → ℕ
frame_size (hi ∷ lo ∷ rest) = get_u16 hi lo
frame_size _ = 0

abbrev pub after_header : ℕ → Result Error Bytes × Bytes → Result Error Bytes × Bytes
after_header max (ok header, rest) = read_body max (frame_size header) rest
after_header max (err e, rest) = (err e, rest)

unfoldable pub read_frame : ℕ → Bytes → Result Error Bytes × Bytes
read_frame max stream = after_header max (read_full 2 stream)

-- `WriteFrame`: what it appends to a stream that takes every write.
unfoldable pub write_frame : Bytes → Result Error Bytes
write_frame frame =
    if ltb 0xffff (length frame)
    then err (frame_too_large (length frame) 0xffff)
    else ok (put_u16 (length frame) ++ frame)
