-- ===== src/Protocol/Framing/Stream.antt =====
-- Frames written to a stream and read back, for framing.go.
use spark_server.Base.{
  ℕ, ◌+◌, ◌*◌, ◌/◌, ◌%◌, ◌≤◌, ◌≡◌, ◌≢◌, refl, ap, [], ◌∷◌, ◌++◌, Bytes, IsU16, put_u16, Result, ok,
  err, ◌>>=◌, arith, length, take, drop, length-append, take-append, drop-append, length-take, ltb,
  le→ltb, ltb→le, sym, All, IsByte, Bool-cases, inl, inr, take-append-drop,
}
use spark_server.Protocol.Framing.{
  Error, frame_too_large, read_full, reader_max, read_body, read_frame, write_frame,
}

read_full-append :
    (n : ℕ) (front rest : Bytes) → n ≡ length front → read_full n (front ++ rest) ≡ (ok front, rest)
unfolding read_full
read_full-append n front rest h = rw (
  length-append front rest,
  le→ltb (length front + length rest) n (omega arith),
  take-append n front rest h,
  drop-append n front rest h,
)

-- The header that `write_frame` puts in front of a frame gives its size back.
size_word : (n : ℕ) → IsU16 n → n / 256 % 256 * 256 + n % 256 ≡ n
size_word n h = omega arith

read_frame_lem :
    (max : ℕ) (frame rest : Bytes)
    → length frame ≤ max
    → IsU16 (length frame)
    → read_frame max (put_u16 (length frame) ++ (frame ++ rest)) ≡ (ok frame, rest)
unfolding read_frame read_body
read_frame_lem max frame rest h fits = rw (
  read_full-append 2 (put_u16 (length frame)) (frame ++ rest) refl,
  size_word (length frame) fits,
  le→ltb max (length frame) h,
  read_full-append (length frame) frame rest refl,
)

write_frame_lem :
    (frame : Bytes)
    → IsU16 (length frame)
    → write_frame frame ≡ ok (put_u16 (length frame) ++ frame)
unfolding write_frame
write_frame_lem frame fits = rw (le→ltb 0xffff (length frame) (omega arith))

-- A frame that fits the two-byte header and the reader's bound is written, then read back whole,
-- and what follows it in the stream is left for the next read.
pub read_frame-write_frame :
    (max : ℕ) (frame rest : Bytes)
    → length frame ≤ max
    → IsU16 (length frame)
    → (write_frame frame >>= λ bytes. ok (read_frame max (bytes ++ rest))) ≡ ok (ok frame, rest)
read_frame-write_frame max frame rest h fits =
    rw (write_frame_lem frame fits) (ap ok (read_frame_lem max frame rest h fits))

pair_eq :
    (a b c d : Bytes) → ◌≡◌ {A = Result Error Bytes × Bytes} (ok a, c) (ok b, d) → (a ≡ b) × (c ≡ d)
pair_eq a b c d h = ground arith

error_has_no_frame :
    {x : Error} {a c d : Bytes} → ◌≡◌ {A = Result Error Bytes × Bytes} (err x, c) (ok a, d) → ⊥
error_has_no_frame h = ground arith

-- A read that succeeds takes exactly the bytes asked for off the stream.
read_full-ok :
    (n : ℕ) (stream front rest : Bytes)
    → read_full n stream ≡ (ok front, rest)
    → (length front ≡ n) × (stream ≡ front ++ rest)
unfolding read_full
read_full-ok n stream front rest e = elim (Bool-cases (ltb (length stream) n)) [
  | inl short ↦ ground arith
  | inr long ↦
      let size = length-take n stream (ltb→le (length stream) n long) in
      let (front_eq, rest_eq) = pair_eq (take n stream) front (drop n stream) rest (rw long at e) in
      (rw front_eq at size, rw (front_eq, rest_eq) at (sym (take-append-drop n stream)))
]

read_body-ok :
    (max size : ℕ) (body frame rest : Bytes)
    → read_body max size body ≡ (ok frame, rest)
    → (length frame ≤ max) × (length frame ≡ size) × (body ≡ frame ++ rest)
unfolding read_body
read_body-ok max size body frame rest e = elim (Bool-cases (ltb max size)) [
  | inl over ↦ absurd (error_has_no_frame (rw over at e))
  | inr fits ↦
      let (n, eq) = read_full-ok size body frame rest (rw fits at e) in (ground (arith, n), n, eq)
]

-- A frame that is read is the one whose encoding stands at the front of the stream, and it is
-- within the bound.
pub read_frame_unique :
    (max : ℕ) (stream frame rest : Bytes)
    → All IsByte stream
    → read_frame max stream ≡ (ok frame, rest)
    → (stream ≡ put_u16 (length frame) ++ (frame ++ rest)) × (length frame ≤ max)
unfolding read_frame
read_frame_unique max [] frame rest hb e = unfold read_full in ground arith
read_frame_unique max (hi ∷ []) frame rest hb e = unfold read_full in ground arith
read_frame_unique max (hi ∷ lo ∷ body) frame rest hb e =
    let (within, n, body_eq) =
      read_body-ok max (hi * 256 + lo) body frame rest
        (rw (read_full-append 2 (hi ∷ lo ∷ []) body refl) at e) in
    let low : length frame % 256 ≡ lo = ground (arith, n) in
    let high : length frame / 256 % 256 ≡ hi = ground (arith, n) in
    (rw (low, high, body_eq), within)

-- With the default bound no stream of bytes is refused for its size: the header holds two bytes.
pub default_never_too_large :
    (stream : Bytes) (size max : ℕ)
    → All IsByte stream
    → (read_frame (reader_max 0) stream).0 ≢ err (frame_too_large size max)
unfolding read_frame read_body read_full reader_max
default_never_too_large [] size max hb e = cc
default_never_too_large (hi ∷ []) size max hb e = cc
default_never_too_large (hi ∷ lo ∷ rest) size max hb e = ground arith
