-- ===== src/Protocol/Coap/Extended.antt =====
-- The extended nibbles of an option header, and one option written and read back.
use spark_server.Base.{
  ℕ, ◌+◌, ◌*◌, ◌/◌, ◌%◌, ◌<◌, bit_and, bit_or, ◌≡◌, refl, ap, ◌∙◌, ◌∷◌, ◌++◌, Bytes, IsU16, ok,
  arith, length, take-append, drop-append, length-append, append_assoc, join_nibbles, low_nibble,
  le→ltb,
}
use spark_server.Protocol.Coap.{encode_extended, decode_extended, write_option, parse_option}

-- A value and its nibble with the extra bytes.
pub decode-encode :
    (v : ℕ) (tail : Bytes)
    → IsU16 v
    → decode_extended (encode_extended v).0 ((encode_extended v).1 ++ tail)
      ≡ ok (v, length (encode_extended v).1)
unfolding encode_extended decode_extended
decode-encode v tail h = ground arith

pub nibble-lt : (v : ℕ) → (encode_extended v).0 < 15
unfolding encode_extended
nibble-lt v = ground arith

-- The header byte splits into its two nibbles.
header_fields :
    (h l : ℕ)
    → h < 15
    → l < 15
    → (bit_or (h * 16 % 256) l / 16 ≡ h) × (bit_and (bit_or (h * 16 % 256) l) 0x0f ≡ l)
header_fields h l hh hl =
    let wrap : h * 16 % 256 ≡ h * 16 = omega arith in
    let high : (h * 16 + l) / 16 ≡ h = omega arith in
    let low : (h * 16 + l) % 16 ≡ l = omega arith in
    rw (wrap, join_nibbles h l (omega arith) (omega arith))
      ((high, low_nibble (h * 16 + l) (omega arith) ∙ low))

-- One option from the two decoded fields of its header.
parse_option_fields :
    (header delta previous : ℕ) (delta_extra length_extra value tail : Bytes)
    → decode_extended (header / 16) (delta_extra ++ (length_extra ++ (value ++ tail)))
      ≡ ok (delta, length delta_extra)
    → decode_extended (bit_and header 0x0f) (length_extra ++ (value ++ tail))
      ≡ ok (length value, length length_extra)
    → parse_option (header ∷ delta_extra ++ (length_extra ++ (value ++ tail))) previous
      ≡ ok (
        record { number = (previous + delta) % 65536; value = value },
        1 + length delta_extra + length length_extra + length value,
      )
unfolding parse_option
parse_option_fields header delta previous delta_extra length_extra value tail hd hl = rw (
  hd,
  drop-append (length delta_extra) delta_extra (length_extra ++ (value ++ tail)) refl,
  hl,
  drop-append (length length_extra) length_extra (value ++ tail) refl,
  length-append value tail,
  le→ltb (length value + length tail) (length value) (omega arith),
  take-append (length value) value tail refl,
)

pub parse_option-write_option :
    (delta : ℕ) (value tail : Bytes) (previous : ℕ)
    → IsU16 delta
    → IsU16 (length value)
    → parse_option (write_option delta value ++ tail) previous
      ≡ ok (
        record { number = (previous + delta) % 65536; value = value },
        length (write_option delta value),
      )
unfolding write_option
parse_option-write_option delta value tail previous hd hv =
    let small : length value % 65536 ≡ length value = omega arith in
    let (high, low) =
      header_fields (encode_extended delta).0 (encode_extended (length value)).0 (nibble-lt delta)
        (nibble-lt (length value)) in
    let front = (encode_extended delta).1 in
    let back = (encode_extended (length value)).1 in
    rw
      (
        small,
        append_assoc front (back ++ value) tail,
        append_assoc back value tail,
        length-append front (back ++ value),
        length-append back value,
      )
      (parse_option_fields
          (bit_or ((encode_extended delta).0 * 16 % 256) (encode_extended (length value)).0) delta
          previous front back value tail
          (rw high (decode-encode delta (back ++ (value ++ tail)) hd))
          (rw low (decode-encode (length value) (value ++ tail) hv))
        ∙ ap (λ n. ok (record { number = (previous + delta) % 65536; value = value }, n))
            (omega arith))

-- No option header is the payload marker.
pub header-ne-marker :
    (delta : ℕ) (value : Bytes)
    → (b : ℕ) × (bs : Bytes) × (write_option delta value ≡ b ∷ bs) × (b < 240)
unfolding write_option
header-ne-marker delta value =
    let h = (encode_extended delta).0 in
    let l = (encode_extended (length value % 65536)).0 in
    let hh : h < 15 = nibble-lt delta in
    let hl : l < 15 = nibble-lt (length value % 65536) in
    let wrap : h * 16 % 256 ≡ h * 16 = omega arith in
    (
      bit_or (h * 16 % 256) l,
      (encode_extended delta).1 ++ ((encode_extended (length value % 65536)).1 ++ value),
      refl,
      rw (wrap, join_nibbles h l (omega arith) (omega arith)) (omega arith),
    )

pub length-write_option : (delta : ℕ) (value : Bytes) → 0 < length (write_option delta value)
length-write_option delta value =
    let (b, bs, e, small) = header-ne-marker delta value in rw e (omega arith)
