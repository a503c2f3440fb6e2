-- ===== src/Protocol/Coap.antt =====
-- internal/protocol/coap/packet.go: packets, their encoding and their parser. A slice is a list,
-- and the slice that a loop has not reached is what is left of that list.
pub mod Extended
pub mod RoundTrip
pub mod Parsed
pub mod Helpers
use spark_server.Base.{
  ℕ, zero, suc, ◌+◌, ◌-◌, ◌*◌, ◌/◌, ◌%◌, bit_and, bit_or, Bool, List, [], ◌∷◌, ◌++◌, Bytes, put_u16,
  get_u16, Result, ok, err, ◌>>=◌, ◌>>◌, refuse_if, ltb, ◌==◌, not, if◌then◌else◌, length, take,
  drop,
}
use spark_server.Base.Sort.{Sorting}

abbrev pub version1 : ℕ
version1 = 1

abbrev pub max_token_size : ℕ
max_token_size = 8

abbrev pub payload_marker : ℕ
payload_marker = 0xff

-- The constants of `Type`, a uint8.
abbrev pub confirmable : ℕ
confirmable = 0

abbrev pub non_confirmable : ℕ
non_confirmable = 1

abbrev pub acknowledgement : ℕ
acknowledgement = 2

abbrev pub reset : ℕ
reset = 3

pub record CoapOption : Type 0 where
  pub number : ℕ  -- uint16
  pub value : Bytes

pub record Packet : Type 0 where
  pub version : ℕ  -- uint8
  pub type : ℕ  -- uint8
  pub code : ℕ  -- uint8
  pub message_id : ℕ  -- uint16
  pub token : Bytes
  pub options : List CoapOption
  pub payload : Bytes

-- The messages that wrap `ErrInvalidPacket`. `out_of_fuel` is no Go value.
pub data Error : Type 0 where
  unsupported_version : ℕ → Error
  token_too_long options_out_of_order too_short truncated_token empty_payload_marker : Error
  missing_option_header truncated_option_value reserved_option_nibble : Error
  truncated_extended_option out_of_fuel : Error

-- `encodeExtended` returns the nibble and the extra bytes; its error is always nil.
unfoldable pub encode_extended : ℕ → ℕ × Bytes
encode_extended value =
    if ltb value 13
    then (value % 256, [])
    else if ltb value 269
    then (13, ((value - 13) % 256) ∷ [])
    else (14, put_u16 (value - 269))

-- `decodeExtended` returns the value and the bytes consumed.
decode_word : Bytes → Result Error (ℕ × ℕ)
decode_word (hi ∷ lo ∷ rest) = ok ((get_u16 hi lo + 269) % 65536, 2)
decode_word _ = err truncated_extended_option

decode_byte : Bytes → Result Error (ℕ × ℕ)
decode_byte (b ∷ rest) = ok (b + 13, 1)
decode_byte [] = err truncated_extended_option

unfoldable pub decode_extended : ℕ → Bytes → Result Error (ℕ × ℕ)
unfolding decode_word decode_byte
decode_extended nibble bytes =
    if nibble == 15
    then err reserved_option_nibble
    else if nibble == 14
    then decode_word bytes
    else if nibble == 13
    then decode_byte bytes
    else ok (nibble, 0)

-- `writeOption`: what it appends to the buffer.
unfoldable pub write_option : ℕ → Bytes → Bytes
write_option delta value =
    let (delta_nibble, delta_extra) = encode_extended delta in
    let (length_nibble, length_extra) = encode_extended (length value % 65536) in
    bit_or (delta_nibble * 16 % 256) length_nibble ∷ delta_extra ++ (length_extra ++ value)

-- `parseOption` returns the option and the bytes consumed.
unfoldable pub parse_option : Bytes → ℕ → Result Error (CoapOption × ℕ)
parse_option [] previous = err missing_option_header
parse_option (header ∷ rest) previous = do
  (delta, consumed) ← decode_extended (header / 16) rest
  (size, extra) ← decode_extended (bit_and header 0x0f) (drop consumed rest)
  let body = drop extra (drop consumed rest)
  if ltb (length body) size
      then err truncated_option_value
      else ok (
        record { number = (previous + delta) % 65536; value = take size body },
        1 + consumed + extra + size,
      )

-- The comparison that `Marshal` hands to `sort.Slice`.
abbrev pub by_number : CoapOption → CoapOption → Bool
by_number left right = ltb left.number right.number

-- The loop of `Marshal` over the sorted options; `delta` is exact after the test.
unfoldable pub write_options : ℕ → List CoapOption → Result Error Bytes
write_options previous [] = ok []
write_options previous (option ∷ options) =
    let rest = write_options option.number options in
    if ltb option.number previous
    then err options_out_of_order
    else do more ← rest; ok (write_option (option.number - previous) option.value ++ more)

unfoldable pub write_payload : Bytes → Bytes
write_payload [] = []
write_payload (b ∷ bs) = payload_marker ∷ b ∷ bs

abbrev pub default_version : ℕ → ℕ
default_version v = if v == 0 then version1 else v

unfoldable pub marshal : Sorting by_number → Packet → Result Error Bytes
marshal slice packet = do
  let version = default_version packet.version
  refuse_if (not (version == version1)) (unsupported_version version)
  refuse_if (ltb max_token_size (length packet.token)) token_too_long
  options ← write_options 0 (slice.sort packet.options)
  ok (
      bit_or (bit_or (version * 64 % 256) (bit_and packet.type 0x03 * 16))
          (length packet.token % 256)
        ∷ packet.code
        ∷ put_u16 packet.message_id
      ++ (packet.token ++ (options ++ write_payload packet.payload)))

-- The payload behind a marker.
unfoldable pub parse_payload : Bytes → Result Error Bytes
parse_payload [] = err empty_payload_marker
parse_payload (b ∷ bs) = ok (b ∷ bs)

-- The loop of `Parse` from `offset` on: the options and the payload. Each round consumes a byte at
-- least, so a fuel of one more than the bytes left is enough.
unfoldable pub parse_options :
    ℕ → Bytes → ℕ → List CoapOption → Result Error (List CoapOption × Bytes)
parse_options zero bytes previous options = err out_of_fuel
parse_options (suc fuel) [] previous options = ok (options, [])
parse_options (suc fuel) (b ∷ bs) previous options =
    let next = (do
      (option, consumed) ← parse_option (b ∷ bs) previous
      parse_options fuel (drop consumed (b ∷ bs)) option.number (options ++ option ∷ [])) in
    if b == payload_marker then (do payload ← parse_payload bs; ok (options, payload)) else next

unfoldable pub parse : Bytes → Result Error Packet
parse (first ∷ code ∷ hi ∷ lo ∷ rest) = do
  let version = first / 64
  let token_length = bit_and first 0x0f
  refuse_if (not (version == version1)) (unsupported_version version)
  refuse_if (ltb max_token_size token_length) token_too_long
  refuse_if (ltb (length rest) token_length) truncated_token
  let after = drop token_length rest
  (options, payload) ← parse_options (suc (length after)) after 0 []
  ok (record {
    version = version;
    type = bit_and (first / 16) 0x03;
    code = code;
    message_id = get_u16 hi lo;
    token = take token_length rest;
    options = options;
    payload = payload;
  })
parse _ = err too_short
