-- ===== src/Protocol/Coap/RoundTrip.antt =====
-- `Parse` after `Marshal`, for packet.go.
use spark_server.Base.{
  put_u16, not, ltb, ◌↔◌, refuse_if-eq-ok, ℕ, zero, suc, ◌+◌, ◌-◌, ◌*◌, ◌/◌, ◌%◌, ◌≤◌, ◌<◌, bit_and,
  bit_or, ◌≡◌, refl, ap, ◌∙◌, List, [], ◌∷◌, ◌++◌, append-nil, append_assoc, Bytes, IsU16, ok,
  ◌>>=◌, arith, false, ltb→le, le→ltb, length, All, All-map, length-append, drop-append,
  take-append, low_nibble, low_pair, join_header, ◌==◌,
}
use spark_server.Base.Sort.{Sorting, IsSorted, All-Perm}
use spark_server.Protocol.Coap.{
  CoapOption, Packet, write_option, parse_option, by_number, write_options, write_payload,
  default_version, marshal, parse_payload, parse_options, parse,
}
use spark_server.Protocol.Coap.Extended.{
  parse_option-write_option, header-ne-marker, length-write_option,
}

-- What fits the two fields of an option on the wire.
pub record Encodable (option : CoapOption) : Type 0 where
  pub number : IsU16 option.number
  pub value : IsU16 (length option.value)

-- What the fields of a packet hold by their Go types, with a token and options that fit.
pub record IsWire (packet : Packet) : Type 0 where
  pub version : default_version packet.version ≡ 1
  pub type : packet.type < 4
  pub message_id : IsU16 packet.message_id
  pub token : length packet.token ≤ 8
  pub options : All Encodable packet.options

-- The bytes of sorted options, each with the difference to the number before it.
abbrev pub encode_options : ℕ → List CoapOption → Bytes
encode_options previous [] = []
encode_options previous (option ∷ options) =
    write_option (option.number - previous) option.value ++ encode_options option.number options

abbrev From : ℕ → List CoapOption → Type 0
From previous = All (λ option. previous ≤ option.number)

From-IsSorted :
    (option : CoapOption) (options : List CoapOption)
    → All (λ other. by_number other option ≡ false) options
    → From option.number options
From-IsSorted option options =
    All-map (λ other. by_number other option ≡ false) (λ other. option.number ≤ other.number)
      (λ other. ltb→le other.number option.number) options

pub write_options-IsSorted :
    (previous : ℕ) (options : List CoapOption)
    → From previous options
    → IsSorted by_number options
    → write_options previous options ≡ ok (encode_options previous options)
unfolding write_options
write_options-IsSorted previous [] h s = refl
write_options-IsSorted previous (option ∷ options) h s = rw (
  le→ltb option.number previous h.0,
  write_options-IsSorted option.number options (From-IsSorted option options s.0) s.1,
)

-- One round of the loop over an option that parses.
parse_options_round :
    (fuel b previous : ℕ) (bs rest : Bytes) (options : List CoapOption) (option : CoapOption)
    (n : ℕ)
    → b < 240
    → parse_option (b ∷ (bs ++ rest)) previous ≡ ok (option, n)
    → n ≡ length (b ∷ bs)
    → parse_options (suc fuel) (b ∷ (bs ++ rest)) previous options
      ≡ parse_options fuel rest option.number (options ++ option ∷ [])
unfolding parse_options
parse_options_round fuel b previous bs rest options option n small e hn =
    let plain : (b == 255) ≡ false = ground arith in rw (plain, e, drop-append n (b ∷ bs) rest hn)

parse_options-write_option :
    (fuel previous delta : ℕ) (value rest : Bytes) (options : List CoapOption)
    → IsU16 delta
    → IsU16 (length value)
    → parse_options (suc fuel) (write_option delta value ++ rest) previous options
      ≡ parse_options fuel rest
          ((previous + delta) % 65536)
          (options ++ record { number = (previous + delta) % 65536; value = value } ∷ [])
parse_options-write_option fuel previous delta value rest options hd hv =
    let (b, bs, e, small) = header-ne-marker delta value in
    let parsed = parse_option-write_option delta value rest previous hd hv in
    rw e (
      parse_options_round fuel b previous bs rest options
        (record { number = (previous + delta) % 65536; value = value }) (length (b ∷ bs)) small
        (rw e at parsed) refl)

-- The loop reads back the options that were written, and the payload behind them.
parse_options-encode_options :
    (fuel previous : ℕ) (before options : List CoapOption) (payload : Bytes)
    → From previous options
    → IsSorted by_number options
    → All Encodable options
    → length (encode_options previous options) < fuel
    → parse_options fuel (encode_options previous options ++ write_payload payload) previous before
      ≡ ok (before ++ options, payload)
parse_options-encode_options zero previous before options payload f s h enough =
    absurd (omega arith)
parse_options-encode_options (suc fuel) previous before [] [] f s h enough =
    unfold parse_options write_payload in rw append-nil
parse_options-encode_options (suc fuel) previous before [] (b ∷ bs) f s h enough =
    unfold parse_options write_payload parse_payload in rw append-nil
parse_options-encode_options (suc fuel) previous before (option ∷ options) payload f s h enough =
    let delta = option.number - previous in
    let rest = encode_options option.number options ++ write_payload payload in
    let lengths =
      length-append (write_option delta option.value) (encode_options option.number options) in
    let number : (previous + delta) % 65536 ≡ option.number = ground (arith, h.0.number, f.0) in
    rw (append_assoc (write_option delta option.value) (encode_options option.number options)) (
      parse_options-write_option fuel previous delta option.value rest before
        (ground (arith, h.0.number)) h.0.value
      ∙ rw number (
          parse_options-encode_options fuel option.number (before ++ option ∷ []) options payload
            (From-IsSorted option options s.0) s.1 h.1
            (omega (arith, lengths, length-write_option delta option.value))
          ∙ ap (λ l. ok (l, payload)) (append_assoc before (option ∷ []) options)))

All-any :
    (P : CoapOption → Type 0) (h : (o : CoapOption) → P o) (options : List CoapOption)
    → All P options
All-any P h [] = tt
All-any P h (o ∷ options) = (h o, All-any P h options)

-- The first byte of a packet and its fields.
first_byte :
    (type size : ℕ)
    → type < 4
    → size ≤ 8
    → let first = bit_or (bit_or (1 * 64 % 256) (bit_and type 0x03 * 16)) (size % 256) in
      (first / 64 ≡ 1) × (bit_and first 0x0f ≡ size) × (bit_and (first / 16) 0x03 ≡ type)
first_byte type size ht hs =
    let pair : bit_and type 0x03 ≡ type = low_pair type (omega arith) ∙ omega arith in
    let wrap : size % 256 ≡ size = omega arith in
    let low : (64 + type * 16 + size) % 16 ≡ size = omega arith in
    let mid : (64 + type * 16 + size) / 16 % 4 ≡ type = omega arith in
    rw (pair, wrap, join_header type size ht (omega arith))
      ((
        omega arith,
        low_nibble (64 + type * 16 + size) (omega arith) ∙ low,
        low_pair ((64 + type * 16 + size) / 16) (omega arith) ∙ mid,
      ))

-- A packet whose fields fit the wire is read back as it was written: the version is the default one
-- and the options are in the order of their numbers.
pub parse-marshal :
    (slice : Sorting by_number) (packet : Packet)
    → IsWire packet
    → (marshal slice packet >>= parse)
      ≡ ok (record packet { version = 1; options = slice.sort packet.options })
unfolding marshal parse
parse-marshal slice packet w =
    let options = slice.sort packet.options in
    let fit = All-Perm Encodable (slice.permutes packet.options) w.options in
    let bottom = All-any (λ option. 0 ≤ option.number) (λ option. omega arith) options in
    let body = encode_options 0 options ++ write_payload packet.payload in
    let word : packet.message_id / 256 % 256 * 256 + packet.message_id % 256 ≡ packet.message_id =
      ground (arith, w.message_id) in
    let longer = length-append (encode_options 0 options) (write_payload packet.payload) in
    let (version, size, type) = first_byte packet.type (length packet.token) w.type w.token in
    rw (
      w.version,
      le→ltb 8 (length packet.token) w.token,
      write_options-IsSorted 0 options bottom (slice.is_sorted packet.options),
      version,
      size,
      type,
      le→ltb 8 (length packet.token) w.token,
      length-append packet.token body,
      le→ltb (length packet.token + length body) (length packet.token) (omega arith),
      take-append (length packet.token) packet.token body refl,
      drop-append (length packet.token) packet.token body refl,
      parse_options-encode_options (suc (length body)) 0 [] options packet.payload bottom
          (slice.is_sorted packet.options) fit (omega (arith, longer)),
      word,
    )

marshal-fields :
    (slice : Sorting by_number) (packet : Packet) (bytes : Bytes)
    → marshal slice packet ≡ ok bytes
    → (default_version packet.version ≡ 1) × (length packet.token ≤ 8)
unfolding marshal
marshal-fields slice packet bytes e =
    let (v, e1) = refuse_if-eq-ok (not (default_version packet.version == 1)) _ _ e in
    let (t, e2) = refuse_if-eq-ok (ltb 8 (length packet.token)) _ _ e1 in
    (ground arith, ground arith)

marshal-total :
    (slice : Sorting by_number) (packet : Packet)
    → default_version packet.version ≡ 1
    → length packet.token ≤ 8
    → (bytes : Bytes) × (marshal slice packet ≡ ok bytes)
unfolding marshal
marshal-total slice packet version token =
    let options = slice.sort packet.options in
    let bottom = All-any (λ option. 0 ≤ option.number) (λ option. omega arith) options in
    (
      bit_or (bit_or (1 * 64 % 256) (bit_and packet.type 0x03 * 16)) (length packet.token % 256)
            ∷ packet.code
            ∷ put_u16 packet.message_id
          ++ (packet.token ++ (encode_options 0 options ++ write_payload packet.payload)),
      rw (
        version,
        le→ltb 8 (length packet.token) token,
        write_options-IsSorted 0 options bottom (slice.is_sorted packet.options),
      ),
    )

-- `Marshal` returns bytes exactly when the version, defaulted from 0, is 1 and the token has at most
-- eight bytes, whatever the options are: they are never found out of order.
pub marshal-ok_iff :
    (slice : Sorting by_number) (packet : Packet)
    → ((bytes : Bytes) × (marshal slice packet ≡ ok bytes))
      ↔ ((default_version packet.version ≡ 1) × (length packet.token ≤ 8))
marshal-ok_iff slice packet =
    (λ h. marshal-fields slice packet h.0 h.1, λ h. marshal-total slice packet h.0 h.1)
