-- ===== src/Protocol/Coap/Parsed.antt =====
-- What `Parse` of packet.go accepts, and that its loop ends.
use spark_server.Base.{
  sym, ℕ, zero, suc, ◌+◌, ◌/◌, ◌%◌, ◌≤◌, ◌<◌, bit_and, ◌≡◌, ◌≢◌, ap, List, [], ◌∷◌, ◌++◌, Bytes,
  IsByte, ok, err, bind-ok, Result-cases, arith, ltb, length, All, All-append, All-drop,
  length-take, length-drop, take, drop, low_nibble, low_pair, not, ◌==◌, refuse_if-eq-ok,
  ok-injective, subst, Bool-cases, inl, inr,
}
use spark_server.Protocol.Coap.{
  CoapOption, Packet, payload_marker, out_of_fuel, decode_extended, parse_option, parse_payload,
  parse_options, parse,
}
use spark_server.Protocol.Coap.RoundTrip.{Encodable, IsWire}

decode_extended-lt :
    (nibble : ℕ) (bytes : Bytes) {v n : ℕ}
    → nibble < 16
    → All IsByte bytes
    → decode_extended nibble bytes ≡ ok (v, n)
    → v < 65536
unfolding decode_extended
decode_extended-lt nibble [] h hb e = ground arith
decode_extended-lt nibble (b ∷ []) h hb e = ground arith
decode_extended-lt nibble (b ∷ c ∷ bs) h hb e = ground arith

decode_extended-ne-fuel :
    (nibble : ℕ) (bytes : Bytes) → decode_extended nibble bytes ≢ err out_of_fuel
unfolding decode_extended
decode_extended-ne-fuel nibble [] e = ground arith
decode_extended-ne-fuel nibble (b ∷ []) e = ground arith
decode_extended-ne-fuel nibble (b ∷ c ∷ bs) e = ground arith

-- A parsed option, taken apart into the two decoded fields of its header.
record OptionParts (header : ℕ) (rest : Bytes) (previous : ℕ) (option : CoapOption) (n : ℕ)
    : Type 0 where
  delta : ℕ
  consumed : ℕ
  size : ℕ
  extra : ℕ
  high : decode_extended (header / 16) rest ≡ ok (delta, consumed)
  low : decode_extended (bit_and header 0x0f) (drop consumed rest) ≡ ok (size, extra)
  fits : size ≤ length (drop extra (drop consumed rest))
  option_eq : option ≡ record {
    number = (previous + delta) % 65536;
    value = take size (drop extra (drop consumed rest));
  }
  n_eq : n ≡ 1 + consumed + extra + size

parse_option_parts :
    (header : ℕ) (rest : Bytes) (previous : ℕ) (option : CoapOption) (n : ℕ)
    → parse_option (header ∷ rest) previous ≡ ok (option, n)
    → OptionParts header rest previous option n
unfolding parse_option
parse_option_parts header rest previous option n e =
    let ((delta, consumed), high, e') = bind-ok (decode_extended (header / 16) rest) _ (sym e) in
    let ((size, extra), low, e'') =
      bind-ok (decode_extended (bit_and header 0x0f) (drop consumed rest)) _ (sym e') in
    let fits : size ≤ length (drop extra (drop consumed rest)) = ground arith in
    record {
      delta = delta;
      consumed = consumed;
      size = size;
      extra = extra;
      high = high;
      low = low;
      fits = fits;
      option_eq = ground arith;
      n_eq = ground arith;
    }

parse_option-ne-fuel :
    (bytes : Bytes) (previous : ℕ) → parse_option bytes previous ≢ err out_of_fuel
unfolding parse_option
parse_option-ne-fuel [] previous e = cc
parse_option-ne-fuel (header ∷ rest) previous e =
    elim (Result-cases (decode_extended (header / 16) rest)) [
      | inl ((delta, consumed), p) ↦
          ground (arith, decode_extended-ne-fuel (bit_and header 0x0f) (drop consumed rest))
      | inr (x, p) ↦ ground (arith, decode_extended-ne-fuel (header / 16) rest)
    ]

-- A parsed option fits the wire, and something was consumed.
parse_option-Encodable :
    (bytes : Bytes) (previous : ℕ) (option : CoapOption) (n : ℕ)
    → All IsByte bytes
    → parse_option bytes previous ≡ ok (option, n)
    → (1 ≤ n) × Encodable option
parse_option-Encodable [] previous option n hb e = unfold parse_option in cc
parse_option-Encodable (header ∷ rest) previous option n hb e =
    let parts = parse_option_parts header rest previous option n e in
    let small =
      decode_extended-lt (bit_and header 0x0f) (drop parts.consumed rest)
        (rw (low_nibble header hb.0) (omega arith)) (All-drop IsByte parts.consumed rest hb.1)
        parts.low in
    let size = length-take parts.size (drop parts.extra (drop parts.consumed rest)) parts.fits in
    (
      omega (arith, parts.n_eq),
      rw parts.option_eq (record { number = omega arith; value = rw size small }),
    )

parse_option-pos :
    (bytes : Bytes) (previous : ℕ) (option : CoapOption) (n : ℕ)
    → parse_option bytes previous ≡ ok (option, n)
    → 1 ≤ n
parse_option-pos [] previous option n e = unfold parse_option in cc
parse_option-pos (header ∷ rest) previous option n e =
    omega (arith, (parse_option_parts header rest previous option n e).n_eq)

parse_payload-ne-fuel : (bytes : Bytes) → parse_payload bytes ≢ err out_of_fuel
unfolding parse_payload
parse_payload-ne-fuel [] e = cc
parse_payload-ne-fuel (b ∷ bs) e = cc

-- The fuel of the loop suffices when it passes the bytes left.
parse_options-ne-fuel :
    (fuel : ℕ) (bytes : Bytes) (previous : ℕ) (options : List CoapOption)
    → length bytes < fuel
    → parse_options fuel bytes previous options ≢ err out_of_fuel
unfolding parse_options
parse_options-ne-fuel zero bytes previous options h e = absurd (omega arith)
parse_options-ne-fuel (suc fuel) [] previous options h e = cc
parse_options-ne-fuel (suc fuel) (b ∷ bs) previous options h e =
    elim (Result-cases (parse_option (b ∷ bs) previous)) [
      | inl ((option, n), p) ↦ ground (
        arith,
        parse_payload-ne-fuel bs,
        parse_option-pos (b ∷ bs) previous option n p,
        length-drop n (b ∷ bs),
        parse_options-ne-fuel fuel (drop n (b ∷ bs)) option.number (options ++ option ∷ []),
      )
      | inr (x, p) ↦
          ground (arith, parse_payload-ne-fuel bs, parse_option-ne-fuel (b ∷ bs) previous)
    ]

parse_options-Encodable :
    (fuel : ℕ) (bytes : Bytes) (previous : ℕ) (before options : List CoapOption) (payload : Bytes)
    → All IsByte bytes
    → All Encodable before
    → parse_options fuel bytes previous before ≡ ok (options, payload)
    → All Encodable options
unfolding parse_options
parse_options-Encodable zero bytes previous before options payload hb h e = cc
parse_options-Encodable (suc fuel) [] previous before options payload hb h e =
    subst (All Encodable) (ap (λ r. r.0) (ok-injective e)) h
parse_options-Encodable (suc fuel) (b ∷ bs) previous before options payload hb h e =
    elim (Bool-cases (b == payload_marker)) [
      | inl m ↦
          let (rest, p, e') = bind-ok (parse_payload bs) _ (sym (rw m at e)) in
          subst (All Encodable) (ap (λ r. r.0) (ok-injective e')) h
      | inr m ↦
          let ((option, n), p, e') = bind-ok (parse_option (b ∷ bs) previous) _ (sym (rw m at e)) in
          let fit = (parse_option-Encodable (b ∷ bs) previous option n hb p).1 in
          parse_options-Encodable fuel (drop n (b ∷ bs)) option.number (before ++ option ∷ [])
            options payload (All-drop IsByte n (b ∷ bs) hb)
            (All-append Encodable before (option ∷ []) h (fit, tt)) e'
    ]

-- The loop of `Parse` never runs out of fuel.
pub parse_terminates : (bytes : Bytes) → parse bytes ≢ err out_of_fuel
unfolding parse
parse_terminates [] e = cc
parse_terminates (a ∷ []) e = cc
parse_terminates (a ∷ b ∷ []) e = cc
parse_terminates (a ∷ b ∷ c ∷ []) e = cc
parse_terminates (first ∷ b ∷ c ∷ d ∷ rest) e = ground (
  arith,
  parse_options-ne-fuel (suc (length (drop (bit_and first 0x0f) rest)))
      (drop (bit_and first 0x0f) rest) 0 [] (omega arith),
)

-- Every packet that `Parse` accepts has a version, a type, a token and options that fit the wire.
pub parse-IsWire :
    (bytes : Bytes) (packet : Packet) → All IsByte bytes → parse bytes ≡ ok packet → IsWire packet
unfolding parse
parse-IsWire [] packet hb e = cc
parse-IsWire (a ∷ []) packet hb e = cc
parse-IsWire (a ∷ b ∷ []) packet hb e = cc
parse-IsWire (a ∷ b ∷ c ∷ []) packet hb e = cc
parse-IsWire (first ∷ b ∷ c ∷ d ∷ rest) packet hb e =
    let (v, e1) = refuse_if-eq-ok (not (first / 64 == 1)) _ _ e in
    let (t, e2) = refuse_if-eq-ok (ltb 8 (bit_and first 0x0f)) _ _ e1 in
    let (f, e3) = refuse_if-eq-ok (ltb (length rest) (bit_and first 0x0f)) _ _ e2 in
    let after = drop (bit_and first 0x0f) rest in
    let ((options, payload), p, e4) =
      bind-ok (parse_options (suc (length after)) after 0 []) _ (sym e3) in
    let size : bit_and first 0x0f ≤ length rest = ground arith in
    let exact = length-take (bit_and first 0x0f) rest size in
    subst IsWire (ok-injective e4) (record {
      version = ground arith;
      type = rw (low_pair (first / 16) (ground arith)) (omega arith);
      message_id = ground arith;
      token = ground (arith, exact);
      options =
          parse_options-Encodable (suc (length after)) after 0 [] options payload
            (All-drop IsByte (bit_and first 0x0f) rest hb.1.1.1.1) tt p;
    })
