-- ===== src/Examples/Protocol.antt =====
-- Packets, frames, session messages and handshakes at concrete inputs.
use spark_server.Base.{
  Result, true, false, ℕ, ◌+◌, ◌%◌, ◌≤◌, ◌<◌, ◌≡◌, ◌≢◌, refl, [], ◌∷◌, ◌++◌, Bytes, codes, put_u16,
  ok, err, ◌>>=◌, length, drop, replicate, arith, ◌↔◌,
}
use spark_server.Base.Sort.{Sorting, IsOrder, insertion}
use spark_server.Protocol.Coap.{
  CoapOption, Packet, out_of_fuel, by_number, confirmable, marshal, parse, parse_options,
  parse_option, decode_extended, parse_payload, write_options, write_option, encode_extended,
  write_payload,
}
use spark_server.Protocol.Coap.RoundTrip.{IsWire, parse-marshal, marshal-ok_iff}
use spark_server.Protocol.Coap.Parsed.{parse_terminates, parse-IsWire}
use spark_server.Protocol.Coap.Helpers
use spark_server.Protocol.Particle
use spark_server.Protocol.Framing
use spark_server.Protocol.Framing.Stream.{
  read_frame-write_frame, read_frame_unique, default_never_too_large,
}
use spark_server.Protocol.Session.{Crypto, Codec, encrypt, decrypt, mac, pkcs7_pad, pkcs7_unpad}
use spark_server.Protocol.Session
use spark_server.Protocol.Session.Padding.{unpad-pad, unpad-ok_iff, IsPadded}
use spark_server.Protocol.Session.RoundTrip.{decrypt-encrypt, decrypt_forged, decrypt-ok}
use spark_server.Protocol.Handshake
use spark_server.Protocol.Handshake.Opened.{handshake-marshal_request}
use spark_server.Protocol.Handshake.RoundTrip.{
  parse_request-marshal_request, marshal_request-parse_request, IsSendable,
}

by_number-asym : (x y : CoapOption) → by_number y x ≡ true → by_number x y ≡ false
by_number-asym x y h = ground arith

by_number-chain :
    (x y z : CoapOption) → by_number y x ≡ false → by_number z y ≡ false → by_number z x ≡ false
by_number-chain x y z h k = ground arith

abbrev by_number_order : IsOrder by_number
by_number_order = record { asym = by_number-asym; chain = by_number-chain }

abbrev sorting : Sorting by_number
sorting = insertion by_number by_number_order

-- A function call as the client sends it, its query option before its path.
abbrev call : Packet
call = record {
  version = 0;
  type = confirmable;
  code = 2;
  message_id = 0x1234;
  token = 1 ∷ 2 ∷ [];
  options =
      record { number = 15; value = codes "arg=on" }
      ∷ record { number = 11; value = codes "f" }
      ∷ [];
  payload = codes "on";
}

call-IsWire : IsWire call
call-IsWire = record {
  version = refl;
  type = omega arith;
  message_id = omega arith;
  token = omega arith;
  options = (
    record { number = omega arith; value = omega arith },
    (record { number = omega arith; value = omega arith }, tt),
  );
}

parse-marshal_example :
    (marshal sorting call >>= parse)
    ≡ ok (record call { version = 1; options = sorting.sort call.options })
parse-marshal_example = parse-marshal sorting call call-IsWire

abbrev wire : Bytes
wire = 0x42 ∷ 2 ∷ 0x12 ∷ 0x34 ∷ 1 ∷ 2 ∷ 0xb1 ∷ b'f' ∷ 0x46 ∷ codes "arg=on" ++ 0xff ∷ codes "on"

abbrev received : Packet
received = record call {
  version = 1;
  options =
      record { number = 11; value = codes "f" }
      ∷ record { number = 15; value = codes "arg=on" }
      ∷ [];
}

wire_parsed : parse wire ≡ ok received
unfolding parse parse_options parse_option decode_extended parse_payload
wire_parsed = refl

call_marshalled : marshal sorting call ≡ ok wire
unfolding marshal write_options insertion write_option encode_extended write_payload
call_marshalled = refl

marshal-ok_iff_example :
    ((bytes : Bytes) × (marshal sorting call ≡ ok bytes)) ↔ (◌≡◌ {A = ℕ} 1 1 × (2 ≤ 8))
marshal-ok_iff_example = marshal-ok_iff sorting call

parse-IsWire_example : IsWire received
parse-IsWire_example = parse-IsWire wire received (omega arith) wire_parsed

parse_terminates_example : parse wire ≢ err out_of_fuel
parse_terminates_example = parse_terminates wire

abbrev frame : Bytes
frame = codes "hello"

read_frame-write_frame_example :
    (Framing.write_frame frame >>= λ bytes. ok (Framing.read_frame 64 (bytes ++ codes "next")))
    ≡ ok (ok frame, codes "next")
read_frame-write_frame_example =
    read_frame-write_frame 64 frame (codes "next") (omega arith) (omega arith)

abbrev framed : Bytes
framed = 0 ∷ 5 ∷ codes "hello" ++ codes "next"

read_frame_unique_example : (framed ≡ put_u16 5 ++ (frame ++ codes "next")) × (length frame ≤ 64)
unfolding Framing.read_frame Framing.read_full Framing.read_body
read_frame_unique_example = read_frame_unique 64 framed frame (codes "next") (omega arith) refl

default_never_too_large_example :
    (Framing.read_frame (Framing.reader_max 0) framed).0 ≢ err (Framing.frame_too_large 65537 65536)
default_never_too_large_example = default_never_too_large framed 65537 65536 (omega arith)

unpad-pad_example :
    (pkcs7_unpad (pkcs7_pad frame 16) 16 ≡ ok frame)
    × (length (pkcs7_pad frame 16) % 16 ≡ 0)
    × (length frame < length (pkcs7_pad frame 16))
    × (length (pkcs7_pad frame 16) ≤ length frame + 16)
unpad-pad_example = unpad-pad frame 16 (omega arith) (omega arith)

unpad-ok_iff_example : (pkcs7_unpad frame 16 ≡ ok []) ↔ IsPadded frame [] 16
unpad-ok_iff_example = unpad-ok_iff frame [] 16

-- The blocks as they are, and their number of bytes as the MAC.
abbrev toy_mac : Bytes → Bytes → Bytes
toy_mac key bytes = replicate 20 (length bytes % 256)

abbrev toy : Crypto
toy = record {
  cbc_encrypt = λ key iv blocks. blocks;
  cbc_decrypt = λ key iv blocks. blocks;
  hmac_sha1 = toy_mac;
  length-cbc_encrypt = λ key iv blocks. refl;
  length-hmac = λ key bytes. refl;
  decrypt-encrypt = λ key iv blocks h b. refl;
}

abbrev keys : Codec
keys = record { encryption_key = replicate 16 7; mac_key = replicate 16 7 }

decrypt-encrypt_example :
    (encrypt toy (ok (replicate 16 9)) keys frame >>= decrypt toy keys) ≡ ok frame
decrypt-encrypt_example = decrypt-encrypt toy keys refl (replicate 16 9) frame refl (omega arith)

abbrev message : Bytes
message = replicate 16 9 ++ (frame ++ (replicate 11 11 ++ replicate 20 32))

decrypt-ok_example :
    (authenticated : Bytes) × (message ≡ authenticated ++ mac toy keys authenticated)
    × (32 ≤ length authenticated)
    × IsPadded (drop 16 authenticated) frame 16
unfolding decrypt mac pkcs7_unpad Session.new_cipher Session.all_equal
decrypt-ok_example = decrypt-ok toy keys refl message frame refl

differs : replicate 20 1 ≢ mac toy keys (replicate 32 5)
unfolding mac
differs e = ground arith

decrypt_forged_example :
    decrypt toy keys (replicate 32 5 ++ replicate 20 1) ≡ err Session.invalid_mac
decrypt_forged_example =
    decrypt_forged toy keys refl (replicate 32 5) (replicate 20 1) (omega arith) refl differs

abbrev hello : Handshake.Request
hello = record { version = 0; device_id = codes "d1"; encrypted_session_key = 1 ∷ 2 ∷ 3 ∷ [] }

hello-IsSendable : IsSendable hello
unfolding Handshake.validate_device_id Handshake.has_separator
hello-IsSendable = record {
  version = refl;
  valid = refl;
  id_size = omega arith;
  key_some = omega arith;
  key_size = omega arith;
}

parse_request-marshal_request_example :
    (Handshake.marshal_request hello >>= Handshake.parse_request)
    ≡ ok (record hello { version = 1 })
parse_request-marshal_request_example = parse_request-marshal_request hello hello-IsSendable

abbrev hello_frame : Bytes
hello_frame = 1 ∷ 2 ∷ codes "d1" ++ (0 ∷ 3 ∷ 1 ∷ 2 ∷ 3 ∷ [])

marshal_request-parse_request_example :
    Handshake.marshal_request (record hello { version = 1 }) ≡ ok hello_frame
unfolding Handshake.parse_request Handshake.parse_hello Handshake.parse_session_key
    Handshake.validate_device_id Handshake.has_separator
marshal_request-parse_request_example =
    marshal_request-parse_request hello_frame (record hello { version = 1 }) (omega arith) refl

path-and-query_options_example :
    let options =
      Particle.options_for_path_and_query
        (codes "f" ∷ [] ∷ codes "led" ∷ [])
        (codes "arg=on" ∷ []) in
    (Helpers.segments_of options ≡ codes "f" ∷ codes "led" ∷ [])
    × (Helpers.query_of options ≡ Helpers.cut_equals (codes "arg=on") ∷ [])
path-and-query_options_example =
    Particle.path-and-query_options (codes "f" ∷ [] ∷ codes "led" ∷ []) (codes "arg=on" ∷ [])

abbrev hello_wire : Bytes
hello_wire = 0 ∷ 9 ∷ hello_frame

abbrev load : Result Handshake.Error (Unit {0})
load = ok tt

abbrev open_key : Unit {0} → Bytes → Result Handshake.Error Bytes
open_key key bytes = ok (bytes ++ bytes)

hello-marshalled : Handshake.marshal_request hello ≡ ok hello_frame
unfolding Handshake.marshal_request Handshake.validate_device_id Handshake.has_separator
hello-marshalled = refl

hello-written : Framing.write_frame hello_frame ≡ ok hello_wire
unfolding Framing.write_frame
hello-written = refl

handshake-marshal_request_example :
    Handshake.handshake load open_key false (hello_wire ++ codes "next") ≡ (
      ok (record { device_id = hello.device_id; session_key = 1 ∷ 2 ∷ 3 ∷ 1 ∷ 2 ∷ 3 ∷ [] }),
      codes "next",
    )
handshake-marshal_request_example =
    handshake-marshal_request load open_key tt hello hello_frame hello_wire (codes "next")
      (1 ∷ 2 ∷ 3 ∷ 1 ∷ 2 ∷ 3 ∷ []) hello-IsSendable hello-marshalled hello-written refl refl
