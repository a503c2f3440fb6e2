-- ===== src/Protocol/Handshake.antt =====
-- internal/protocol/handshake/handshake.go: the device hello, its parser and its writer.
pub mod RoundTrip
pub mod Opened
use spark_server.Base.{
  ℕ, zero, suc, ◌+◌, ◌-◌, ◌*◌, ◌%◌, ◌≤◌, ◌<◌, ◌≡◌, Bool, true, false, ◌||◌, ◌&&◌, not, List, [],
  ◌∷◌, ◌++◌, Bytes, put_u16, get_u16, codes, same_bytes, Result, ok, err, ◌>>=◌, ◌>>◌, refuse_if,
  length, take, drop, ltb, ◌==◌, if◌then◌else◌,
}
use spark_server.Protocol.Framing
use spark_server.Protocol.Session.{Session}

abbrev pub current_version : ℕ
current_version = 1

pub record Request : Type 0 where
  pub version : ℕ
  pub device_id : Bytes
  pub encrypted_session_key : Bytes

-- `unknown_version` wraps `ErrUnknownVersion`, the others `ErrInvalidFrame`; the last four come
-- from the frame reader, the context, the key manager and the decryption of the session key.
pub data Error : Type 0 where
  unknown_version : ℕ → Error
  too_short missing_device_id truncated_device_id invalid_device_id : Error
  missing_session_key session_key_length_mismatch invalid_session_key_length : Error
  device_id_too_long : Error
  framing : Framing.Error → Error
  cancelled no_private_key decryption_failed : Error

-- `strings.ContainsAny(id, "/\\")`.
unfoldable pub has_separator : Bytes → Bool
has_separator [] = false
has_separator (c ∷ cs) = (c == 0x2f || c == 0x5c) || has_separator cs

unfoldable pub validate_device_id : Bytes → Result Error (Unit {0})
validate_device_id id = do
  refuse_if (same_bytes id [] || (same_bytes id (codes ".") || same_bytes id (codes "..")))
      invalid_device_id
  refuse_if (has_separator id) invalid_device_id

abbrev pub default_version : ℕ → ℕ
default_version v = if v == 0 then current_version else v

unfoldable pub marshal_request : Request → Result Error Bytes
marshal_request request = do
  let version = default_version request.version
  refuse_if (not (version == current_version)) (unknown_version version)
  validate_device_id request.device_id
  refuse_if
      (length request.encrypted_session_key == 0
        || ltb 0xffff (length request.encrypted_session_key))
      invalid_session_key_length
  refuse_if (ltb 0xff (length request.device_id)) device_id_too_long
  ok (
      version ∷ (length request.device_id % 256) ∷ request.device_id
      ++ (put_u16 (length request.encrypted_session_key) ++ request.encrypted_session_key))

-- The part of `ParseRequest` behind the device ID: the key's length and the key.
unfoldable pub parse_session_key : Bytes → Result Error Bytes
parse_session_key (hi ∷ lo ∷ key) = do
  refuse_if (get_u16 hi lo == 0) missing_session_key
  refuse_if (not (length key == get_u16 hi lo)) session_key_length_mismatch
  ok key
parse_session_key _ = err truncated_device_id

-- `ParseRequest` behind its test of the frame's size; `body` is the frame from offset 2 on.
unfoldable pub parse_hello : ℕ → ℕ → Bytes → Result Error Request
parse_hello version id_length body = do
  refuse_if (not (version == current_version)) (unknown_version version)
  refuse_if (id_length == 0) missing_device_id
  refuse_if (ltb (length body) (id_length + 2)) truncated_device_id
  let id = take id_length body
  validate_device_id id
  key ← parse_session_key (drop id_length body)
  ok (record { version = version; device_id = id; encrypted_session_key = key })

unfoldable pub parse_request : Bytes → Result Error Request
parse_request (version ∷ id_length ∷ b ∷ c ∷ rest) = parse_hello version id_length (b ∷ c ∷ rest)
parse_request _ = err too_short

abbrev framed : Result Framing.Error Bytes → Result Error Bytes
framed (ok frame) = ok frame
framed (err e) = err (framing e)

module _ {Key : Type 0} (load_server_private_key : Result Error Key)
    (decrypt_pkcs1v15 : Key → Bytes → Result Error Bytes) where
  -- The part of `Handshake` behind the frame.
  unfoldable pub open_session : Bytes → Result Error Session
  open_session frame = do
    request ← parse_request frame
    private_key ← load_server_private_key
    session_key ← decrypt_pkcs1v15 private_key request.encrypted_session_key
    ok (record { device_id = request.device_id; session_key = session_key })

  -- `Handshake` over the stream, with the private key and the RSA decryption as parameters; `done`
  -- is the test of the context.
  unfoldable pub handshake : Bool → Bytes → Result Error Session × Bytes
  handshake done stream =
      let (frame, rest) =
        Framing.read_frame (Framing.reader_max Framing.default_max_frame_size) stream in
      if done then (err cancelled, stream) else (framed frame >>= open_session, rest)
