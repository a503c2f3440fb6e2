-- ===== src/Protocol/Handshake/Opened.antt =====
-- `Handshake` on the stream of a device that sends its hello as `MarshalRequest` writes it.
use spark_server.Base.{
  ◌≡◌, refl, sym, ap, ◌∙◌, false, ◌++◌, Bytes, Result, ok, ◌>>=◌, IsU16, length, arith,
  ok-injective,
}
use spark_server.Protocol.Framing.{read_frame, write_frame, reader_max, default_max_frame_size}
use spark_server.Protocol.Framing.Stream.{read_frame-write_frame}
use spark_server.Protocol.Handshake.{
  Error, Request, marshal_request, parse_request, open_session, handshake,
}
use spark_server.Protocol.Handshake.RoundTrip.{IsSendable, parse_request-marshal_request}

written_fits : (frame wire : Bytes) → write_frame frame ≡ ok wire → IsU16 (length frame)
unfolding write_frame
written_fits frame wire e = ground arith

read_back :
    (frame wire rest : Bytes)
    → write_frame frame ≡ ok wire
    → read_frame (reader_max default_max_frame_size) (wire ++ rest) ≡ (ok frame, rest)
unfolding reader_max
read_back frame wire rest e =
    let fits = written_fits frame wire e in
    ok-injective (
      sym (ap (λ r. r >>= λ bytes. ok (read_frame default_max_frame_size (bytes ++ rest))) e)
      ∙ read_frame-write_frame default_max_frame_size frame rest (omega (arith, fits)) fits)

-- A device that frames a hello which can be sent gets a session with its ID and with what the
-- private key decrypts its session key to, and what follows the frame is left in the stream.
pub handshake-marshal_request :
    {Key : Type 0} (load : Result Error Key) (decrypt : Key → Bytes → Result Error Bytes)
    (key : Key) (r : Request) (frame wire rest session_key : Bytes)
    → IsSendable r
    → marshal_request r ≡ ok frame
    → write_frame frame ≡ ok wire
    → load ≡ ok key
    → decrypt key r.encrypted_session_key ≡ ok session_key
    → handshake load decrypt false (wire ++ rest)
      ≡ (ok (record { device_id = r.device_id; session_key = session_key }), rest)
unfolding handshake open_session
handshake-marshal_request load decrypt key r frame wire rest session_key s framed written loaded
      decrypted =
    let parsed : parse_request frame ≡ ok (record r { version = 1 }) =
      sym (ap (λ m. m >>= parse_request) framed) ∙ parse_request-marshal_request r s in
    rw (read_back frame wire rest written, parsed, loaded, decrypted) refl
