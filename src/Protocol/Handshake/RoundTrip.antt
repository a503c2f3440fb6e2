-- ===== src/Protocol/Handshake/RoundTrip.antt =====
-- The parser and the writer of handshake.go are inverse to one another.
use spark_server.Base.{
  sym, ℕ, ◌+◌, ◌*◌, ◌/◌, ◌%◌, ◌≤◌, ◌<◌, ◌≡◌, refl, ap, ◌∙◌, false, ◌||◌, not, [], ◌∷◌, ◌++◌, Bytes,
  IsByte, subst, All, put_u16, ok, ◌>>=◌, refuse_if-eq-ok, bind-ok, ok-injective, length, take,
  drop, length-append, take-append, drop-append, take-append-drop, length-take, arith, ltb, le→ltb,
  ◌==◌, ◌↔◌, All-drop,
}
use spark_server.Protocol.Handshake.{
  Request, validate_device_id, default_version, marshal_request, parse_session_key, parse_hello,
  parse_request,
}

validate-tt :
    (id : Bytes) {u : Unit {0}} → validate_device_id id ≡ ok u → validate_device_id id ≡ ok tt
validate-tt id e = e

parse_session_key-put :
    (key : Bytes)
    → 0 < length key
    → length key < 65536
    → parse_session_key (put_u16 (length key) ++ key) ≡ ok key
unfolding parse_session_key
parse_session_key-put key h fits =
    let size : length key / 256 % 256 * 256 + length key % 256 ≡ length key = omega arith in
    rw size (ground arith)

-- The bytes of a request that can be written.
encoding : Request → Bytes
encoding r =
    1 ∷ length r.device_id ∷ r.device_id
    ++ (put_u16 (length r.encrypted_session_key) ++ r.encrypted_session_key)

-- What `MarshalRequest` asks of a request.
pub record IsSendable (r : Request) : Type 0 where
  pub version : default_version r.version ≡ 1
  pub valid : validate_device_id r.device_id ≡ ok tt
  pub id_size : length r.device_id < 256
  pub key_some : 0 < length r.encrypted_session_key
  pub key_size : length r.encrypted_session_key < 65536

marshal-encoding : (r : Request) → IsSendable r → marshal_request r ≡ ok (encoding r)
unfolding marshal_request encoding
marshal-encoding r s =
    let wrap : length r.device_id % 256 ≡ length r.device_id = ground (arith, s.id_size) in
    let key_ok : (length r.encrypted_session_key == 0
          || ltb 0xffff (length r.encrypted_session_key))
        ≡ false =
      ground (arith, s.key_some, s.key_size) in
    rw (
      s.version,
      s.valid,
      key_ok,
      le→ltb 255 (length r.device_id) (ground (arith, s.id_size)),
      wrap,
    )

-- A valid device ID is not empty.
valid_id : (id : Bytes) → validate_device_id id ≡ ok tt → (b : ℕ) × (bs : Bytes) × (id ≡ b ∷ bs)
unfolding validate_device_id
valid_id [] e = cc
valid_id (b ∷ bs) e = (b, bs, refl)

parse_request_lem :
    (version id_length : ℕ) (body : Bytes)
    → 2 ≤ length body
    → parse_request (version ∷ id_length ∷ body) ≡ parse_hello version id_length body
unfolding parse_request
parse_request_lem version id_length [] h = absurd (omega arith)
parse_request_lem version id_length (b ∷ []) h = absurd (omega arith)
parse_request_lem version id_length (b ∷ c ∷ rest) h = refl

parse_hello_fields :
    (id tail key : Bytes)
    → validate_device_id id ≡ ok tt
    → 2 ≤ length tail
    → parse_session_key tail ≡ ok key
    → parse_hello 1 (length id) (id ++ tail)
      ≡ ok (record { version = 1; device_id = id; encrypted_session_key = key })
unfolding parse_hello
parse_hello_fields id tail key v long k =
    let (b, bs, e) = valid_id id v in
    let some_id : (length id == 0) ≡ false = ground (arith, ap length e) in
    rw (
      some_id,
      length-append id tail,
      le→ltb (length id + length tail) (length id + 2) (omega arith),
      take-append (length id) id tail refl,
      drop-append (length id) id tail refl,
      v,
      k,
    )

-- A request that can be sent is parsed as it was, with the current version.
pub parse_request-marshal_request :
    (r : Request)
    → IsSendable r
    → (marshal_request r >>= parse_request) ≡ ok (record r { version = 1 })
unfolding encoding
parse_request-marshal_request r s =
    let tail = put_u16 (length r.encrypted_session_key) ++ r.encrypted_session_key in
    let size = length-append r.device_id tail in
    rw (marshal-encoding r s) (
      parse_request_lem 1 (length r.device_id) (r.device_id ++ tail) (omega (arith, size))
      ∙ parse_hello_fields r.device_id tail r.encrypted_session_key s.valid (omega arith)
          (parse_session_key-put r.encrypted_session_key s.key_some s.key_size))

marshal-IsSendable : (r : Request) (bytes : Bytes) → marshal_request r ≡ ok bytes → IsSendable r
unfolding marshal_request
marshal-IsSendable r bytes e =
    let size = length r.encrypted_session_key in
    let (v, e1) = refuse_if-eq-ok (not (default_version r.version == 1)) _ _ e in
    let (u, valid, e2) = bind-ok (validate_device_id r.device_id) _ (sym e1) in
    let (k, e3) = refuse_if-eq-ok (size == 0 || ltb 0xffff size) _ _ e2 in
    let (l, e4) = refuse_if-eq-ok (ltb 0xff (length r.device_id)) _ _ e3 in
    record {
      version = ground arith;
      valid = valid;
      id_size = ground arith;
      key_some = ground arith;
      key_size = ground arith;
    }

-- `MarshalRequest` returns bytes exactly for a request that can be sent.
pub marshal_request-ok_iff :
    (r : Request) → ((bytes : Bytes) × (marshal_request r ≡ ok bytes)) ↔ IsSendable r
marshal_request-ok_iff r =
    (λ h. marshal-IsSendable r h.0 h.1, λ s. (encoding r, marshal-encoding r s))

parse_session_key-ok :
    (tail key : Bytes)
    → All IsByte tail
    → parse_session_key tail ≡ ok key
    → (tail ≡ put_u16 (length key) ++ key) × (0 < length key) × (length key < 65536)
unfolding parse_session_key
parse_session_key-ok [] key hb e = cc
parse_session_key-ok (hi ∷ []) key hb e = cc
parse_session_key-ok (hi ∷ lo ∷ rest) key hb e =
    let (n, e1) = refuse_if-eq-ok (hi * 256 + lo == 0) _ _ e in
    let (l, e2) = refuse_if-eq-ok (not (length rest == hi * 256 + lo)) _ _ e1 in
    let size : length rest ≡ hi * 256 + lo = ground arith in
    let low : length rest % 256 ≡ lo = ground (arith, size) in
    let high : length rest / 256 % 256 ≡ hi = ground (arith, size) in
    subst
      (λ (xs : Bytes).
        (hi ∷ lo ∷ rest ≡ put_u16 (length xs) ++ xs) × (0 < length xs) × (length xs < 65536))
      (ok-injective e2) ((rw (low, high), ground arith, ground arith))

frame_eq :
    (r : Request) (version id_length : ℕ) (body : Bytes)
    → version ≡ 1
    → length (take id_length body) ≡ id_length
    → drop id_length body ≡ put_u16 (length r.encrypted_session_key) ++ r.encrypted_session_key
    → take id_length body ≡ r.device_id
    → encoding r ≡ version ∷ id_length ∷ body
unfolding encoding
frame_eq r version id_length body v n tail front =
    rw (v, ← front, n, ← tail, take-append-drop id_length body)

-- A frame that is parsed is the one that the writer makes of the request it was parsed to: there is
-- one frame for each request, and nothing of a frame is ignored.
pub marshal_request-parse_request :
    (frame : Bytes) (r : Request)
    → All IsByte frame
    → parse_request frame ≡ ok r
    → marshal_request r ≡ ok frame
unfolding parse_request parse_hello
marshal_request-parse_request [] r hb e = cc
marshal_request-parse_request (a ∷ []) r hb e = cc
marshal_request-parse_request (a ∷ b ∷ []) r hb e = cc
marshal_request-parse_request (a ∷ b ∷ c ∷ []) r hb e = cc
marshal_request-parse_request (version ∷ id_length ∷ c ∷ d ∷ rest) r hb e =
    let body = c ∷ d ∷ rest in
    let (v, e1) = refuse_if-eq-ok (not (version == 1)) _ _ e in
    let (n, e2) = refuse_if-eq-ok (id_length == 0) _ _ e1 in
    let (l, e3) = refuse_if-eq-ok (ltb (length body) (id_length + 2)) _ _ e2 in
    let (u, valid, e4) = bind-ok (validate_device_id (take id_length body)) _ (sym e3) in
    let (key, k, e5) = bind-ok (parse_session_key (drop id_length body)) _ (sym e4) in
    let within : id_length ≤ length body = ground arith in
    let (tail_eq, key_some, key_size) =
      parse_session_key-ok (drop id_length body) key (All-drop IsByte id_length body hb.1.1) k in
    let id_size = length-take id_length body within in
    let current : version ≡ 1 = ground arith in
    let sent : Request = record {
      version = version;
      device_id = take id_length body;
      encrypted_session_key = key;
    } in
    let sendable : IsSendable sent = record {
      version = ground arith;
      valid = valid;
      id_size = omega (arith, id_size, hb.1.0);
      key_some = key_some;
      key_size = key_size;
    } in
    subst (λ (q : Request). marshal_request q ≡ ok (version ∷ id_length ∷ body)) (ok-injective e5)
      (marshal-encoding sent sendable
        ∙ ap ok (frame_eq sent version id_length body current id_size tail_eq refl))
