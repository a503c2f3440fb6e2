-- ===== src/Protocol/Coap/Helpers.antt =====
-- internal/protocol/coap/helpers.go: paths and queries of a packet, and its response.
-- `url.Values` is a list of pairs: `Add` appends one, and `Get` finds the first of a key.
use spark_server.Base.{ℕ, List, [], ◌∷◌, ◌++◌, Bytes, same_bytes, ◌==◌, if◌then◌else◌}
use spark_server.Protocol.Coap.{CoapOption, Packet, version1, non_confirmable, acknowledgement}

abbrev pub code_empty : ℕ
code_empty = 0

abbrev pub code_get : ℕ
code_get = 1

abbrev pub code_post : ℕ
code_post = 2

abbrev pub code_put : ℕ
code_put = 3

abbrev pub code_created : ℕ
code_created = 65

abbrev pub code_valid : ℕ
code_valid = 67

abbrev pub code_changed : ℕ
code_changed = 68

abbrev pub code_content : ℕ
code_content = 69

abbrev pub code_bad_request : ℕ
code_bad_request = 128

abbrev pub option_uri_path : ℕ
option_uri_path = 11

abbrev pub option_uri_query : ℕ
option_uri_query = 15

-- The loop of `PathSegments`.
unfoldable pub segments_of : List CoapOption → List Bytes
segments_of [] = []
segments_of (option ∷ options) =
    let rest = segments_of options in
    if option.number == option_uri_path
    then (if same_bytes option.value [] then rest else option.value ∷ rest)
    else rest

unfoldable pub path_segments : Packet → List Bytes
path_segments packet = segments_of packet.options

-- `strings.Join(segments, "/")`.
unfoldable pub join_slash : List Bytes → Bytes
join_slash [] = []
join_slash (s ∷ []) = s
join_slash (s ∷ t ∷ rest) = s ++ 0x2f ∷ join_slash (t ∷ rest)

unfoldable pub path : Packet → Bytes
path packet = join_slash (path_segments packet)

-- `strings.Cut(s, "=")`; without a separator the whole is the key and the value is empty, which is
-- what `QueryValues` adds in that case.
unfoldable pub cut_equals : Bytes → Bytes × Bytes
cut_equals [] = ([], [])
cut_equals (b ∷ bs) =
    let (key, value) = cut_equals bs in if b == 0x3d then ([], bs) else (b ∷ key, value)

unfoldable pub query_of : List CoapOption → List (Bytes × Bytes)
query_of [] = []
query_of (option ∷ options) =
    let rest = query_of options in
    if option.number == option_uri_query then cut_equals option.value ∷ rest else rest

unfoldable pub query_values : Packet → List (Bytes × Bytes)
query_values packet = query_of packet.options

-- `url.Values.Get`: the first value of the key, or the empty string.
unfoldable pub query_get : Bytes → List (Bytes × Bytes) → Bytes
query_get key [] = []
query_get key ((k, v) ∷ rest) = if same_bytes k key then v else query_get key rest

unfoldable pub response_for : Packet → ℕ → Bytes → Packet
response_for request code payload = record {
  version = version1;
  type = if request.type == non_confirmable then non_confirmable else acknowledgement;
  code = code;
  message_id = request.message_id;
  token = request.token;
  options = [];
  payload = payload;
}
