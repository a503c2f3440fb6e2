-- ===== src/Protocol/Particle.antt =====
-- internal/protocol/particle/paths.go: path segments and queries as options.
use spark_server.Base.{
  ℕ, ◌≡◌, refl, ap, ◌∙◌, List, [], ◌∷◌, ◌++◌, Bytes, same_bytes, if◌then◌else◌, codes,
}
use spark_server.Protocol.Coap.{CoapOption}
use spark_server.Protocol.Coap.Helpers.{
  option_uri_path, option_uri_query, segments_of, cut_equals, query_of,
}

abbrev pub path_variable : Bytes
path_variable = codes "variable"

abbrev pub path_function : Bytes
path_function = codes "function"

abbrev pub path_ping : Bytes
path_ping = codes "ping"

abbrev pub path_update : Bytes
path_update = codes "u"

abbrev pub path_chunk_short : Bytes
path_chunk_short = codes "c"

abbrev pub query_argument : Bytes
query_argument = codes "arg"

-- The loop that both functions of the file run, over the non-empty texts.
unfoldable pub options_numbered : ℕ → List Bytes → List CoapOption
options_numbered number [] = []
options_numbered number (text ∷ rest) =
    let more = options_numbered number rest in
    if same_bytes text [] then more else record { number = number; value = text } ∷ more

unfoldable pub options_for_path : List Bytes → List CoapOption
options_for_path segments = options_numbered option_uri_path segments

unfoldable pub options_for_path_and_query : List Bytes → List Bytes → List CoapOption
options_for_path_and_query segments query =
    options_for_path segments ++ options_numbered option_uri_query query

-- The texts that are not empty.
abbrev pub non_empty : List Bytes → List Bytes
non_empty [] = []
non_empty ([] ∷ rest) = non_empty rest
non_empty ((b ∷ bs) ∷ rest) = (b ∷ bs) ∷ non_empty rest

abbrev pub cuts : List Bytes → List (Bytes × Bytes)
cuts [] = []
cuts (q ∷ rest) = cut_equals q ∷ cuts rest

segments-query : (query : List Bytes) → segments_of (options_numbered option_uri_query query) ≡ []
unfolding options_numbered segments_of
segments-query [] = refl
segments-query ([] ∷ rest) = segments-query rest
segments-query ((b ∷ bs) ∷ rest) = segments-query rest

query-query :
    (query : List Bytes)
    → query_of (options_numbered option_uri_query query) ≡ cuts (non_empty query)
unfolding options_numbered query_of
query-query [] = refl
query-query ([] ∷ rest) = query-query rest
query-query ((b ∷ bs) ∷ rest) = ap (λ l. cut_equals (b ∷ bs) ∷ l) (query-query rest)

segments-path :
    (segments : List Bytes) (more : List CoapOption)
    → segments_of more ≡ []
    → segments_of (options_numbered option_uri_path segments ++ more) ≡ non_empty segments
unfolding options_numbered segments_of
segments-path [] more h = h
segments-path ([] ∷ rest) more h = segments-path rest more h
segments-path ((b ∷ bs) ∷ rest) more h = ap (λ l. (b ∷ bs) ∷ l) (segments-path rest more h)

query-path :
    (segments : List Bytes) (more : List CoapOption)
    → query_of (options_numbered option_uri_path segments ++ more) ≡ query_of more
unfolding options_numbered query_of
query-path [] more = refl
query-path ([] ∷ rest) more = query-path rest more
query-path ((b ∷ bs) ∷ rest) more = query-path rest more

-- The options of a path and a query hold the non-empty segments in their order as the path, and the
-- non-empty query texts in theirs, each cut at its first `=`, as the query values.
pub path-and-query_options :
    (segments query : List Bytes)
    → (segments_of (options_for_path_and_query segments query) ≡ non_empty segments)
      × (query_of (options_for_path_and_query segments query) ≡ cuts (non_empty query))
unfolding options_for_path_and_query options_for_path
path-and-query_options segments query = (
  segments-path segments (options_numbered option_uri_query query) (segments-query query),
  query-path segments (options_numbered option_uri_query query) ∙ query-query query,
)
