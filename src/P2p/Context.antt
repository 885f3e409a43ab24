-- ===== src/P2p/Context.antt =====
-- The peer context on its way: in the headers of an HTTP request (gateway_client.go, and
-- internal/api/server.go where it is read) and in a request's metadata (libp2p_protocols.go).
pub mod Carried
use gpuswarm.Common.{ℕ, Str, str, is_empty, List, [], ◌∷◌, Option, none, some, if◌then◌else◌}
use gpuswarm.Common.Numbers.{format_uint, parse_uint}
use gpuswarm.Common.Maps.{GoMap, lookup, insert}
use gpuswarm.Model.{PeerContext, ChatCompletionRequest}

abbrev pub header_client_peer_id : Str
header_client_peer_id = str "X-Infermesh-Client-Peer"

abbrev pub header_pow_nonce : Str
header_pow_nonce = str "X-Infermesh-Pow-Nonce"

abbrev pub header_client_name : Str
header_client_name = str "X-Infermesh-Client-Name"

-- An empty ID or name is not written.
unfoldable pub put_nonempty : Str → Str → GoMap Str → GoMap Str
put_nonempty k v m = if is_empty v then m else insert k v m

unfoldable pub put_context : PeerContext → GoMap Str → GoMap Str
put_context ctx m = insert header_pow_nonce (format_uint ctx.pow_nonce) (
    put_nonempty header_client_name ctx.client_name
      (put_nonempty header_client_peer_id ctx.client_peer_id m))

-- The headers that HTTPGatewayClient.Infer sets.
unfoldable pub http_headers : PeerContext → GoMap Str
http_headers ctx = put_context ctx ((str "Content-Type", str "application/json") ∷ [])

unfoldable pub metadata_or_empty : Option (GoMap Str) → GoMap Str
metadata_or_empty none = []
metadata_or_empty (some m) = m

-- The request that Libp2pGatewayClient.Infer sends.
unfoldable pub with_metadata : PeerContext → ChatCompletionRequest → ChatCompletionRequest
with_metadata ctx req = record req {
  metadata = some (put_context ctx (metadata_or_empty req.metadata));
}

-- A missing header, or key, reads as the empty text.
unfoldable pub value : Str → GoMap Str → Str
value k m = elim (lookup k m) [ none ↦ [] | some v ↦ v ]

-- An empty nonce, or one that is no number below 2^64, counts as 0.
unfoldable pub read_nonce : Str → ℕ
read_nonce raw = if is_empty raw then 0 else elim (parse_uint raw) [ none ↦ 0 | some n ↦ n ]

-- The context that HandleProviderInference reads from the headers.
unfoldable pub header_context : GoMap Str → PeerContext
header_context m = record {
  client_peer_id = value header_client_peer_id m;
  client_name = value header_client_name m;
  pow_nonce = read_nonce (value header_pow_nonce m);
}

-- The context that RegisterInferHandler reads from the metadata.
unfoldable pub metadata_context : ChatCompletionRequest → PeerContext
metadata_context req = header_context (metadata_or_empty req.metadata)
