-- ===== src/P2p/Streams.antt =====
-- internal/p2p/libp2p_protocols.go: the handlers of a node's streams. A line that could not be read is
-- `none`; of a line that was read, `none` is one that is no JSON of the type.
pub mod Proxied
use gpuswarm.Common.{
  ℕ, Bool, true, false, Option, none, some, Str, str, is_empty, trim_space, List, [], ◌∷◌, ◌++◌,
  if◌then◌else◌, Result, ok, err,
}
use gpuswarm.Common.Int.{ℤ, pos, eqb_ℤ, leb_ℤ}
use gpuswarm.Model.{ChatCompletionRequest, PeerContext, CapabilityDocument}
use gpuswarm.P2p.Context.{metadata_context}
use gpuswarm.P2p.Gateway.{InferResponseHeader, GatewayResponse}
use gpuswarm.P2p.Registry.{Node, upsert_registry_capability}

-- What a handler writes: nothing, or a header line and what follows it.
abbrev pub StreamReply : Type 0
StreamReply = Option (InferResponseHeader × Str)

unfoldable pub refusal : ℤ → Str → StreamReply
refusal status error = some (record { status_code = status; content_type = []; error = error }, [])

-- The handler of RegisterInferHandler; `infer` is the provider's Infer, with its cleanup after it.
unfoldable pub serve_answer : Result Str GatewayResponse → StreamReply
serve_answer (err e) = refusal (pos 502) e
serve_answer (ok res) = some (
  record {
    status_code = if eqb_ℤ res.status_code (pos 0) then pos 200 else res.status_code;
    content_type = res.content_type;
    error = [];
  },
  res.body,
)

unfoldable pub serve_infer :
    (ChatCompletionRequest → PeerContext → Result Str GatewayResponse)
    → Option (Option ChatCompletionRequest)
    → StreamReply
serve_infer infer none = none
serve_infer infer (some none) = refusal (pos 400) (str "invalid json")
serve_infer infer (some (some req)) = serve_answer (infer req (metadata_context req))

pub record InferProxyRequest : Type 0 where
  pub target_peer_id : Str
  pub request : ChatCompletionRequest

-- How far the stream to the target got.
pub data Upstream : Type 0 where
  dial_failed write_failed read_failed : Str → Upstream
  marshal_failed invalid_header : Upstream
  replied : InferResponseHeader → Str → Upstream

unfoldable pub forward : Upstream → StreamReply
forward (dial_failed e) = refusal (pos 502) (str "proxy dial failed: " ++ e)
forward marshal_failed = refusal (pos 400) (str "proxy marshal failed")
forward (write_failed e) = refusal (pos 502) (str "proxy write failed: " ++ e)
forward (read_failed e) = refusal (pos 502) (str "proxy read header failed: " ++ e)
forward invalid_header = refusal (pos 502) (str "proxy invalid upstream header")
forward (replied hdr body) = some (hdr, if leb_ℤ (pos 400) hdr.status_code then [] else body)

-- The target that a proxy request names; `decode` is peer.Decode.
unfoldable pub proxy_target :
    (Str → Result Str Str)
    → (Str → ChatCompletionRequest → Upstream)
    → InferProxyRequest
    → StreamReply
proxy_target decode upstream preq =
    let target = trim_space preq.target_peer_id in
    if is_empty target
    then refusal (pos 400) (str "missing target peer id")
    else elim (decode target) [
      | err e ↦ refusal (pos 400) (str "invalid target peer id")
      | ok target_id ↦ forward (upstream target_id preq.request)
    ]

-- The handler of RegisterInferProxyHandler.
unfoldable pub serve_proxy :
    (Str → Result Str Str)
    → (Str → ChatCompletionRequest → Upstream)
    → Option (Option InferProxyRequest)
    → StreamReply
serve_proxy decode upstream none = refusal (pos 400) (str "invalid proxy request")
serve_proxy decode upstream (some none) = refusal (pos 400) (str "invalid proxy json")
serve_proxy decode upstream (some (some preq)) = proxy_target decode upstream preq

-- The error in the answer to an announcement; `none` is OK.
unfoldable pub serve_announce :
    {F : Type 0} → Node F → Option (CapabilityDocument F) → ℕ → Node F × Option Str
serve_announce n none now = (n, some (str "invalid registry announce payload"))
serve_announce n (some cap) now =
    if is_empty (trim_space cap.peer_id)
    then (n, some (str "missing peer id"))
    else (upsert_registry_capability n cap now, none)
