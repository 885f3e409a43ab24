-- ===== src/P2p/Wire.antt =====
-- internal/p2p/libp2p_protocols.go: tryDirect and tryProxy, the client's side of the streams of
-- inference. The streams, JSON and the handlers at the other ends are an interface.
pub mod Delivered
use gpuswarm.Common.{ℕ, Option, none, some, Str, str, Result, ok, err}
use gpuswarm.Model.{ChatCompletionRequest}
use gpuswarm.P2p.Gateway.{GatewayResponse}
use gpuswarm.P2p.Streams.{StreamReply, InferProxyRequest}
use gpuswarm.P2p.Streams.Proxied.{read_reply}

abbrev pub inference_protocol_id : Str
inference_protocol_id = str "/infermesh/infer/1.0.0"

abbrev pub infer_proxy_protocol_id : Str
infer_proxy_protocol_id = str "/infermesh/infer-proxy/1.0.0"

-- For a number of the attempt, a protocol and a peer: the errors of NewStream and Write, if any, and
-- what the peer's handler replies to a line. `no_reply` is the error of reading where there is none.
pub record Wire : Type 0 where
  pub marshal : ChatCompletionRequest → Result Str Str
  pub marshal_proxy : InferProxyRequest → Result Str Str
  pub new_stream : ℕ → Str → Str → Option Str
  pub write : ℕ → Str → Str → Option Str
  pub reply : ℕ → Str → Str → Str → StreamReply
  pub no_reply : Str
  -- The text that fmt.Errorf makes of a format with no arguments.
  pub errorf : Str → Str

unfoldable pub unless_failed : Option Str → Result Str GatewayResponse → Result Str GatewayResponse
unless_failed (some e) r = err e
unless_failed none r = r

module _ (wire : Wire) where
  open wire use {marshal, marshal_proxy, new_stream, write, reply, no_reply, errorf}

  -- inferOverStream on an open stream, once the request is marshalled.
  unfoldable pub over_stream : ℕ → Str → Str → Result Str Str → Result Str GatewayResponse
  over_stream i protocol pid (err e) = err e
  over_stream i protocol pid (ok payload) =
      unless_failed (write i protocol pid)
        (read_reply errorf no_reply (reply i protocol pid payload))

  unfoldable pub try_direct : ℕ → Str → ChatCompletionRequest → Result Str GatewayResponse
  try_direct i pid req =
      unless_failed (new_stream i inference_protocol_id pid)
        (over_stream i inference_protocol_id pid (marshal req))

  unfoldable pub try_proxy : ℕ → Str → Str → ChatCompletionRequest → Result Str GatewayResponse
  try_proxy i bootstrap_id target_id req =
      unless_failed (new_stream i infer_proxy_protocol_id bootstrap_id) (
        over_stream i infer_proxy_protocol_id bootstrap_id
          (marshal_proxy (record { target_peer_id = target_id; request = req })))
