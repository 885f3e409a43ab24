-- ===== src/P2p/Streams/Proxied.antt =====
-- A request through a proxy, as the client reads the answer.
use gpuswarm.Common.{
  false, none, some, Str, is_empty, trim_space, [], Result, ok, err, ◌≡◌, refl, Bool-cases, inl,
  inr,
}
use gpuswarm.Common.Int.{pos, leb_ℤ}
use gpuswarm.Model.{ChatCompletionRequest}
use gpuswarm.P2p.Gateway.{InferResponseHeader, GatewayResponse, infer_over_stream}
use gpuswarm.P2p.Streams.{
  StreamReply, InferProxyRequest, Upstream, replied, forward, proxy_target, serve_proxy,
}

-- What inferOverStream makes of the other end's reply; `e` is its error if nothing was written.
unfoldable pub read_reply : (Str → Str) → Str → StreamReply → Result Str GatewayResponse
read_reply errorf e none = infer_over_stream errorf (err e) []
read_reply errorf e (some (hdr, body)) = infer_over_stream errorf (ok hdr) body

forwarded :
    (errorf : Str → Str) (e : Str) (hdr : InferResponseHeader) (body : Str)
    → read_reply errorf e (forward (replied hdr body)) ≡ infer_over_stream errorf (ok hdr) body
unfolding read_reply forward infer_over_stream
forwarded errorf e hdr body = elim (Bool-cases (leb_ℤ (pos 400) hdr.status_code)) [
  | inl q ↦ rw q refl
  | inr q ↦ rw q refl
]

-- If a request names a target that peer.Decode reads, and the target answers the proxy, then what the
-- client reads from the proxy is that answer: the same response or the same error as from a stream of
-- its own to the target.
pub proxied_answer :
    (decode : Str → Result Str Str) (upstream : Str → ChatCompletionRequest → Upstream)
    (errorf : Str → Str) (preq : InferProxyRequest) (target e body : Str)
    (hdr : InferResponseHeader)
    → is_empty (trim_space preq.target_peer_id) ≡ false
    → decode (trim_space preq.target_peer_id) ≡ ok target
    → upstream target preq.request ≡ replied hdr body
    → read_reply errorf e (serve_proxy decode upstream (some (some preq)))
      ≡ infer_over_stream errorf (ok hdr) body
unfolding serve_proxy proxy_target
proxied_answer decode upstream errorf preq target e body hdr n d u =
    rw (n, d, u) (forwarded errorf e hdr body)
