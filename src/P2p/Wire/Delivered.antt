-- ===== src/P2p/Wire/Delivered.antt =====
-- A request that a client's gateway sends, directly or through a proxy, is the provider's to answer.
use gpuswarm.Common.{
  ℕ, ◌<◌, ◌^◌, false, none, some, Str, str, is_empty, trim_space, [], if◌then◌else◌, Result, ok,
  err, ◌≡◌, refl, ap, ◌∙◌, arith,
}
use gpuswarm.Common.Int.{pos, leb_ℤ, eqb_ℤ, eqb_ℤ_iff}
use gpuswarm.Model.{ChatCompletionRequest, PeerContext}
use gpuswarm.P2p.Context.{with_metadata, metadata_or_empty}
use gpuswarm.P2p.Context.Carried.{Anonymous, metadata_arrives}
use gpuswarm.P2p.Gateway.{GatewayResponse, infer_over_stream}
use gpuswarm.P2p.Streams.{
  StreamReply, Upstream, replied, read_failed, refusal, serve_answer, serve_infer, serve_proxy,
}
use gpuswarm.P2p.Streams.Proxied.{read_reply, proxied_answer}
use gpuswarm.P2p.Wire.{
  Wire, inference_protocol_id, infer_proxy_protocol_id, unless_failed, over_stream, try_direct,
  try_proxy,
}

-- What a client sees of a provider's answer: a status of 0 is 200, and one from 400 on is an error;
-- an error's text is taken as a format.
unfoldable pub as_seen : (Str → Str) → Result Str GatewayResponse → Result Str GatewayResponse
as_seen errorf (err e) = err (errorf (if is_empty e then str "remote infer failed" else e))
as_seen errorf (ok res) =
    if leb_ℤ (pos 400) res.status_code
    then err (errorf (str "remote infer failed"))
    else if eqb_ℤ res.status_code (pos 0)
    then ok (record res { status_code = pos 200 })
    else ok res

read-serve_answer :
    (errorf : Str → Str) (no_reply : Str) (r : Result Str GatewayResponse)
    → read_reply errorf no_reply (serve_answer r) ≡ as_seen errorf r
unfolding read_reply serve_answer refusal infer_over_stream as_seen is_empty
read-serve_answer errorf no_reply (err e) = refl
read-serve_answer errorf no_reply (ok res) = ground (arith, eqb_ℤ_iff res.status_code (pos 0))

-- The stream of a protocol to a peer works at an attempt, and the peer's handler replies as given.
pub record Works (wire : Wire) (i : ℕ) (protocol pid : Str) (line : Str) (r : StreamReply)
    : Type 0 where
  pub opens : wire.new_stream i protocol pid ≡ none
  pub writes : wire.write i protocol pid ≡ none
  pub replies : wire.reply i protocol pid line ≡ r

-- What a proxy reads of a reply; `e` is its error if nothing was written.
unfoldable pub upstream_of : Str → StreamReply → Upstream
upstream_of e none = read_failed e
upstream_of e (some (hdr, body)) = replied hdr body

-- The stream of a proxy to a provider that answers by `infer`.
abbrev pub through :
    (ChatCompletionRequest → PeerContext → Result Str GatewayResponse)
    → Str
    → Str
    → ChatCompletionRequest
    → Upstream
through infer e target r = upstream_of e (serve_infer infer (some (some r)))

module _ (wire : Wire) (infer : ChatCompletionRequest → PeerContext → Result Str GatewayResponse)
    (ctx : PeerContext) (req : ChatCompletionRequest) where
  abbrev pub sent : ChatCompletionRequest
  sent = with_metadata ctx req

  served :
      ctx.pow_nonce < 2 ^ 64
      → Anonymous (metadata_or_empty req.metadata)
      → serve_infer infer (some (some sent)) ≡ serve_answer (infer sent ctx)
  unfolding serve_infer
  served h a = ap (λ c. serve_answer (infer sent c)) (metadata_arrives ctx req h a)

  through_proxy :
      (decode : Str → Result Str Str) (errorf : Str → Str) (pid e no_reply : Str)
      (r : Result Str GatewayResponse)
      → is_empty (trim_space pid) ≡ false
      → decode (trim_space pid) ≡ ok pid
      → serve_infer infer (some (some sent)) ≡ serve_answer r
      → read_reply errorf no_reply (
          serve_proxy decode
            (through infer e)
            (some (some (record { target_peer_id = pid; request = sent }))))
        ≡ read_reply errorf no_reply (serve_answer r)
  unfolding serve_answer refusal upstream_of read_reply
  through_proxy decode errorf pid e no_reply (err x) n d s =
      proxied_answer decode (through infer e) errorf
        (record { target_peer_id = pid; request = sent }) pid no_reply [] _ n d
        (ap (upstream_of e) s)
  through_proxy decode errorf pid e no_reply (ok res) n d s =
      proxied_answer decode (through infer e) errorf
        (record { target_peer_id = pid; request = sent }) pid no_reply res.body _ n d
        (ap (upstream_of e) s)

  -- Directly and through a proxy, the client gets what the provider's Infer answers to the request under
  -- the client's own context, as far as a client sees it, which takes an error's text as a format: if the streams work, both ends read the JSON
  -- that the other wrote, the nonce fits in a uint64, and the request's metadata name no other client.
  pub delivered :
      (decode : Str → Result Str Str) (i : ℕ) (bp pid line proxy_line e : Str)
      → ctx.pow_nonce < 2 ^ 64
      → Anonymous (metadata_or_empty req.metadata)
      → wire.marshal sent ≡ ok line
      → Works wire i inference_protocol_id pid line (serve_infer infer (some (some sent)))
      → wire.marshal_proxy (record { target_peer_id = pid; request = sent }) ≡ ok proxy_line
      → Works wire i infer_proxy_protocol_id bp proxy_line (
          serve_proxy decode
            (through infer e)
            (some (some (record { target_peer_id = pid; request = sent }))))
      → is_empty (trim_space pid) ≡ false
      → decode (trim_space pid) ≡ ok pid
      → (try_direct wire i pid sent ≡ as_seen wire.errorf (infer sent ctx))
        × (try_proxy wire i bp pid sent ≡ as_seen wire.errorf (infer sent ctx))
  unfolding try_direct try_proxy over_stream unless_failed
  delivered decode i bp pid line proxy_line e h a m w mp wp n d = (
    rw (w.opens, m, w.writes, w.replies, served h a)
        (read-serve_answer wire.errorf wire.no_reply (infer sent ctx)),
    rw (wp.opens, mp, wp.writes, wp.replies)
        (through_proxy decode wire.errorf pid e wire.no_reply (infer sent ctx) n d (served h a)
          ∙ read-serve_answer wire.errorf wire.no_reply (infer sent ctx)),
  )
