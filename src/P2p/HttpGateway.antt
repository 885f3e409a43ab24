-- ===== src/P2p/HttpGateway.antt =====
-- internal/p2p/gateway_client.go: HTTPGatewayClient. The HTTP client, JSON and the first 64 KiB of a
-- body are an interface.
use gpuswarm.Common.{
  ◌<◌, ◌^◌, false, Option, none, some, Str, str, trim_right_char, ◌++◌, if◌then◌else◌, Result, ok,
  err, ◌≡◌, refl, Bool-cases, inl, inr,
}
use gpuswarm.Common.Int.{ℤ, pos, leb_ℤ}
use gpuswarm.Common.Maps.{GoMap}
use gpuswarm.Model.{ChatCompletionRequest, PeerContext}
use gpuswarm.P2p.Context.{http_headers, header_context}
use gpuswarm.P2p.Context.Carried.{headers_arrive}
use gpuswarm.P2p.Gateway.{GatewayResponse}

pub data GatewayError : Type 0 where
  marshal_failed build_failed request_failed : Str → GatewayError
  gateway_status : ℤ → Str → GatewayError

-- json.Marshal, what NewRequestWithContext says of a URL, and Client.Do of a POST with its headers.
pub record HttpPost : Type 0 where
  pub marshal : ChatCompletionRequest → Result Str Str
  pub request_error : Str → Option Str
  pub post : Str → GoMap Str → Str → Result Str GatewayResponse
  pub first_64k : Str → Str

module _ (client : HttpPost) where
  open client use {marshal, request_error, post, first_64k}

  unfoldable pub accepted : Result Str GatewayResponse → Result GatewayError GatewayResponse
  accepted (err e) = err (request_failed e)
  accepted (ok resp) =
      if leb_ℤ (pos 400) resp.status_code
      then err (gateway_status resp.status_code (first_64k resp.body))
      else ok resp

  unfoldable pub sent_to :
      Str → PeerContext → Str → Option Str → Result GatewayError GatewayResponse
  sent_to url ctx b (some e) = err (build_failed e)
  sent_to url ctx b none = accepted (post url (http_headers ctx) b)

  unfoldable pub completions_url : Str → Str
  completions_url gateway_url = trim_right_char b'/' gateway_url ++ str "/v1/chat/completions"

  unfoldable pub marshalled :
      Str → PeerContext → Result Str Str → Result GatewayError GatewayResponse
  marshalled url ctx (err e) = err (marshal_failed e)
  marshalled url ctx (ok b) = sent_to url ctx b (request_error url)

  -- HTTPGatewayClient.Infer
  unfoldable pub http_gateway_infer :
      Str → ChatCompletionRequest → PeerContext → Result GatewayError GatewayResponse
  http_gateway_infer gateway_url req ctx =
      marshalled (completions_url gateway_url) ctx (marshal req)

  accepted-ok :
      (r : Result Str GatewayResponse) (res : GatewayResponse)
      → accepted r ≡ ok res
      → (r ≡ ok res) × (leb_ℤ (pos 400) res.status_code ≡ false)
  unfolding accepted
  accepted-ok (err e) res h = cc
  accepted-ok (ok resp) res h = elim (Bool-cases (leb_ℤ (pos 400) resp.status_code)) [
    | inl e ↦ let h' = rw e at h in cc h'
    | inr e ↦ let h' = rw e at h in let same : resp ≡ res = cc h' in rw (← same) (refl, e)
  ]

  sent_to-ok :
      (url b : Str) (ctx : PeerContext) (o : Option Str) (res : GatewayResponse)
      → sent_to url ctx b o ≡ ok res
      → (post url (http_headers ctx) b ≡ ok res) × (leb_ℤ (pos 400) res.status_code ≡ false)
  unfolding sent_to
  sent_to-ok url b ctx (some e) res h = cc
  sent_to-ok url b ctx none res h = accepted-ok _ res h

  marshalled-ok :
      (url : Str) (ctx : PeerContext) (m : Result Str Str) (res : GatewayResponse)
      → marshalled url ctx m ≡ ok res
      → (b : Str) × ((m ≡ ok b)
          × ((post url (http_headers ctx) b ≡ ok res) × (leb_ℤ (pos 400) res.status_code ≡ false)))
  unfolding marshalled
  marshalled-ok url ctx (err e) res h = cc
  marshalled-ok url ctx (ok b) res h = (b, (refl, sent_to-ok url b ctx _ res h))

  -- An answer of the HTTP gateway has a status below 400, and is the answer to a POST of the request
  -- whose headers carry the client's context, if the nonce fits in a uint64.
  pub http_gateway_answer :
      (gateway_url : Str) (req : ChatCompletionRequest) (ctx : PeerContext) (res : GatewayResponse)
      → ctx.pow_nonce < 2 ^ 64
      → http_gateway_infer gateway_url req ctx ≡ ok res
      → (leb_ℤ (pos 400) res.status_code ≡ false)
        × ((b : Str) × (headers : GoMap Str) × ((marshal req ≡ ok b)
              × ((post (completions_url gateway_url) headers b ≡ ok res)
                  × (header_context headers ≡ ctx))))
  unfolding http_gateway_infer
  http_gateway_answer gateway_url req ctx res n h =
      let (b, (m, (p, s))) = marshalled-ok _ ctx _ res h in
      (s, (b, http_headers ctx, (m, (p, headers_arrive ctx n))))
