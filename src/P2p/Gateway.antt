-- ===== src/P2p/Gateway.antt =====
-- internal/p2p/libp2p_protocols.go: Libp2pGatewayClient, which remembers how it reached each peer.
-- `direct` and `proxy` are the streams that tryDirect and tryProxy open and read, at the number of the
-- attempt within one call; `decode` is peer.Decode.
pub mod Routes
use gpuswarm.Common.{
  ℕ, suc, Bool, true, false, ◌||◌, Option, none, some, Str, str, str_eq, is_empty, trim_space,
  has_prefix, trim_prefix, List, [], ◌∷◌, ◌++◌, if◌then◌else◌, Result, ok, err,
}
use gpuswarm.Common.Int.{ℤ, pos, leb_ℤ}
use gpuswarm.Common.Split.{split, last}
use gpuswarm.Common.Maps.{GoMap, lookup, insert}
use gpuswarm.Model.{ChatCompletionRequest, PeerContext}
use gpuswarm.P2p.Context.{with_metadata}

pub record GatewayResponse : Type 0 where
  pub status_code : ℤ
  pub content_type : Str
  pub body : Str

-- The line in front of a stream's body.
pub record InferResponseHeader : Type 0 where
  pub status_code : ℤ
  pub content_type : Str
  pub error : Str

-- inferOverStream after the request is written: the header, or the failure to read or parse it, and
-- the rest of the stream. `errorf` is the text that fmt.Errorf makes of a format with no arguments.
unfoldable pub infer_over_stream :
    (Str → Str) → Result Str InferResponseHeader → Str → Result Str GatewayResponse
infer_over_stream errorf (err e) body = err e
infer_over_stream errorf (ok hdr) body =
    if leb_ℤ (pos 400) hdr.status_code
    then err (errorf (if is_empty hdr.error then str "remote infer failed" else hdr.error))
    else ok (record { status_code = hdr.status_code; content_type = hdr.content_type; body = body })

unfoldable pub or_invalid : Option Str → Str
or_invalid none = []
or_invalid (some pid) = pid

-- parsePeerIDFromGateway
unfoldable pub parse_peer_id_from_gateway : (Str → Result Str Str) → Str → Result Str Str
parse_peer_id_from_gateway decode gateway_url =
    let pid = or_invalid (last (split b'/' (trim_space gateway_url))) in
    if is_empty pid then err (str "missing peer id") else decode pid

unfoldable pub answer_of : {A : Type 0} → Result Str A → Option A
answer_of (ok res) = some res
answer_of (err e) = none

abbrev pub proxy_route : Str → Str
proxy_route bp = str "proxy:" ++ bp

module _ {A : Type 0} (decode : Str → Result Str Str)
    (direct : ℕ → Str → ChatCompletionRequest → Result Str A)
    (proxy : ℕ → Str → Str → ChatCompletionRequest → Result Str A) where
  unfoldable pub by_proxy_route : Result Str Str → Str → ChatCompletionRequest → Option A
  by_proxy_route (err e) pid req = none
  by_proxy_route (ok bp) pid req = answer_of (proxy 0 bp pid req)

  -- The attempt over the route in the cache.
  unfoldable pub try_cached : Option Str → Str → ChatCompletionRequest → Option A
  try_cached none pid req = none
  try_cached (some route) pid req =
      if str_eq route (str "direct")
      then answer_of (direct 0 pid req)
      else if has_prefix route (str "proxy:")
      then by_proxy_route (decode (trim_prefix route (str "proxy:"))) pid req
      else none

  -- The loop over the bootstrap peers, at attempt `i`, with the error of the last one.
  unfoldable pub try_bootstrap :
      GoMap Str
      → Str
      → Str
      → ChatCompletionRequest
      → List Str
      → ℕ
      → Option Str
      → GoMap Str × Result Str A
  try_bootstrap routes self pid req [] i none = (routes, err (str "no route to peer " ++ pid))
  try_bootstrap routes self pid req [] i (some e) = (routes, err e)
  try_bootstrap routes self pid req (bp ∷ bps) i last_err =
      let skipped = try_bootstrap routes self pid req bps i last_err in
      if is_empty bp || str_eq bp self || str_eq bp pid
      then skipped
      else elim (proxy i bp pid req) [
        | ok res ↦ (insert pid (proxy_route bp) routes, ok res)
        | err e ↦ try_bootstrap routes self pid req bps (suc i) (some e)
      ]

  unfoldable pub try_anew :
      GoMap Str → Str → Str → ChatCompletionRequest → List Str → GoMap Str × Result Str A
  try_anew routes self pid req bps = elim (direct 1 pid req) [
    | ok res ↦ (insert pid (str "direct") routes, ok res)
    | err e ↦ try_bootstrap routes self pid req bps 2 none
  ]

  unfoldable pub reach :
      GoMap Str → Str → Str → ChatCompletionRequest → List Str → GoMap Str × Result Str A
  reach routes self pid req bps = elim (try_cached (lookup pid routes) pid req) [
    | some res ↦ (routes, ok res)
    | none ↦ try_anew routes self pid req bps
  ]

  -- Infer; the client's state is the cache.
  unfoldable pub gateway_infer :
      GoMap Str
      → Str
      → Str
      → ChatCompletionRequest
      → PeerContext
      → List Str
      → GoMap Str × Result Str A
  gateway_infer routes self gateway_url req ctx bps =
      elim (parse_peer_id_from_gateway decode gateway_url) [
        | err e ↦ (routes, err e)
        | ok pid ↦ reach routes self pid (with_metadata ctx req) bps
      ]
