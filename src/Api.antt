-- ===== src/Api.antt =====
-- internal/api/server.go: the HTTP handlers, on requests whose body is decoded (`none` if it is no
-- JSON of the type). A reply's body is the value that is written; the text around an error is left out.
pub mod Slot
use gpuswarm.Common.{
  ℕ, Bool, true, false, not, Option, none, some, Str, str, str_eq, is_empty, trim_space,
  trim_prefix, List, [], ◌∷◌, if◌then◌else◌, Result, ok, err,
}
use gpuswarm.Common.Int.{ℤ, pos, eqb_ℤ}
use gpuswarm.Common.Floats.{Float64}
use gpuswarm.Common.Maps.{GoMap}
use gpuswarm.Model.{ChatCompletionRequest, PeerContext, CapabilityDocument}
use gpuswarm.Control.{
  Error, tokens_exceeded, outside_serving_window, host_busy, invalid_pow, peer_reputation_low,
  rate_limited, too_many_in_flight, context_done, backend,
}
use gpuswarm.P2p.Context.{header_context}
use gpuswarm.App.Client.{
  ClientService, ClientError, InferenceResult, RoutingSettings, get_routing_settings,
  update_routing_settings, select_peer_manual,
}

pub record HttpRequest (A : Type 0) : Type 0 where
  pub method : Str
  pub path : Str
  pub headers : GoMap Str
  pub body : Option A

pub data Body (F : Type 0) : Type 0 where
  text : Str → Body F
  client_error : ClientError → Body F
  provider_error : Error → Body F
  peers : List (CapabilityDocument F) → Body F
  settings : RoutingSettings → Body F
  document : CapabilityDocument F → Body F

pub record HttpReply (F : Type 0) : Type 0 where
  pub status : ℤ
  pub content_type : Str
  pub content : Body F

-- The status for an error of the provider's Infer, by the chain of errors.Is.
unfoldable pub provider_status : Error → ℤ
provider_status tokens_exceeded = pos 400
provider_status outside_serving_window = pos 503
provider_status host_busy = pos 503
provider_status invalid_pow = pos 403
provider_status peer_reputation_low = pos 429
provider_status rate_limited = pos 429
provider_status too_many_in_flight = pos 429
provider_status context_done = pos 502
provider_status (backend e) = pos 502

module _ {F : Type 0} where
  -- http.Error
  unfoldable pub http_error : Body F → ℤ → HttpReply F
  http_error content status = record {
    status = status;
    content_type = str "text/plain; charset=utf-8";
    content = content;
  }

  unfoldable pub json_reply : Body F → HttpReply F
  json_reply content = record {
    status = pos 200;
    content_type = str "application/json";
    content = content;
  }

  -- relayResponse
  unfoldable pub relay_response : InferenceResult → HttpReply F
  relay_response res = record {
    status = if eqb_ℤ res.status_code (pos 0) then pos 200 else res.status_code;
    content_type = res.content_type;
    content = text res.body;
  }

  unfoldable pub method_not_allowed : HttpReply F
  method_not_allowed = http_error (text (str "method not allowed")) (pos 405)

  -- The request that an inference handler accepts, or its refusal.
  unfoldable pub named_model : ChatCompletionRequest → Result (HttpReply F) ChatCompletionRequest
  named_model req =
      if is_empty req.model
      then err (http_error (text (str "model required")) (pos 400))
      else ok req

  unfoldable pub decoded : Option ChatCompletionRequest → Result (HttpReply F) ChatCompletionRequest
  decoded none = err (http_error (text (str "invalid json")) (pos 400))
  decoded (some req) = named_model req

  unfoldable pub accepted :
      HttpRequest ChatCompletionRequest → Result (HttpReply F) ChatCompletionRequest
  accepted r = if not (str_eq r.method (str "POST")) then err method_not_allowed else decoded r.body

  unfoldable pub client_reply : Result ClientError InferenceResult → HttpReply F
  client_reply (err e) = http_error (client_error e) (pos 502)
  client_reply (ok res) = relay_response res

  -- HandleClientInference; S is the state of the client service.
  unfoldable pub handle_client_inference :
      {S : Type 0}
      → (S → ChatCompletionRequest → S × Result ClientError InferenceResult)
      → S
      → HttpRequest ChatCompletionRequest
      → S × HttpReply F
  handle_client_inference infer s r = elim (accepted r) [
    | err reply ↦ (s, reply)
    | ok req ↦ let (s', result) = infer s req in (s', client_reply result)
  ]

  -- HandleProviderInference; S is the state of the provider service, `done` the cleanup that runs
  -- when the response has been relayed.
  unfoldable pub provider_reply :
      {S : Type 0} → (S → S) → S → Result Error InferenceResult → S × HttpReply F
  provider_reply done s (err e) = (s, http_error (provider_error e) (provider_status e))
  provider_reply done s (ok res) = (done s, relay_response res)

  unfoldable pub handle_provider_inference :
      {S : Type 0}
      → (S → ChatCompletionRequest → PeerContext → S × Result Error InferenceResult)
      → (PeerContext → S → S)
      → S
      → HttpRequest ChatCompletionRequest
      → S × HttpReply F
  handle_provider_inference infer done s r = elim (accepted r) [
    | err reply ↦ (s, reply)
    | ok req ↦
        let ctx = header_context r.headers in
        let (s', result) = infer s req ctx in provider_reply (done ctx) s' result
  ]

  -- HandleClientPeerList, on what ListPeers answers.
  unfoldable pub handle_client_peer_list :
      {A : Type 0} → HttpRequest A → Result Str (List (CapabilityDocument F)) → HttpReply F
  handle_client_peer_list r (err e) =
      if not (str_eq r.method (str "GET"))
      then method_not_allowed
      else http_error (text e) (pos 502)
  handle_client_peer_list r (ok ps) =
      if not (str_eq r.method (str "GET")) then method_not_allowed else json_reply (peers ps)

  unfoldable pub put_routing :
      ClientService F → Option RoutingSettings → ClientService F × HttpReply F
  put_routing s none = (s, http_error (text (str "invalid json")) (pos 400))
  put_routing s (some in') =
      let s' = update_routing_settings s in' in
      (s', json_reply (settings (get_routing_settings s')))

  -- HandleClientRoutingControl: /v1/mesh/routing and /v1/mesh/select/.
  unfoldable pub handle_routing :
      ClientService F → HttpRequest RoutingSettings → ClientService F × HttpReply F
  handle_routing s r =
      if str_eq r.method (str "GET")
      then (s, json_reply (settings (get_routing_settings s)))
      else if str_eq r.method (str "PUT")
      then put_routing s r.body
      else (s, method_not_allowed)

  unfoldable pub handle_select :
      {A : Type 0} → ClientService F → HttpRequest A → ClientService F × HttpReply F
  handle_select s r =
      let peer_id = trim_space (trim_prefix r.path (str "/v1/mesh/select/")) in
      let s' = select_peer_manual s peer_id in
      if not (str_eq r.method (str "POST"))
      then (s, method_not_allowed)
      else if is_empty peer_id
      then (s, http_error (text (str "peer id required")) (pos 400))
      else (s', json_reply (settings (get_routing_settings s')))

  -- HandleCapabilities, on the snapshot.
  unfoldable pub handle_capabilities :
      {A : Type 0} → HttpRequest A → CapabilityDocument F → HttpReply F
  handle_capabilities r doc =
      if not (str_eq r.method (str "GET")) then method_not_allowed else json_reply (document doc)
