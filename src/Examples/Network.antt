-- ===== src/Examples/Network.antt =====
-- The gateway's routes, the registry, the streams and the HTTP handler on small inputs.
use gpuswarm.Common.{
  Bool, Option, true, ◌&&◌, none, if◌then◌else◌, str_eq, ◌≡◌, ℕ, zero, suc, false, some, Str, str,
  is_empty, trim_space, [], ◌∷◌, refl, ok, err, Result, arith,
}
use gpuswarm.Common.Int.{pos}
use gpuswarm.Common.Floats.{thousandths}
use gpuswarm.Common.Maps.{GoMap, lookup}
use gpuswarm.Model.{ChatCompletionRequest, PeerContext}
use gpuswarm.Control.{Error}
use gpuswarm.App.Client.{InferenceResult}
use gpuswarm.App.Provider.{infer, cleanup}
use gpuswarm.P2p.Context.{
  header_context, http_headers, metadata_context, metadata_or_empty, with_metadata, value,
}
use gpuswarm.P2p.Context.Carried.{
  Anonymous, Carries, HeaderValues, is_header_value, contexts_arrive,
}
use gpuswarm.P2p.Gateway.{GatewayResponse, reach}
use gpuswarm.P2p.Gateway.Routes.{Settled, reach-Settled}
use gpuswarm.P2p.Registry.{Node}
use gpuswarm.P2p.Streams.{InferProxyRequest, serve_infer, serve_proxy}
use gpuswarm.P2p.Wire.{Wire, inference_protocol_id, infer_proxy_protocol_id, try_direct, try_proxy}
use gpuswarm.P2p.Wire.Delivered.{Works, as_seen, through, delivered}
use gpuswarm.Api.{HttpRequest, handle_provider_inference}
use gpuswarm.Api.Slot.{Restored, handle-Restored}
use gpuswarm.Examples.{same_text, slow, fast, request, context}
use gpuswarm.Examples.App.{provider, provider-Slots, provider-IsInt64, world, answer}

no_client_named : Anonymous (metadata_or_empty request.metadata)
unfolding metadata_or_empty value lookup
no_client_named = record { no_peer_id = refl; no_name = refl }

abbrev all_header_values : GoMap Str → Bool
all_header_values [] = true
all_header_values ((k, v) ∷ m) = is_header_value v && all_header_values m

-- Refuses a request that has some other value.
abbrev unless_refused : GoMap Str → Option (GoMap Str)
unless_refused m = if all_header_values m then some m else none

all-HeaderValues : (m : GoMap Str) → HeaderValues m → all_header_values m ≡ true
all-HeaderValues [] h = refl
all-HeaderValues ((k, v) ∷ m) h = rw (h.0, all-HeaderValues m h.1) refl

unless_refused-Carries : Carries unless_refused
unless_refused-Carries = record {
  carried = λ m h. (m, (rw (all-HeaderValues m h) refl, (refl, (refl, refl))));
}

contexts_arrive_example :
    ((arrived : GoMap Str) × ((unless_refused (http_headers context) ≡ some arrived)
        × (header_context arrived ≡ context)))
    × (metadata_context (with_metadata context request) ≡ context)
contexts_arrive_example =
    contexts_arrive unless_refused context request unless_refused-Carries (omega arith) refl refl
      no_client_named

abbrev decode : Str → Result Str Str
decode s = ok s

-- The peer itself cannot be reached at the second attempt.
abbrev direct : ℕ → Str → ChatCompletionRequest → Result Str ℕ
direct i pid req = elim i [ zero ↦ ok 1 | suc j ↦ err (str "unreachable") ]

abbrev proxy : ℕ → Str → Str → ChatCompletionRequest → Result Str ℕ
proxy i bp pid req = ok 2

reach-Settled_example :
    Settled decode direct proxy []
      (str "me")
      (str "peer")
      request
      (str "boot" ∷ [])
      (reach decode direct proxy [] (str "me") (str "peer") request (str "boot" ∷ []))
reach-Settled_example =
    reach-Settled decode direct proxy [] (str "me") (str "peer") request (str "boot" ∷ [])

abbrev node : Node thousandths.F
node = record {
  heartbeats = (str "fast", record { cap = fast; seen_at = 5 }) ∷ [];
  registry =
      (str "fast", record { cap = fast; seen_at = 9 })
      ∷ (str "slow", record { cap = slow; seen_at = 1 })
      ∷ [];
  heartbeat_ttl = pos 7;
}

target_named : is_empty (trim_space (str "peer")) ≡ false
unfolding is_empty trim_space
target_named = refl

target_decoded : decode (trim_space (str "peer")) ≡ ok (str "peer")
unfolding trim_space
target_decoded = refl

abbrev posted : HttpRequest ChatCompletionRequest
posted = record {
  method = str "POST";
  path = [];
  headers = http_headers context;
  body = some request;
}

abbrev backend_answer : ChatCompletionRequest → Result Error InferenceResult
backend_answer req = ok answer

handle-Restored_example :
    Restored thousandths same_text provider
      (handle_provider_inference {F = thousandths.F}
        (λ s req peer. infer thousandths same_text s req peer world (backend_answer req) (pos 9) 8)
        (λ peer s. cleanup thousandths s peer (pos 9) 9)
        provider
        posted).0
handle-Restored_example =
    handle-Restored thousandths same_text world (pos 9) 8 9 provider backend_answer posted
      provider-Slots provider-IsInt64

abbrev infer_on_peer : ChatCompletionRequest → PeerContext → Result Str GatewayResponse
infer_on_peer req ctx =
    ok (record { status_code = pos 0; content_type = []; body = ctx.client_peer_id })

abbrev proxied : InferProxyRequest
proxied = record { target_peer_id = str "peer"; request = with_metadata context request }

-- Its peers answer every line in the same way.
abbrev wire : Wire
wire = record {
  marshal = λ req. ok req.model;
  marshal_proxy = λ preq. ok preq.target_peer_id;
  new_stream = λ i protocol pid. none;
  write = λ i protocol pid. none;
  reply = λ i protocol pid line.
      if str_eq protocol inference_protocol_id
      then serve_infer infer_on_peer (some (some (with_metadata context request)))
      else serve_proxy decode (through infer_on_peer (str "eof")) (some (some proxied));
  errorf = λ s. s;
  no_reply = str "eof";
}

direct-Works :
    Works wire 1 inference_protocol_id
      (str "peer")
      (str "llama3")
      (serve_infer infer_on_peer (some (some (with_metadata context request))))
unfolding str_eq
direct-Works = record { opens = refl; writes = refl; replies = refl }

proxy-Works :
    Works wire 1 infer_proxy_protocol_id
      (str "boot")
      (str "peer")
      (serve_proxy decode (through infer_on_peer (str "eof")) (some (some proxied)))
unfolding str_eq
proxy-Works = record { opens = refl; writes = refl; replies = refl }

model_sent : wire.marshal (with_metadata context request) ≡ ok (str "llama3")
unfolding with_metadata
model_sent = refl

delivered_example :
    (try_direct wire 1 (str "peer") (with_metadata context request)
      ≡ as_seen wire.errorf (infer_on_peer (with_metadata context request) context))
    × (try_proxy wire 1 (str "boot") (str "peer") (with_metadata context request)
        ≡ as_seen wire.errorf (infer_on_peer (with_metadata context request) context))
delivered_example =
    delivered wire infer_on_peer context request decode 1 (str "boot") (str "peer") (str "llama3")
      (str "peer") (str "eof") (omega arith) no_client_named model_sent direct-Works refl
      proxy-Works target_named target_decoded
