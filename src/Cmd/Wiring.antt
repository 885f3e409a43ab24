-- ===== src/Cmd/Wiring.antt =====
-- main: what the services of a node are made of, once the configuration is resolved. The libp2p node is
-- made before; sockets that do not open end the program.
pub mod Sources
pub mod Published
use gpuswarm.Common.{
  ℕ, Bool, true, false, ◌&&◌, ◌||◌, not, Option, none, some, Str, str, str_eq, is_empty, trim_space,
  to_lower, List, [], ◌∷◌, ◌++◌, if◌then◌else◌, Result, ok, err,
}
use gpuswarm.Common.Int.{ℤ, pos}
use gpuswarm.Common.Floats.{Float64}
use gpuswarm.Model.{CapabilityDocument, RoutingWeights}
use gpuswarm.Config.{Config, no_items, serves, asks, normal}
use gpuswarm.Control.Policy.{ProviderPolicy}
use gpuswarm.Control.Limiter.{Limiter, new_limiter}
use gpuswarm.Control.Credits.{CreditLedger, new_credit_ledger}
use gpuswarm.Control.Reputation.{ReputationTracker, new_reputation_tracker}
use gpuswarm.Routing.{Router}
use gpuswarm.App.Capability.{CapabilityState, new_capability_state, snapshot, set_announce_addrs}
use gpuswarm.App.Client.{ClientService, ClientOptions, new_client_service}
use gpuswarm.P2p.Host.{Host, AddrInfo, is_nobody, advertise_addrs}
use gpuswarm.Cmd.{build_advertise_url, parse_model_specs}

pub data Source : Type 0 where
  http_source : List Str → ℤ → Source
  lan_source libp2p_source : Str → ℤ → Source

pub data AdapterKind : Type 0 where
  ollama_adapter http_adapter : Str → ℤ → AdapterKind

-- `if b { xs = append(xs, x) }`
unfoldable pub source_if : Bool → Source → List Source
source_if b x = if b then x ∷ [] else []

unfoldable pub or_exit : List Source → Option (List Source)
or_exit [] = none
or_exit (s ∷ sources) = some (s ∷ sources)

module _ {F : Type 0} where
  unfoldable pub is_libp2p : Config F → Bool
  is_libp2p cfg = str_eq (normal cfg.transport) (str "libp2p")

  unfoldable pub effective_peer_id : Config F → Str → Str → Str
  effective_peer_id cfg derived node_id =
      if is_libp2p cfg then node_id else if is_empty cfg.peer_id then derived else cfg.peer_id

  unfoldable pub weights_of : Config F → RoutingWeights F
  weights_of cfg = record {
    latency = cfg.weight_latency;
    queue_depth = cfg.weight_queue_depth;
    vram_pressure = cfg.weight_vram_pressure;
    reliability = cfg.weight_reliability;
    favorite_bonus = cfg.weight_favorite_bonus;
    known_bonus = cfg.weight_known_bonus;
  }

  unfoldable pub local_sources : Config F → List Source
  local_sources cfg =
      source_if (not (no_items cfg.provider_peer_urls))
        (http_source cfg.provider_peer_urls (pos 3_000_000_000))
      ++ source_if cfg.lan_discovery (lan_source cfg.lan_listen_addr cfg.lan_peer_ttl)

  -- The sources of the client's discovery; `none` ends the program.
  unfoldable pub client_sources : Config F → Option (List Source)
  client_sources cfg =
      if is_libp2p cfg
      then some
          (local_sources cfg ++ (libp2p_source cfg.libp2p_rendezvous (pos 3_000_000_000) ∷ []))
      else or_exit (local_sources cfg)

  unfoldable pub client_options : Config F → Str → ClientOptions
  client_options cfg peer_id = record {
    peer_id = peer_id;
    peer_name = cfg.client_name;
    routing_policy = cfg.routing_policy;
    favorite_peers = cfg.favorite_peers;
    blocked_peers = cfg.blocked_peers;
    allowed_peers = cfg.allowed_peers;
    sticky_peer_ttl = cfg.sticky_peer_ttl;
    pow_difficulty = cfg.pow_difficulty;
    pow_max_iters = 0;
    credit_cost = pos 0;
  }

  unfoldable pub policy_of : Config F → ProviderPolicy F
  policy_of cfg = record {
    max_tokens_per_request = cfg.max_tokens_per_request;
    night_only = cfg.night_only;
    night_start_hour = cfg.night_start_hour;
    night_end_hour = cfg.night_end_hour;
    idle_only = cfg.idle_only;
    max_load1m = cfg.max_load1m;
    pow_difficulty = cfg.pow_difficulty;
    min_peer_reputation = cfg.min_peer_reputation;
  }

  unfoldable pub adapter_of : Config F → AdapterKind
  adapter_of cfg =
      if str_eq (normal cfg.backend_kind) (str "ollama")
      then ollama_adapter cfg.backend_url cfg.request_timeout
      else http_adapter cfg.backend_url cfg.request_timeout

module _ (fl : Float64) where
  open fl use {F, milli}

  -- The client of a node, over the ledger and the tracker that it shares with the provider.
  unfoldable pub client_of : Config F → Str → ClientService F
  client_of cfg peer_id =
      new_client_service (record { weights = weights_of cfg }) (client_options cfg peer_id)
        (some (new_credit_ledger cfg.initial_credits)) (some (new_reputation_tracker fl))

  unfoldable pub limiter_of : Config F → ℕ → Limiter F
  limiter_of cfg now = new_limiter fl cfg.max_inflight cfg.rate_per_second cfg.burst now

  -- The document that a provider starts with; `announced` are the addresses of the libp2p node.
  unfoldable pub provider_document :
      (Str → Option (Str × Str))
      → (Str → Str → Str)
      → Config F
      → Str
      → List Str
      → CapabilityDocument F
  provider_document split_host_port join_host_port cfg peer_id announced = record {
    peer_id = peer_id;
    is_self = false;
    node_name = cfg.provider_name;
    models = parse_model_specs cfg.models cfg.model_specs;
    announce_addrs = if is_libp2p cfg then announced else [];
    gpu = cfg.gpu;
    vram_free_mb = cfg.vram_free_mb;
    queue_depth = pos 0;
    avg_latency_ms = pos 50;
    reliability = milli 1000;
    gateway_url =
        if is_libp2p cfg
        then str "libp2p://" ++ peer_id
        else build_advertise_url split_host_port join_host_port cfg.advertise_url cfg.provider_addr;
    updated_at = 0;
  }

  module _ (host : Host F) where
    open host use {H, Addr, self, now, announce}

    -- The document of a heartbeat: of the state, under the node's own ID and addresses.
    unfoldable pub heartbeat_document : CapabilityState F → H → CapabilityDocument F
    heartbeat_document s h = record (snapshot fl s (now h)) {
      peer_id = self;
      gateway_url = str "libp2p://" ++ self;
      announce_addrs = advertise_addrs host h;
    }

    unfoldable pub announce_all : H → CapabilityDocument F → List (AddrInfo Addr) → H
    announce_all h doc [] = h
    announce_all h doc (bp ∷ bps) =
        let skipped = announce_all h doc bps in
        let announced = announce_all (announce h bp.id doc).0 doc bps in
        if is_nobody host bp.id then skipped else announced

    -- publish, which a provider on libp2p calls at its start and at every tick: the document that it
    -- publishes on the topic, and the state after it.
    unfoldable pub publish :
        CapabilityState F
        → H
        → List (AddrInfo Addr)
        → CapabilityDocument F × (CapabilityState F × H)
    publish s h bps =
        let doc = heartbeat_document s h in
        (doc, (set_announce_addrs fl s doc.announce_addrs (now h), announce_all h doc bps))
