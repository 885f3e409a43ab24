-- ===== src/Config.antt =====
-- internal/config/config.go: the configuration of a node, its defaults and its validation. The host's
-- name and the paths below the home directory are arguments.
pub mod Resolved
pub mod File
use gpuswarm.Common.{
  ℕ, Bool, true, false, ◌&&◌, ◌||◌, not, Str, str, str_eq, is_empty, trim_space, to_lower, List, [],
  ◌∷◌, ◌++◌, if◌then◌else◌, Result, ok, err,
}
use gpuswarm.Common.Int.{ℤ, pos, eqb_ℤ}
use gpuswarm.Common.Floats.{Float64}

pub record Config (F : Type 0) : Type 0 where
  pub mode : Str
  pub transport : Str
  pub client_name : Str
  pub provider_name : Str
  pub identity_file : Str
  pub client_addr : Str
  pub provider_addr : Str
  pub provider_peer_urls : List Str
  pub backend_kind : Str
  pub backend_url : Str
  pub peer_id : Str
  pub gpu : Str
  pub vram_free_mb : ℤ
  pub models : List Str
  pub model_specs : List Str
  pub advertise_url : Str
  pub max_inflight : ℤ
  pub rate_per_second : F
  pub burst : ℤ
  pub max_tokens_per_request : ℤ
  pub night_only : Bool
  pub night_start_hour : ℤ
  pub night_end_hour : ℤ
  pub idle_only : Bool
  pub max_load1m : F
  pub pow_difficulty : ℤ
  pub min_peer_reputation : F
  pub initial_credits : ℤ
  pub lan_discovery : Bool
  pub lan_listen_addr : Str
  pub lan_broadcast_addr : Str
  pub lan_announce_interval : ℤ
  pub lan_peer_ttl : ℤ
  pub libp2p_listen_addrs : List Str
  pub libp2p_bootstrap : List Str
  pub libp2p_rendezvous : Str
  pub libp2p_auto_relay : Bool
  pub libp2p_relay_service : Bool
  pub libp2p_nat_port_map : Bool
  pub libp2p_hole_punching : Bool
  pub request_timeout : ℤ
  pub log_file : Str
  pub routing_policy : Str
  pub favorite_peers : List Str
  pub blocked_peers : List Str
  pub allowed_peers : List Str
  pub sticky_peer_ttl : ℤ
  pub weight_latency : F
  pub weight_queue_depth : F
  pub weight_vram_pressure : F
  pub weight_reliability : F
  pub weight_favorite_bonus : F
  pub weight_known_bonus : F

pub data ConfigError : Type 0 where
  invalid_mode invalid_transport invalid_routing_policy : Str → ConfigError
  backend_url_required peers_required : ConfigError

-- The host's name without space around it, or a name that stands for it.
unfoldable pub named : Str → Str
named host = if is_empty (trim_space host) then str "infermesh-node" else trim_space host

-- `if x == "" { x = d }`, and the like for the other types.
unfoldable pub fill : Str → Str → Str
fill x d = if is_empty x then d else x

unfoldable pub fill_blank : Str → Str → Str
fill_blank x d = if is_empty (trim_space x) then d else x

unfoldable pub fill_int : ℤ → ℤ → ℤ
fill_int x d = if eqb_ℤ x (pos 0) then d else x

unfoldable pub no_items : List Str → Bool
no_items [] = true
no_items (x ∷ xs) = false

unfoldable pub fill_list : List Str → List Str → List Str
fill_list xs d = if no_items xs then d else xs

unfoldable pub valid_mode : Str → Bool
valid_mode m = str_eq m (str "client") || str_eq m (str "provider") || str_eq m (str "both")

unfoldable pub valid_transport : Str → Bool
valid_transport t = str_eq t (str "http") || str_eq t (str "libp2p")

unfoldable pub valid_policy : Str → Bool
valid_policy p =
    str_eq p (str "auto")
    || str_eq p (str "prefer_known")
    || str_eq p (str "prefer_favorites")
    || str_eq p (str "manual")

-- strings.ToLower(strings.TrimSpace(x))
unfoldable pub normal : Str → Str
normal x = to_lower (trim_space x)

-- Is a provider, or a client, part of the mode?
unfoldable pub serves : Str → Bool
serves mode = str_eq mode (str "provider") || str_eq mode (str "both")

unfoldable pub asks : Str → Bool
asks mode = str_eq mode (str "client") || str_eq mode (str "both")

module _ (fl : Float64) where
  open fl use {F, eq, milli}

  -- `in_home name` is filepath.Join(home, ".infermeshai", name).
  unfoldable pub default_config : Str → (Str → Str) → Config F
  unfolding named
  default_config host in_home = record {
    mode = str "both";
    transport = str "libp2p";
    client_name = named host ++ str "-client";
    provider_name = named host ++ str "-provider";
    identity_file = in_home (str "infermeshd.identity.pem");
    client_addr = str ":5555";
    provider_addr = str ":7777";
    provider_peer_urls = [];
    backend_kind = str "openai";
    backend_url = str "http://127.0.0.1:9000";
    peer_id = [];
    gpu = str "mock-gpu";
    vram_free_mb = pos 16_000;
    models = [];
    model_specs = [];
    advertise_url = [];
    max_inflight = pos 4;
    rate_per_second = milli 20_000;
    burst = pos 20;
    max_tokens_per_request = pos 0;
    night_only = false;
    night_start_hour = pos 22;
    night_end_hour = pos 6;
    idle_only = false;
    max_load1m = milli 800;
    pow_difficulty = pos 0;
    min_peer_reputation = milli 0;
    initial_credits = pos 100;
    lan_discovery = true;
    lan_listen_addr = str ":9559";
    lan_broadcast_addr = str "255.255.255.255:9559";
    lan_announce_interval = pos 3_000_000_000;
    lan_peer_ttl = pos 15_000_000_000;
    libp2p_listen_addrs = str "/ip4/0.0.0.0/tcp/39001" ∷ [];
    libp2p_bootstrap =
        str "/ip4/3.234.252.173/tcp/39001/p2p/12D3KooWFU1RPiGmvFcURiaph5GueGpvQ2VPkQfR2YQej6ogmpzg"
        ∷ [];
    libp2p_rendezvous = str "infermesh-rendezvous";
    libp2p_auto_relay = true;
    libp2p_relay_service = false;
    libp2p_nat_port_map = true;
    libp2p_hole_punching = true;
    request_timeout = pos 300_000_000_000;
    log_file = in_home (str "infermeshd.log");
    routing_policy = str "auto";
    favorite_peers = [];
    blocked_peers = [];
    allowed_peers = [];
    sticky_peer_ttl = pos 0;
    weight_latency = milli 1_000;
    weight_queue_depth = milli 2_000;
    weight_vram_pressure = milli 500_000;
    weight_reliability = milli 100_000;
    weight_favorite_bonus = milli 10_000;
    weight_known_bonus = milli 3_000;
  }

  unfoldable pub fill_float : F → F → F
  fill_float x d = if eq x (milli 0) then d else x

  -- The defaults for what is not set, once the mode and the transport are known.
  unfoldable pub filled : Config F → Config F → Str → Str → Config F
  filled def cfg mode transport = record cfg {
    mode = mode;
    transport = transport;
    client_name = fill_blank cfg.client_name def.client_name;
    provider_name = fill_blank cfg.provider_name def.provider_name;
    identity_file = fill cfg.identity_file def.identity_file;
    client_addr = fill cfg.client_addr def.client_addr;
    provider_addr = fill cfg.provider_addr def.provider_addr;
    backend_kind = fill cfg.backend_kind def.backend_kind;
    backend_url = fill cfg.backend_url def.backend_url;
    gpu = fill cfg.gpu def.gpu;
    vram_free_mb = fill_int cfg.vram_free_mb def.vram_free_mb;
    max_inflight = fill_int cfg.max_inflight def.max_inflight;
    rate_per_second = fill_float cfg.rate_per_second def.rate_per_second;
    burst = fill_int cfg.burst def.burst;
    night_start_hour =
        if eqb_ℤ cfg.night_start_hour (pos 0) && eqb_ℤ cfg.night_end_hour (pos 0)
        then def.night_start_hour
        else cfg.night_start_hour;
    night_end_hour =
        if eqb_ℤ cfg.night_start_hour (pos 0) && eqb_ℤ cfg.night_end_hour (pos 0)
        then def.night_end_hour
        else cfg.night_end_hour;
    max_load1m = fill_float cfg.max_load1m def.max_load1m;
    initial_credits = fill_int cfg.initial_credits def.initial_credits;
    lan_listen_addr = fill cfg.lan_listen_addr def.lan_listen_addr;
    lan_broadcast_addr = fill cfg.lan_broadcast_addr def.lan_broadcast_addr;
    lan_announce_interval = fill_int cfg.lan_announce_interval def.lan_announce_interval;
    lan_peer_ttl = fill_int cfg.lan_peer_ttl def.lan_peer_ttl;
    libp2p_listen_addrs = fill_list cfg.libp2p_listen_addrs def.libp2p_listen_addrs;
    libp2p_bootstrap =
        if str_eq transport (str "libp2p")
        then fill_list cfg.libp2p_bootstrap def.libp2p_bootstrap
        else cfg.libp2p_bootstrap;
    libp2p_rendezvous = fill cfg.libp2p_rendezvous def.libp2p_rendezvous;
    request_timeout = fill_int cfg.request_timeout def.request_timeout;
    log_file = fill_blank cfg.log_file def.log_file;
    routing_policy = normal (fill_blank cfg.routing_policy def.routing_policy);
    weight_latency = fill_float cfg.weight_latency def.weight_latency;
    weight_queue_depth = fill_float cfg.weight_queue_depth def.weight_queue_depth;
    weight_vram_pressure = fill_float cfg.weight_vram_pressure def.weight_vram_pressure;
    weight_reliability = fill_float cfg.weight_reliability def.weight_reliability;
    weight_favorite_bonus = fill_float cfg.weight_favorite_bonus def.weight_favorite_bonus;
    weight_known_bonus = fill_float cfg.weight_known_bonus def.weight_known_bonus;
  }

  -- The checks at the end of ResolveAndValidate.
  unfoldable pub checked : Config F → Result ConfigError (Config F)
  checked c =
      if serves c.mode && is_empty c.backend_url
      then err backend_url_required
      else if str_eq c.transport (str "http")
          && asks c.mode
          && no_items c.provider_peer_urls
          && not c.lan_discovery
      then err peers_required
      else ok c

  unfoldable pub resolve_and_validate : Config F → Config F → Result ConfigError (Config F)
  resolve_and_validate def cfg =
      let mode = fill (normal cfg.mode) def.mode in
      let transport = fill (normal cfg.transport) def.transport in
      let c = filled def cfg mode transport in
      if not (valid_mode mode)
      then err (invalid_mode cfg.mode)
      else if not (valid_transport transport)
      then err (invalid_transport cfg.transport)
      else if not (valid_policy c.routing_policy)
      then err (invalid_routing_policy c.routing_policy)
      else checked c
