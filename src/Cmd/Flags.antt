-- ===== src/Cmd/Flags.antt =====
-- main: the flags over the saved configuration, and where the configuration comes from. flag.Parse is
-- an argument: what it found for each flag.
pub mod Restart
use Prim.Native.String.{String}
use gpuswarm.Common.{
  Bool, true, false, not, ◌||◌, Option, none, some, Str, str, str_eq, is_empty, List, [], ◌∷◌,
  if◌then◌else◌, Result, ok, err,
}
use gpuswarm.Common.Int.{ℤ}
use gpuswarm.Common.Floats.{Float64}
use gpuswarm.Config.{Config, ConfigError, resolve_and_validate}
use gpuswarm.Cmd.{split_csv, join_csv, find_arg_value, should_run_setup_wizard}
use gpuswarm.Cmd.Wizard.{BackendDetection, prompt_yes_no, run_setup_wizard}

-- The flags that were given, by name; a duration is a number of nanoseconds.
pub record Given (F : Type 0) : Type 0 where
  pub texts : Str → Option Str
  pub ints : Str → Option ℤ
  pub floats : Str → Option F
  pub bools : Str → Option Bool

unfoldable pub given_or : {A : Type 0} → Option A → A → A
given_or none d = d
given_or (some x) d = x

module _ {F : Type 0} where
  -- flag.String, flag.Int (Int64, Duration), flag.Float64 and flag.Bool, once the flags are parsed.
  unfoldable pub text_flag : Given F → String → Str → Str
  text_flag g name d = given_or (g.texts (str name)) d

  unfoldable pub int_flag : Given F → String → ℤ → ℤ
  int_flag g name d = given_or (g.ints (str name)) d

  unfoldable pub float_flag : Given F → String → F → F
  float_flag g name d = given_or (g.floats (str name)) d

  unfoldable pub bool_flag : Given F → String → Bool → Bool
  bool_flag g name d = given_or (g.bools (str name)) d

  unfoldable pub list_flag : Given F → String → List Str → List Str
  list_flag g name d = split_csv (text_flag g name (join_csv d))

  -- The configuration after flag.Parse.
  unfoldable pub with_flags : Given F → Config F → Config F
  with_flags g cfg = record {
    mode = text_flag g "mode" cfg.mode;
    transport = text_flag g "transport" cfg.transport;
    client_name = text_flag g "client-name" cfg.client_name;
    provider_name = text_flag g "provider-name" cfg.provider_name;
    identity_file = text_flag g "identity-file" cfg.identity_file;
    client_addr = text_flag g "client-addr" cfg.client_addr;
    provider_addr = text_flag g "provider-addr" cfg.provider_addr;
    provider_peer_urls = list_flag g "provider-peer-urls" cfg.provider_peer_urls;
    backend_kind = text_flag g "backend-kind" cfg.backend_kind;
    backend_url = text_flag g "backend-url" cfg.backend_url;
    peer_id = text_flag g "peer-id" cfg.peer_id;
    gpu = text_flag g "gpu" cfg.gpu;
    vram_free_mb = int_flag g "vram-free-mb" cfg.vram_free_mb;
    models = list_flag g "models" cfg.models;
    model_specs = list_flag g "model-specs" cfg.model_specs;
    advertise_url = text_flag g "advertise-url" cfg.advertise_url;
    max_inflight = int_flag g "max-inflight" cfg.max_inflight;
    rate_per_second = float_flag g "rate-per-second" cfg.rate_per_second;
    burst = int_flag g "burst" cfg.burst;
    max_tokens_per_request = int_flag g "max-tokens-per-request" cfg.max_tokens_per_request;
    night_only = bool_flag g "night-only" cfg.night_only;
    night_start_hour = int_flag g "night-start-hour" cfg.night_start_hour;
    night_end_hour = int_flag g "night-end-hour" cfg.night_end_hour;
    idle_only = bool_flag g "idle-only" cfg.idle_only;
    max_load1m = float_flag g "max-load1m" cfg.max_load1m;
    pow_difficulty = int_flag g "pow-difficulty" cfg.pow_difficulty;
    min_peer_reputation = float_flag g "min-peer-reputation" cfg.min_peer_reputation;
    initial_credits = int_flag g "initial-credits" cfg.initial_credits;
    routing_policy = text_flag g "routing-policy" cfg.routing_policy;
    favorite_peers = list_flag g "favorite-peers" cfg.favorite_peers;
    blocked_peers = list_flag g "blocked-peers" cfg.blocked_peers;
    allowed_peers = list_flag g "allowed-peers" cfg.allowed_peers;
    sticky_peer_ttl = int_flag g "sticky-peer-ttl" cfg.sticky_peer_ttl;
    weight_latency = float_flag g "weight-latency" cfg.weight_latency;
    weight_queue_depth = float_flag g "weight-queue-depth" cfg.weight_queue_depth;
    weight_vram_pressure = float_flag g "weight-vram-pressure" cfg.weight_vram_pressure;
    weight_reliability = float_flag g "weight-reliability" cfg.weight_reliability;
    weight_favorite_bonus = float_flag g "weight-favorite-bonus" cfg.weight_favorite_bonus;
    weight_known_bonus = float_flag g "weight-known-bonus" cfg.weight_known_bonus;
    lan_discovery = bool_flag g "lan-discovery" cfg.lan_discovery;
    lan_listen_addr = text_flag g "lan-listen-addr" cfg.lan_listen_addr;
    lan_broadcast_addr = text_flag g "lan-broadcast-addr" cfg.lan_broadcast_addr;
    lan_announce_interval = int_flag g "lan-announce-interval" cfg.lan_announce_interval;
    lan_peer_ttl = int_flag g "lan-peer-ttl" cfg.lan_peer_ttl;
    libp2p_listen_addrs = list_flag g "libp2p-listen-addrs" cfg.libp2p_listen_addrs;
    libp2p_bootstrap = list_flag g "libp2p-bootstrap-peers" cfg.libp2p_bootstrap;
    libp2p_rendezvous = text_flag g "libp2p-rendezvous" cfg.libp2p_rendezvous;
    libp2p_auto_relay = bool_flag g "libp2p-auto-relay" cfg.libp2p_auto_relay;
    libp2p_relay_service = bool_flag g "libp2p-relay-service" cfg.libp2p_relay_service;
    libp2p_nat_port_map = bool_flag g "libp2p-nat-port-map" cfg.libp2p_nat_port_map;
    libp2p_hole_punching = bool_flag g "libp2p-hole-punching" cfg.libp2p_hole_punching;
    request_timeout = int_flag g "request-timeout" cfg.request_timeout;
    log_file = text_flag g "log-file" cfg.log_file;
  }

-- os.Args[1:], once a leading `daemon` is taken off.
unfoldable pub daemon_args : List Str → List Str
daemon_args [] = []
daemon_args (a ∷ args) = if str_eq a (str "daemon") then args else a ∷ args

unfoldable pub config_path : Str → List Str → Str
config_path default_path args =
    let given = find_arg_value args (str "-config") in
    if is_empty given then default_path else given

pub data StartError : Type 0 where
  load_failed : Str → StartError
  invalid_config : ConfigError → StartError

module _ {F : Type 0} where
  -- The configuration that the flags start from: `saved` is what Exists and Load say of the file.
  unfoldable pub start_config :
      Config F
      → Option (Result Str (Config F))
      → Bool
      → List BackendDetection
      → List Str
      → Result StartError (Config F)
  start_config def none simple detected input =
      ok (if simple then (run_setup_wizard def def detected input).0 else def)
  start_config def (some (err e)) simple detected input = err (load_failed e)
  start_config def (some (ok loaded)) simple detected input =
      let (keep, rest) = prompt_yes_no input true in
      ok (
        if simple
        then (if keep then loaded else (run_setup_wizard def loaded detected rest).0)
        else loaded)

unfoldable pub is_there : {A : Type 0} → Option A → Bool
is_there none = false
is_there (some x) = true

module _ (fl : Float64) where
  open fl use {F}

  unfoldable pub resolved_or_invalid : Result ConfigError (Config F) → Result StartError (Config F)
  resolved_or_invalid (err e) = err (invalid_config e)
  resolved_or_invalid (ok c) = ok c

  unfoldable pub resolve_start :
      Config F → Given F → Result StartError (Config F) → Result StartError (Config F)
  resolve_start def g (err e) = err e
  resolve_start def g (ok cfg) =
      resolved_or_invalid (resolve_and_validate fl def (with_flags g cfg))

  -- main, up to `cfg = resolvedCfg`, for the arguments behind the program's name.
  unfoldable pub runtime_config :
      Config F
      → (Str → Option (Result Str (Config F)))
      → Str
      → Bool
      → List BackendDetection
      → List Str
      → Given F
      → List Str
      → Result StartError (Config F)
  runtime_config def files default_path interactive detected input g args =
      let args' = daemon_args args in
      resolve_start def g (
        start_config def (files (config_path default_path args'))
          (should_run_setup_wizard interactive args') detected input)

  -- Where main saves the configuration, if it does.
  unfoldable pub saved_to :
      (Str → Option (Result Str (Config F))) → Str → Given F → List Str → Option Str
  saved_to files default_path g args =
      let path = text_flag g "config" (config_path default_path (daemon_args args)) in
      if bool_flag g "save-config" false || not (is_there (files path)) then some path else none
