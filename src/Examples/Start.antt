-- ===== src/Examples/Start.antt =====
-- A node that is started with its defaults.
use gpuswarm.Common.{
  ◌≡◌, true, false, some, none, Str, str, str_eq, is_empty, is_space, trim_space, trim_right_func,
  to_lower, [], ◌∷◌, ◌++◌, List, inl, refl, ok, Result,
}
use gpuswarm.Common.{str_eq_refl, Bool-cases, inr}
use gpuswarm.Common.Maps.{GoMap, lookup, insert, lookup-insert}
use gpuswarm.Common.Floats.{thousandths}
use gpuswarm.Config.File.{
  Format, format_of, save, save_in, write_config, saved_config, is_json, ext_after,
}
use gpuswarm.Examples.Exchange.{disk}
use gpuswarm.Config.{default_config, filled, normal, asks, fill_list, no_items}
use gpuswarm.Cmd.{should_run_setup_wizard, find_arg_value}
use gpuswarm.Cmd.Flags.{config_path, daemon_args, runtime_config}
use gpuswarm.Cmd.Flags.Restart.{no_flags, PlainLists, saved_restart}
use gpuswarm.Cmd.Wiring.{Source, client_sources, is_libp2p, provider_document, publish}
use gpuswarm.Cmd.Wiring.Sources.{resolved_sources}
use gpuswarm.Cmd.Wiring.Published.{IdText, published-parses}
use gpuswarm.P2p.Gateway.{parse_peer_id_from_gateway}
use gpuswarm.App.Capability.{CapabilityState, new_capability_state}
use gpuswarm.Examples.{fast}
use gpuswarm.Examples.Command.{defaults, resolved, defaults_resolve}
use gpuswarm.Examples.Discovery.{host}

resolved_plain : PlainLists resolved
unfolding default_config filled is_empty trim_space fill_list no_items str_eq
resolved_plain = record {
  provider_peer_urls = tt;
  models = tt;
  model_specs = tt;
  favorite_peers = tt;
  blocked_peers = tt;
  allowed_peers = tt;
  libp2p_listen_addrs =
      (record { item = record { not_blank = refl; trimmed = refl }; no_comma = refl }, tt);
  libp2p_bootstrap =
      (record { item = record { not_blank = refl; trimmed = refl }; no_comma = refl }, tt);
}

not_asked : should_run_setup_wizard false (daemon_args (str "daemon" ∷ [])) ≡ false
unfolding should_run_setup_wizard daemon_args str_eq
not_asked = refl

-- Both formats write the same text for every configuration, and read it as this one.
abbrev format : Format thousandths.F
format = record { marshal = λ c. ok (str "cfg"); unmarshal = λ def text. ok resolved }

abbrev given_path : Str
given_path = config_path (str "mesh.yaml") (daemon_args (str "daemon" ∷ []))

config_there :
    (d : GoMap Str) (text : Str)
    → (disk.write d given_path text).1 ≡ none
    → (disk.read (disk.write d given_path text).0 given_path ≡ some text)
      × (disk.stat (disk.write d given_path text).0 given_path ≡ true)
config_there d text h =
    let found : lookup given_path (insert given_path text d) ≡ some text =
      rw lookup-insert (rw str_eq_refl refl) in
    (found, rw found refl)

config_read_back :
    (text : Str)
    → (format_of disk format format given_path).marshal resolved ≡ ok text
    → (format_of disk format format given_path).unmarshal defaults text ≡ ok resolved
unfolding format_of
config_read_back text h = elim (Bool-cases (is_json given_path)) [
  | inl e ↦ rw e refl
  | inr e ↦ rw e refl
]

config_saved : (save disk format format [] given_path resolved).1 ≡ none
unfolding save save_in write_config format_of is_json ext_after config_path daemon_args str_eq
    find_arg_value is_empty to_lower
config_saved = refl

saved_restart_example :
    runtime_config thousandths defaults
      (saved_config disk format format defaults (save disk format format [] given_path resolved).0)
      (str "mesh.yaml")
      false
      []
      []
      no_flags
      (str "daemon" ∷ [])
    ≡ ok resolved
saved_restart_example =
    saved_restart thousandths disk format format defaults defaults resolved [] (str "mesh.yaml")
      false [] [] (str "daemon" ∷ []) defaults_resolve resolved_plain config_there config_read_back
      config_saved (inl not_asked)

asking : asks resolved.mode ≡ true
unfolding asks filled default_config str_eq
asking = refl

resolved_sources_example :
    (s : Source) × (sources : List Source) × (client_sources resolved ≡ some (s ∷ sources))
resolved_sources_example =
    resolved_sources thousandths defaults defaults resolved defaults_resolve asking

me_IdText : IdText host.self
unfolding is_empty trim_right_func is_space
me_IdText = record { not_empty = refl; no_slash = refl; trimmed = refl }

on_libp2p : is_libp2p resolved ≡ true
unfolding is_libp2p filled default_config normal to_lower trim_space is_empty str_eq
on_libp2p = refl

abbrev decode : Str → Result Str Str
decode s = ok s

abbrev started : CapabilityState thousandths.F
started = new_capability_state thousandths fast 4

published-parses_example :
    (parse_peer_id_from_gateway decode
        (provider_document thousandths
          (λ a. none)
          (λ a b. a ++ b)
          resolved
          host.self
          []).gateway_url
      ≡ decode host.self)
    × (parse_peer_id_from_gateway decode (publish thousandths host started [] []).0.gateway_url
        ≡ decode (publish thousandths host started [] []).0.peer_id)
published-parses_example =
    published-parses thousandths host decode (λ a. none) (λ a b. a ++ b) resolved [] started [] []
      me_IdText on_libp2p
