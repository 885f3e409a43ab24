-- ===== src/P2p/Host/Options.antt =====
-- NewLibp2pNode: the options that the libp2p host is made with, up to the call of libp2p.New.
use gpuswarm.Common.{
  any-append, Bool, true, false, ◌&&◌, ◌||◌, not, Option, none, some, Str, str, List, [], ◌∷◌, ◌++◌,
  any, if◌then◌else◌, ◌≡◌, refl, arith,
}
use gpuswarm.P2p.Host.{Host, AddrInfo, parse_static_relay_peers}

pub record Libp2pConfig : Type 0 where
  pub listen_addrs : List Str
  pub bootstrap_peers : List Str
  pub rendezvous : Str
  pub enable_mdns : Bool
  pub enable_nat_port_map : Bool
  pub enable_hole_punching : Bool
  pub enable_auto_relay : Bool
  pub enable_relay_service : Bool

-- libp2p.Option, with one constructor for each function that is called; the identity is the node's.
pub data HostOption (Addr : Type 0) : Type 0 where
  listen_addr_strings : List Str → HostOption Addr
  identity force_reachability_public force_reachability_private enable_relay nat_port_map
        hole_punching relay_service :
      HostOption Addr
  static_relays : List (AddrInfo Addr) → HostOption Addr

unfoldable pub listen_or_any : List Str → List Str
listen_or_any [] = str "/ip4/0.0.0.0/tcp/0" ∷ []
listen_or_any (a ∷ addrs) = a ∷ addrs

-- `if b { opts = append(opts, o) }`
unfoldable pub option_if : {A : Type 0} → Bool → A → List A
option_if b o = if b then o ∷ [] else []

module _ {F : Type 0} (host : Host F) where
  open host use {Addr}

  unfoldable pub static_relay_option : Option (List (AddrInfo Addr)) → List (HostOption Addr)
  static_relay_option none = []
  static_relay_option (some []) = []
  static_relay_option (some (r ∷ relays)) = static_relays (r ∷ relays) ∷ []

  unfoldable pub auto_relay_options : Libp2pConfig → List (HostOption Addr)
  auto_relay_options cfg =
      if cfg.enable_auto_relay
      then static_relay_option (parse_static_relay_peers host cfg.bootstrap_peers)
      else []

  unfoldable pub host_options : Libp2pConfig → List (HostOption Addr)
  unfolding listen_or_any option_if auto_relay_options
  host_options cfg =
      listen_addr_strings (listen_or_any cfg.listen_addrs)
      ∷ (identity
          ∷ (option_if cfg.enable_relay_service force_reachability_public
              ++ (option_if (cfg.enable_auto_relay && not cfg.enable_relay_service)
                    force_reachability_private
                  ++ (option_if (cfg.enable_auto_relay || cfg.enable_relay_service) enable_relay
                      ++ (option_if cfg.enable_nat_port_map nat_port_map
                          ++ (option_if cfg.enable_hole_punching hole_punching
                              ++ (option_if cfg.enable_relay_service relay_service
                                  ++ auto_relay_options cfg)))))))

  abbrev pub is_public : HostOption Addr → Bool
  is_public force_reachability_public = true
  is_public o = false

  abbrev pub is_private : HostOption Addr → Bool
  is_private force_reachability_private = true
  is_private o = false

  abbrev pub is_relaying : HostOption Addr → Bool
  is_relaying relay_service = true
  is_relaying (static_relays rs) = true
  is_relaying o = false

  abbrev pub enables_relay : HostOption Addr → Bool
  enables_relay enable_relay = true
  enables_relay o = false

  pub record Consistent (opts : List (HostOption Addr)) : Type 0 where
    pub one_reachability : (any is_public opts && any is_private opts) ≡ false
    pub relay_enabled : any is_relaying opts ≡ true → any enables_relay opts ≡ true
    pub one_side : any is_relaying opts ≡ true → (any is_public opts || any is_private opts) ≡ true

  any-option_if :
      (test : HostOption Addr → Bool) (b : Bool) (o : HostOption Addr)
      → any test (option_if b o) ≡ (b && test o)
  unfolding option_if
  any-option_if test b o = ground arith

  -- Which options pass a test, one flag after the other.
  any-host_options :
      (test : HostOption Addr → Bool) (cfg : Libp2pConfig)
      → test (listen_addr_strings (listen_or_any cfg.listen_addrs)) ≡ false
      → test identity ≡ false
      → any test (host_options cfg) ≡ (
          (cfg.enable_relay_service && test force_reachability_public)
          || (((cfg.enable_auto_relay && not cfg.enable_relay_service)
                && test force_reachability_private)
              || (((cfg.enable_auto_relay || cfg.enable_relay_service) && test enable_relay)
                  || ((cfg.enable_nat_port_map && test nat_port_map)
                      || ((cfg.enable_hole_punching && test hole_punching)
                          || ((cfg.enable_relay_service && test relay_service)
                              || any test (auto_relay_options cfg)))))))
  any-host_options test cfg h k =
      unfold host_options in rw (h, k) (simp (any-append, any-option_if))

  static_relay-any :
      (test : HostOption Addr → Bool) (o : Option (List (AddrInfo Addr)))
      → ((rs : List (AddrInfo Addr)) → test (static_relays rs) ≡ false)
      → any test (static_relay_option o) ≡ false
  unfolding static_relay_option
  static_relay-any test none h = refl
  static_relay-any test (some []) h = refl
  static_relay-any test (some (r ∷ rs)) h = rw (h (r ∷ rs)) refl

  auto_relay-any :
      (test : HostOption Addr → Bool) (cfg : Libp2pConfig)
      → ((rs : List (AddrInfo Addr)) → test (static_relays rs) ≡ false)
      → any test (auto_relay_options cfg) ≡ false
  unfolding auto_relay_options
  auto_relay-any test cfg h =
      let k = static_relay-any test (parse_static_relay_peers host cfg.bootstrap_peers) h in
      ground arith

  relays_if_auto :
      (cfg : Libp2pConfig)
      → cfg.enable_auto_relay ≡ false
      → any is_relaying (auto_relay_options cfg) ≡ false
  unfolding auto_relay_options
  relays_if_auto cfg h = rw h refl

  -- Whatever is configured, the host is never told that it is public and private at once, and where it
  -- serves as a relay or uses relays, relaying is enabled and its reachability is fixed.
  pub host_options-Consistent : (cfg : Libp2pConfig) → Consistent (host_options cfg)
  host_options-Consistent cfg =
      let public = any-host_options is_public cfg refl refl in
      let private = any-host_options is_private cfg refl refl in
      let relaying = any-host_options is_relaying cfg refl refl in
      let no_public = auto_relay-any is_public cfg (λ rs. refl) in
      let no_private = auto_relay-any is_private cfg (λ rs. refl) in
      record {
        one_reachability = rw (public, private) (ground arith);
        relay_enabled =
            rw (relaying, any-host_options enables_relay cfg refl refl)
              (λ h. ground (arith, relays_if_auto cfg));
        one_side = rw (relaying, public, private) (λ h. ground (arith, relays_if_auto cfg));
      }
