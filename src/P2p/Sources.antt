-- ===== src/P2p/Sources.antt =====
-- The sources of documents: several at once (multi_discovery.go), LAN broadcasts (lan_discovery.go),
-- the gateways that are configured (discovery.go), and which peers the libp2p discovery asks
-- (libp2p_discovery.go). The order of `range` is an argument.
pub mod Merged
pub mod Retries
use gpuswarm.Common.{
  ℕ, ◌+◌, Bool, true, false, not, Option, none, some, Str, str, str_eq, is_empty, trim_space,
  trim_right_char, contains, List, [], ◌∷◌, ◌++◌, map, filter, if◌then◌else◌, Result, ok, err, ltb,
  length,
}
use gpuswarm.Common.Int.{ℤ, ltb_ℤ, pos}
use gpuswarm.Common.Clock.{time_sub}
use gpuswarm.Common.Maps.{GoMap, MapRange, lookup, insert, delete}
use gpuswarm.Model.{CapabilityDocument}

pub record LanEntry (F : Type 0) : Type 0 where
  pub cap : CapabilityDocument F
  pub last_seen : ℕ

pub record LanDiscovery (F : Type 0) : Type 0 where
  pub entries : GoMap (LanEntry F)
  pub ttl : ℤ

module _ {F : Type 0} where
  -- c.PeerID + "|" + c.GatewayURL
  unfoldable pub source_key : CapabilityDocument F → Str
  source_key c = c.peer_id ++ (b'|' ∷ c.gateway_url)

  unfoldable pub add_caps :
      GoMap (CapabilityDocument F) → List (CapabilityDocument F) → GoMap (CapabilityDocument F)
  add_caps merged [] = merged
  add_caps merged (c ∷ caps) = add_caps (insert (source_key c) c merged) caps

  -- The loop over the sources: anyOK, and the map.
  unfoldable pub merge_sources :
      Bool
      → GoMap (CapabilityDocument F)
      → List (Result Str (List (CapabilityDocument F)))
      → Bool × GoMap (CapabilityDocument F)
  merge_sources any_ok merged [] = (any_ok, merged)
  merge_sources any_ok merged (err e ∷ sources) = merge_sources any_ok merged sources
  merge_sources any_ok merged (ok caps ∷ sources) =
      merge_sources true (add_caps merged caps) sources

  unfoldable pub no_entries : GoMap (CapabilityDocument F) → Bool
  no_entries [] = true
  no_entries (e ∷ m) = false

  unfoldable pub documents : MapRange → GoMap (CapabilityDocument F) → List (CapabilityDocument F)
  documents maps m = map (λ (k, c). c) (maps.range (CapabilityDocument F) m)

  -- MultiDiscovery.ListCapabilities, on what its sources answer.
  unfoldable pub list_merged :
      MapRange
      → List (Result Str (List (CapabilityDocument F)))
      → Result Str (List (CapabilityDocument F))
  list_merged maps sources =
      let (any_ok, merged) = merge_sources false [] sources in
      if not any_ok
      then err (str "no peers discovered from any source")
      else if no_entries merged
      then err (str "no peers discovered from any source")
      else ok (documents maps merged)

  -- The body of listen's loop; `norm` is the document that normalizeCapability gives.
  unfoldable pub hear : LanDiscovery F → CapabilityDocument F → ℕ → LanDiscovery F
  hear d norm now = record d {
    entries = insert (source_key norm) (record { cap = norm; last_seen = now }) d.entries;
  }

  unfoldable pub lan_live : LanDiscovery F → ℕ → GoMap (LanEntry F)
  lan_live d now = filter (λ (k, v). not (ltb_ℤ d.ttl (time_sub now v.last_seen))) d.entries

  unfoldable pub lan_answer : List (CapabilityDocument F) → Result Str (List (CapabilityDocument F))
  lan_answer [] = err (str "no lan peers discovered")
  lan_answer (c ∷ out) = ok (c ∷ out)

  unfoldable pub list_lan :
      MapRange → LanDiscovery F → ℕ → LanDiscovery F × Result Str (List (CapabilityDocument F))
  list_lan maps d now = (
    record d { entries = lan_live d now },
    lan_answer (map (λ (k, v). v.cap) (maps.range (LanEntry F) (lan_live d now))),
  )

  -- What one gateway's goroutine sends; `none` is an error.
  unfoldable pub gateway_cap : Str → CapabilityDocument F → CapabilityDocument F
  gateway_cap base cap = record cap {
    gateway_url = if is_empty cap.gateway_url then base else cap.gateway_url;
  }

  unfoldable pub gateway_caps :
      (Str → Option (CapabilityDocument F)) → List Str → List (CapabilityDocument F)
  gateway_caps fetch [] = []
  gateway_caps fetch (base ∷ gateways) =
      let rest = gateway_caps fetch gateways in
      elim (fetch base) [ none ↦ rest | some cap ↦ gateway_cap base cap ∷ rest ]

  unfoldable pub http_answer :
      List (CapabilityDocument F) → Result Str (List (CapabilityDocument F))
  http_answer [] = err (str "no peers discovered")
  http_answer (c ∷ out) = ok (c ∷ out)

  -- HTTPDiscovery.ListCapabilities; `arrive` is the order in which the answers come in.
  unfoldable pub list_http :
      (List (CapabilityDocument F) → List (CapabilityDocument F))
      → (Str → Option (CapabilityDocument F))
      → List Str
      → Result Str (List (CapabilityDocument F))
  list_http arrive fetch gateways = http_answer (arrive (gateway_caps fetch gateways))

-- NewHTTPDiscovery
unfoldable pub clean_gateways : List Str → List Str
clean_gateways [] = []
clean_gateways (u ∷ urls) =
    let rest = clean_gateways urls in
    let v = trim_space (trim_right_char b'/' u) in if is_empty v then rest else v ∷ rest

-- Libp2pDiscovery.retryAfter
abbrev pub RetryAfter : Type 0
RetryAfter = GoMap ℕ

unfoldable pub due : ℕ → Option ℕ → Bool
due now none = true
due now (some next) = not (ltb now next)

unfoldable pub should_query : RetryAfter → Str → ℕ → Bool
should_query r pid now = due now (lookup pid r)

unfoldable pub mark_query_failure : RetryAfter → Str → ℕ → RetryAfter
mark_query_failure r pid now = insert pid (now + 30_000_000_000) r

unfoldable pub mark_query_success : RetryAfter → Str → RetryAfter
mark_query_success r pid = delete pid r

unfoldable pub is_relay : Str → Bool
is_relay a = contains a (str "/p2p-circuit/")

unfoldable pub prioritize_relay_addrs : List Str → List Str
prioritize_relay_addrs addrs =
    if ltb 0 (length (filter is_relay addrs))
    then filter is_relay addrs
    else filter (λ a. not (is_relay a)) addrs
