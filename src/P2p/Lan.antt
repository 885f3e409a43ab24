-- ===== src/P2p/Lan.antt =====
-- internal/p2p/lan_discovery.go: broadcasts on the local network. The socket and JSON are left out;
-- net.JoinHostPort and url.Parse are arguments.
use mathlib.Core.List.{Mem, not-mem-nil}
use mathlib.Core.List.Perm
use gpuswarm.Common.{
  ℕ, Bool, true, false, ◌||◌, Option, none, some, Str, str, str_eq, str_eq_iff, str_eq_refl,
  is_empty, ◌⊎◌, inl, inr, arith, Bool-cases, has_prefix, List, [], ◌∷◌, ◌++◌, map, if◌then◌else◌,
  ok, ◌≡◌, refl,
}
use gpuswarm.Common.Int.{ℤ, pos, leb_ℤ, ltb_ℤ}
use gpuswarm.Common.Clock.{time_sub}
use gpuswarm.Common.Maps.{MapRange, insert, lookup-insert}
use gpuswarm.Common.Members.{mem-map_of_mem, mem-filter_iff}
use gpuswarm.Common.Unique.{lookup-Mem}
use gpuswarm.Model.{CapabilityDocument}
use gpuswarm.P2p.Sources.{LanDiscovery, LanEntry, source_key, hear, lan_live, lan_answer, list_lan}

-- A parsed URL: its host without the port, its port, and its text with another host.
pub record Url : Type 0 where
  pub hostname : Str
  pub port : Str
  pub with_host : Str → Str

unfoldable pub is_local : Str → Bool
is_local host =
    is_empty host
    || str_eq host (str "127.0.0.1")
    || str_eq host (str "localhost")
    || has_prefix host (str "::1")

-- A host that is the sender's own machine.
abbrev pub Own : Str → Type 0
Own host =
    (is_empty host ≡ true)
    ⊎ (host ≡ str "127.0.0.1")
    ⊎ (host ≡ str "localhost")
    ⊎ (has_prefix host (str "::1") ≡ true)

is_local-Own : (host : Str) → Own host → is_local host ≡ true
unfolding is_local
is_local-Own host h =
    ground (arith, str_eq_iff host (str "127.0.0.1"), str_eq_iff host (str "localhost"))

is_local-foreign : (host : Str) → ¬ Own host → is_local host ≡ false
unfolding is_local
is_local-foreign host h = elim (Bool-cases (is_local host)) [
  | inl e ↦ absurd (h (cases e))
  | inr e ↦ e
]
  where
    cases : is_local host ≡ true → Own host
    cases e = ground (arith, str_eq_iff host (str "127.0.0.1"), str_eq_iff host (str "localhost"))

-- 15 s.
unfoldable pub new_lan_discovery : {F : Type 0} → ℤ → LanDiscovery F
new_lan_discovery ttl = record {
  entries = [];
  ttl = if leb_ℤ ttl (pos 0) then pos 15_000_000_000 else ttl;
}

-- NewLANAnnouncer's interval, 3 s by default.
unfoldable pub announce_interval : ℤ → ℤ
announce_interval interval = if leb_ℤ interval (pos 0) then pos 3_000_000_000 else interval

module _ (join_host_port : Str → Str → Str) (parse : Str → Option Url) where
  -- The gateway's URL as seen from the receiver of a broadcast from `ip`.
  unfoldable pub seen_from : Str → Str → Option Url → Str
  seen_from ip url none = url
  seen_from ip url (some u) =
      if is_local u.hostname
      then u.with_host (join_host_port ip (if is_empty u.port then str "7777" else u.port))
      else url

  unfoldable pub normalize_capability :
      {F : Type 0} → CapabilityDocument F → Str → CapabilityDocument F
  normalize_capability cap ip = record cap {
    gateway_url =
        if is_empty cap.gateway_url
        then str "http://" ++ join_host_port ip (str "7777")
        else seen_from ip cap.gateway_url (parse cap.gateway_url);
  }

  -- One packet; `none` is one that is no document.
  unfoldable pub receive :
      {F : Type 0} → LanDiscovery F → Option (CapabilityDocument F) → Str → ℕ → LanDiscovery F
  receive d none ip now = d
  receive d (some cap) ip now = hear d (normalize_capability cap ip) now

  -- What a URL becomes when it comes from an address.
  pub record SeenFrom (ip given url : Str) : Type 0 where
    pub missing : is_empty given ≡ true → url ≡ str "http://" ++ join_host_port ip (str "7777")
    pub unreadable : is_empty given ≡ false → parse given ≡ none → url ≡ given
    pub elsewhere :
        (u : Url) → is_empty given ≡ false → parse given ≡ some u → ¬ Own u.hostname → url ≡ given
    pub own :
        (u : Url)
        → is_empty given ≡ false
        → parse given ≡ some u
        → Own u.hostname
        → is_empty u.port ≡ false
        → url ≡ u.with_host (join_host_port ip u.port)
    pub own_without_port :
        (u : Url)
        → is_empty given ≡ false
        → parse given ≡ some u
        → Own u.hostname
        → is_empty u.port ≡ true
        → url ≡ u.with_host (join_host_port ip (str "7777"))

  normalized-SeenFrom :
      (ip given : Str)
      → SeenFrom ip given (
          if is_empty given
          then str "http://" ++ join_host_port ip (str "7777")
          else seen_from ip given (parse given))
  unfolding seen_from
  normalized-SeenFrom ip given = record {
    missing = λ e. rw e refl;
    unreadable = λ e p. rw (e, p) refl;
    elsewhere = λ u e p n. rw (e, p, is_local-foreign u.hostname n) refl;
    own = λ u e p l q. rw (e, p, is_local-Own u.hostname l, q) refl;
    own_without_port = λ u e p l q. rw (e, p, is_local-Own u.hostname l, q) refl;
  }

  module _ {F : Type 0} where
    answer-Mem :
        (c : CapabilityDocument F) (out : List (CapabilityDocument F))
        → Mem c out
        → (all : List (CapabilityDocument F)) × ((lan_answer out ≡ ok all) × Mem c all)
    unfolding lan_answer
    answer-Mem c [] m = absurd (not-mem-nil m)
    answer-Mem c (d ∷ out) m = (d ∷ out, (refl, m))

    module _ (maps : MapRange) (d : LanDiscovery F) (norm : CapabilityDocument F)
        (now later : ℕ) where
      listed : List (CapabilityDocument F)
      listed = map (λ (k, v). v.cap) (maps.range (LanEntry F) (lan_live (hear d norm now) later))

      listed-Mem : ltb_ℤ d.ttl (time_sub later now) ≡ false → Mem norm listed
      unfolding listed hear lan_live
      listed-Mem h =
          let entry : LanEntry F = record { cap = norm; last_seen = now } in
          let key = source_key norm in
          let found =
            lookup-Mem key entry (insert key entry d.entries)
              (rw lookup-insert (rw str_eq_refl refl)) in
          let live =
            (mem-filter_iff _ (key, entry) (insert key entry d.entries)).1 (found, rw h refl) in
          let ranged = (Perm.mem_iff (maps.range_perm (LanEntry F) _)).1 live in
          mem-map_of_mem (λ (k, v). v.cap) (key, entry) _ ranged

    -- A document that was received from an address is listed as it is, but for its gateway, as long as
    -- it is not older than the time to live. The gateway is the address at port 7777 if none was given,
    -- and the given one with the address in place of its host if that is the sender's own machine
    -- (empty, 127.0.0.1, localhost or beginning with ::1), at the given port or 7777; else as it was given.
    pub received_listed :
        (maps : MapRange) (d : LanDiscovery F) (cap : CapabilityDocument F) (ip : Str)
        (now later : ℕ)
        → ltb_ℤ d.ttl (time_sub later now) ≡ false
        → (out : List (CapabilityDocument F)) × (url : Str) × (((list_lan maps
                (receive d (some cap) ip now)
                later).1
              ≡ ok out)
            × (SeenFrom ip cap.gateway_url url × Mem (record cap { gateway_url = url }) out))
    unfolding list_lan receive listed normalize_capability
    received_listed maps d cap ip now later h =
        let norm = normalize_capability cap ip in
        let (out, (e, m)) =
          answer-Mem norm (listed maps d norm now later) (listed-Mem maps d norm now later h) in
        (out, norm.gateway_url, (e, (normalized-SeenFrom ip cap.gateway_url, m)))
