-- ===== src/Cmd/Wiring/Published.antt =====
-- What a provider publishes leads a client to it.
use gpuswarm.Common.{
  true, false, Option, Str, str, is_empty, is_space, trim_space, trim_right_func, trim_right-append,
  List, [], ◌∷◌, ◌++◌, Result, ◌≡◌, refl, ap, ◌∙◌,
}
use gpuswarm.Common.Floats.{Float64}
use gpuswarm.Common.Split.{split, last, Lacks, split-append, split-lacking}
use gpuswarm.Config.{Config}
use gpuswarm.P2p.Host.{Host, AddrInfo}
use gpuswarm.P2p.Gateway.{parse_peer_id_from_gateway, or_invalid}
use gpuswarm.App.Capability.{CapabilityState}
use gpuswarm.Cmd.Wiring.{is_libp2p, provider_document, heartbeat_document, publish}

-- A peer's ID as a text: not empty, and with no slash and no space behind.
pub record IdText (id : Str) : Type 0 where
  pub not_empty : is_empty id ≡ false
  pub no_slash : Lacks b'/' id
  pub trimmed : trim_right_func is_space id ≡ id

abbrev url : Str → Str
url id = str "libp2p://" ++ id

url-split : (id : Str) → Lacks b'/' id → split b'/' (url id) ≡ str "libp2p:" ∷ ([] ∷ (id ∷ []))
url-split id h =
    split-append b'/' (str "libp2p:") (b'/' ∷ id) refl
    ∙ ap (λ ps. str "libp2p:" ∷ ps)
        (split-append b'/' [] id refl ∙ ap (λ ps. [] ∷ ps) (split-lacking b'/' id h))

url-trimmed : (id : Str) → IdText id → trim_space (url id) ≡ url id
unfolding trim_space
url-trimmed id h = (trim_right-append (str "libp2p://") id h.not_empty h.trimmed).0

parse_url :
    (decode : Str → Result Str Str) (id : Str)
    → IdText id
    → parse_peer_id_from_gateway decode (url id) ≡ decode id
unfolding parse_peer_id_from_gateway
parse_url decode id h =
    rw (url-trimmed id h, url-split id h.no_slash)
      (unfold last in unfold or_invalid in rw h.not_empty refl)

module _ (fl : Float64) (host : Host fl.F) (decode : Str → Result Str Str) where
  open fl use {F}

  -- The gateway's URL in what a provider on libp2p publishes, be it the document that it starts with
  -- under its node's ID or any heartbeat of it, leads the client's gateway to the provider's peer ID, if
  -- the ID's text is not empty and has no slash and no space behind.
  pub published-parses :
      (split_host_port : Str → Option (Str × Str)) (join_host_port : Str → Str → Str) (c : Config F)
      (announced : List Str) (s : CapabilityState F) (h : host.H) (bps : List (AddrInfo host.Addr))
      → IdText host.self
      → is_libp2p c ≡ true
      → (parse_peer_id_from_gateway decode
            (provider_document fl split_host_port join_host_port c host.self announced).gateway_url
          ≡ decode host.self)
        × (parse_peer_id_from_gateway decode (publish fl host s h bps).0.gateway_url
            ≡ decode (publish fl host s h bps).0.peer_id)
  unfolding provider_document publish heartbeat_document
  published-parses split_host_port join_host_port c announced s h bps t l =
      (rw l (parse_url decode host.self t), parse_url decode host.self t)
