-- ===== src/Cmd/Wiring/Sources.antt =====
-- The client of a node that starts has a source of documents.
use gpuswarm.Common.{
  Bool, true, false, not, some, Str, str, str_eq, str_eq_iff, List, [], ◌∷◌, ◌++◌, if◌then◌else◌,
  ok, ◌≡◌, refl, ap, ◌∙◌, ◌⊎◌, inl, inr, Bool-cases, is_empty, trim_space, to_lower,
}
use gpuswarm.Common.Floats.{Float64}
use gpuswarm.Config.{Config, no_items, asks, normal, resolve_and_validate, valid_transport}
use gpuswarm.Config.Resolved.{resolve-Usable}
use gpuswarm.Common.Int.{pos}
use gpuswarm.Cmd.Wiring.{
  Source, libp2p_source, source_if, or_exit, is_libp2p, local_sources, client_sources,
}

append-nonempty :
    (xs : List Source) (x : Source)
    → (s : Source) × (rest : List Source) × (xs ++ (x ∷ []) ≡ s ∷ rest)
append-nonempty [] x = (x, [], refl)
append-nonempty (y ∷ xs) x = (y, xs ++ (x ∷ []), refl)

either-nonempty :
    (a b : Bool) (x y : Source)
    → (a ≡ false) ⊎ (b ≡ true)
    → (s : Source) × (rest : List Source) × (source_if (not a) x ++ source_if b y ≡ s ∷ rest)
unfolding source_if
either-nonempty false b x y h = (x, (if b then y ∷ [] else []), refl)
either-nonempty true true x y h = (y, [], refl)
either-nonempty true false x y (inl e) = cc
either-nonempty true false x y (inr e) = cc

local-nonempty :
    {F : Type 0} (c : Config F)
    → (no_items c.provider_peer_urls ≡ false) ⊎ (c.lan_discovery ≡ true)
    → (s : Source) × (rest : List Source) × (local_sources c ≡ s ∷ rest)
unfolding local_sources
local-nonempty c h = either-nonempty (no_items c.provider_peer_urls) c.lan_discovery _ _ h

transport-cases : (t : Str) → valid_transport t ≡ true → (t ≡ str "http") ⊎ (t ≡ str "libp2p")
unfolding valid_transport
transport-cases t h = elim (Bool-cases (str_eq t (str "http"))) [
  | inl e ↦ inl ((str_eq_iff t (str "http")).0 e)
  | inr e ↦ inr ((str_eq_iff t (str "libp2p")).0 (rw e at h))
]

normal_http : str_eq (normal (str "http")) (str "libp2p") ≡ false
unfolding normal to_lower trim_space is_empty str_eq
normal_http = refl

normal_libp2p : str_eq (normal (str "libp2p")) (str "libp2p") ≡ true
unfolding normal to_lower trim_space is_empty str_eq
normal_libp2p = refl

reads :
    {F : Type 0} (c : Config F)
    → (c.transport ≡ str "http" → is_libp2p c ≡ false)
      × (c.transport ≡ str "libp2p" → is_libp2p c ≡ true)
unfolding is_libp2p
reads c = (
  λ e. ap (λ t. str_eq (normal t) (str "libp2p")) e ∙ normal_http,
  λ e. ap (λ t. str_eq (normal t) (str "libp2p")) e ∙ normal_libp2p,
)

module _ (fl : Float64) where
  open fl use {F}

  -- A node that asks other nodes, with a configuration that ResolveAndValidate has accepted, has a
  -- source of documents: main does not end for want of one.
  pub resolved_sources :
      (def cfg c : Config F)
      → resolve_and_validate fl def cfg ≡ ok c
      → asks c.mode ≡ true
      → (s : Source) × (sources : List Source) × (client_sources c ≡ some (s ∷ sources))
  unfolding client_sources or_exit
  resolved_sources def cfg c h a =
      let u = resolve-Usable fl def cfg c h in
      elim (transport-cases c.transport u.transport) [
        | inl http ↦
            let (s, rest, e) = local-nonempty c (u.peers http a) in
            (s, rest, rw ((reads c).0 http, e) refl)
        | inr libp2p ↦
            let (s, rest, e) =
              append-nonempty (local_sources c)
                (libp2p_source c.libp2p_rendezvous (pos 3_000_000_000)) in
            (s, rest, rw ((reads c).1 libp2p, e) refl)
      ]
