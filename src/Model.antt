-- ===== src/Model.antt =====
-- internal/model/types.go: the documents that nodes exchange. F is the type of float64 values;
-- a time is the number of nanoseconds since Go's zero time.
pub mod Supports
use gpuswarm.Common.{
  ℕ, Bool, true, false, List, Str, ◌&&◌, ◌||◌, not, str_eq, is_empty, any, Option,
}
use gpuswarm.Common.Int.{ℤ}
use gpuswarm.Common.Maps.{GoMap}

pub record Message : Type 0 where
  pub role : Str
  pub content : Str

pub record ModelRequirements : Type 0 where
  pub sha256 : Str
  pub tokenizer : Str
  pub quant : Str
  pub backend : Str

pub record ChatCompletionRequest : Type 0 where
  pub model : Str
  pub messages : List Message
  pub stream : Bool
  pub max_tokens : ℤ
  pub requirements : ModelRequirements
  -- A nil map is `none`.
  pub metadata : Option (GoMap Str)

pub record PeerContext : Type 0 where
  pub client_peer_id : Str
  pub client_name : Str
  pub pow_nonce : ℕ

pub record ModelSpec : Type 0 where
  pub name : Str
  pub sha256 : Str
  pub tokenizer : Str
  pub quant : Str
  pub backend : Str
  pub max_ctx : ℤ

pub record CapabilityDocument (F : Type 0) : Type 0 where
  pub peer_id : Str
  pub is_self : Bool
  pub node_name : Str
  pub models : List ModelSpec
  pub announce_addrs : List Str
  pub gpu : Str
  pub vram_free_mb : ℤ
  pub queue_depth : ℤ
  pub avg_latency_ms : ℤ
  pub reliability : F
  pub gateway_url : Str
  pub updated_at : ℕ

pub record RoutingWeights (F : Type 0) : Type 0 where
  pub latency : F
  pub queue_depth : F
  pub vram_pressure : F
  pub reliability : F
  pub favorite_bonus : F
  pub known_bonus : F

unfoldable pub supports_model : {F : Type 0} → CapabilityDocument F → Str → Bool
supports_model c model = any (λ m. str_eq m.name model) c.models

-- An empty requirement asks for nothing.
unfoldable pub requires : Str → Str → Bool
unfolding is_empty
requires wanted actual = not (is_empty wanted) && not (str_eq actual wanted)

-- The body of the loop: does this entry carry the function to `return true`?
unfoldable pub spec_satisfies : Str → ModelRequirements → ModelSpec → Bool
unfolding requires
spec_satisfies model r m =
    str_eq m.name model
    && not (requires r.sha256 m.sha256)
    && not (requires r.tokenizer m.tokenizer)
    && not (requires r.quant m.quant)
    && not (requires r.backend m.backend)

unfoldable pub supports_requirements :
    {F : Type 0} → CapabilityDocument F → Str → ModelRequirements → Bool
unfolding spec_satisfies
supports_requirements c model r = any (spec_satisfies model r) c.models
