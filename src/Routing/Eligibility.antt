-- ===== src/Routing/Eligibility.antt =====
-- Which peers the ranking loop keeps, said without the order of its tests.
use gpuswarm.Common.{
  Bool, true, false, str, str_eq_iff, [], ◌∷◌, ltb, length, ◌≡◌, ◌≢◌, refl, ◌↔◌, ◌⊎◌, arith,
}
use gpuswarm.Common.Maps.{Set, member}
use gpuswarm.Model.{CapabilityDocument, ChatCompletionRequest}
use gpuswarm.Model.Supports.{Offers, supports_requirements_iff}
use gpuswarm.Routing.{Preferences, effective_policy, is_favorite, skips}

pub record Eligible {F : Type 0} (req : ChatCompletionRequest) (pref : Preferences) (has_fav : Bool)
    (p : CapabilityDocument F) : Type 0 where
  pub not_blocked : member p.peer_id pref.blocked ≡ false
  pub allowed :
      (effective_policy pref ≢ str "manual")
      ⊎ (pref.allowed ≡ [])
      ⊎ (member p.peer_id pref.allowed ≡ true)
  pub favored :
      (effective_policy pref ≢ str "prefer_favorites")
      ⊎ (has_fav ≡ false)
      ⊎ (is_favorite pref p ≡ true)
  pub supports : Offers req.model req.requirements p.models

nonempty : (s : Set) → ltb 0 (length s) ≡ false → s ≡ []
nonempty [] h = refl
nonempty (x ∷ s) h = absurd (ground arith)

module _ {F : Type 0} (req : ChatCompletionRequest) (pref : Preferences) (has_fav : Bool)
    (p : CapabilityDocument F) where
  skips-Eligible : skips req pref has_fav p ≡ false → Eligible req pref has_fav p
  unfolding skips
  skips-Eligible h = record {
    not_blocked = ground arith;
    allowed =
        ground (arith, nonempty pref.allowed, str_eq_iff (effective_policy pref) (str "manual"));
    favored = ground (arith, str_eq_iff (effective_policy pref) (str "prefer_favorites"));
    supports = (supports_requirements_iff p req.model req.requirements).0 (ground arith);
  }

  Eligible-skips : Eligible req pref has_fav p → skips req pref has_fav p ≡ false
  unfolding skips
  Eligible-skips e =
      let s = (supports_requirements_iff p req.model req.requirements).1 e.supports in
      ground (
        arith,
        e.not_blocked,
        e.allowed,
        e.favored,
        s,
        str_eq_iff (effective_policy pref) (str "manual"),
        str_eq_iff (effective_policy pref) (str "prefer_favorites"),
      )

  pub skips_iff : (skips req pref has_fav p ≡ false) ↔ Eligible req pref has_fav p
  skips_iff = (skips-Eligible, Eligible-skips)
