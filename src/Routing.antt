-- ===== src/Routing.antt =====
-- internal/routing/router.go: scoring, filtering and ranking of peers. Sets of peer IDs are lists;
-- sort.Slice is the argument `sorting`.
pub mod Eligibility
pub mod Ranking
pub mod Best
use gpuswarm.Common.{
  ℕ, Bool, true, false, ◌&&◌, not, Str, str, str_eq, is_empty, List, [], ◌∷◌, if◌then◌else◌, any,
  ltb, length, Result, ok, err,
}
use gpuswarm.Common.Int.{ℤ, pos, ltb_ℤ}
use gpuswarm.Common.Floats.{Float64}
use gpuswarm.Common.Maps.{Set, member}
use gpuswarm.Common.Sorting.{SortSlice}
use gpuswarm.Model.{
  CapabilityDocument, ChatCompletionRequest, RoutingWeights, supports_requirements,
}

pub data RouterError : Type 0 where
  no_peers : RouterError

pub record PeerScore (F : Type 0) : Type 0 where
  pub capability : CapabilityDocument F
  pub score : F

pub record Preferences : Type 0 where
  pub policy : Str
  pub favorites : Set
  pub known : Set
  pub allowed : Set
  pub blocked : Set

pub record Router (F : Type 0) : Type 0 where
  pub weights : RoutingWeights F

abbrev pub no_preferences : Preferences
no_preferences = record { policy = []; favorites = []; known = []; allowed = []; blocked = [] }

-- An empty policy is "auto".
unfoldable pub effective_policy : Preferences → Str
effective_policy pref = if is_empty pref.policy then str "auto" else pref.policy

unfoldable pub is_favorite : {F : Type 0} → Preferences → CapabilityDocument F → Bool
is_favorite pref p = member p.peer_id pref.favorites

-- hasFavCandidates
unfoldable pub has_fav_candidates :
    {F : Type 0} → List (CapabilityDocument F) → ChatCompletionRequest → Preferences → Bool
has_fav_candidates peers req pref =
    any (λ p. is_favorite pref p && supports_requirements p req.model req.requirements) peers

-- Does the body of the loop `continue` before it scores the peer?
unfoldable pub skips :
    {F : Type 0} → ChatCompletionRequest → Preferences → Bool → CapabilityDocument F → Bool
skips req pref has_fav p =
    if member p.peer_id pref.blocked
    then true
    else if str_eq (effective_policy pref) (str "manual")
        && ltb 0 (length pref.allowed)
        && not (member p.peer_id pref.allowed)
    then true
    else if str_eq (effective_policy pref) (str "prefer_favorites")
        && has_fav
        && not (is_favorite pref p)
    then true
    else not (supports_requirements p req.model req.requirements)

module _ (fl : Float64) where
  open fl use {F, add, sub, mul, div, lt, of_int, inf, milli}

  unfoldable pub score : Router F → CapabilityDocument F → F
  score r c =
      let vram_pressure =
        if ltb_ℤ (pos 0) c.vram_free_mb then div (milli 1000) (of_int c.vram_free_mb) else inf in
      let penalty = sub (milli 1000) c.reliability in
      let reliability_penalty = if lt penalty (milli 0) then milli 0 else penalty in
      add
        (add
          (add (mul r.weights.latency (of_int c.avg_latency_ms))
            (mul r.weights.queue_depth (of_int c.queue_depth)))
          (mul r.weights.vram_pressure vram_pressure))
        (mul r.weights.reliability reliability_penalty)

  -- The score with the bonuses of the preferences.
  unfoldable pub preferred_score : Router F → Preferences → CapabilityDocument F → F
  preferred_score r pref p =
      let base = score r p in
      let favored = if is_favorite pref p then sub base r.weights.favorite_bonus else base in
      if str_eq (effective_policy pref) (str "prefer_known") && member p.peer_id pref.known
      then sub favored r.weights.known_bonus
      else favored

  -- The second loop.
  unfoldable pub collect :
      Router F
      → ChatCompletionRequest
      → Preferences
      → Bool
      → List (CapabilityDocument F)
      → List (PeerScore F)
  collect r req pref has_fav [] = []
  collect r req pref has_fav (p ∷ ps) =
      let rest = collect r req pref has_fav ps in
      if skips req pref has_fav p
      then rest
      else record { capability = p; score = preferred_score r pref p } ∷ rest

  -- scored[i].Score < scored[j].Score
  unfoldable pub lower_score : PeerScore F → PeerScore F → Bool
  lower_score a b = lt a.score b.score

  module _ (sorting : SortSlice) where
    unfoldable pub rank_with_preferences :
        Router F
        → List (CapabilityDocument F)
        → ChatCompletionRequest
        → Preferences
        → List (PeerScore F)
    rank_with_preferences r peers req pref =
        sorting.sort (PeerScore F) lower_score
          (collect r req pref (has_fav_candidates peers req pref) peers)

    unfoldable pub rank :
        Router F → List (CapabilityDocument F) → ChatCompletionRequest → List (PeerScore F)
    rank r peers req = rank_with_preferences r peers req no_preferences

    unfoldable pub first_ranked : List (PeerScore F) → Result RouterError (PeerScore F)
    first_ranked [] = err no_peers
    first_ranked (best ∷ ranked) = ok best

    unfoldable pub select_best_with_preferences :
        Router F
        → List (CapabilityDocument F)
        → ChatCompletionRequest
        → Preferences
        → Result RouterError (PeerScore F)
    select_best_with_preferences r peers req pref =
        first_ranked (rank_with_preferences r peers req pref)

    unfoldable pub select_best :
        Router F
        → List (CapabilityDocument F)
        → ChatCompletionRequest
        → Result RouterError (PeerScore F)
    select_best r peers req = select_best_with_preferences r peers req no_preferences
