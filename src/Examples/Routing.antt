-- ===== src/Examples/Routing.antt =====
-- Ranking on two peers.
use gpuswarm.Common.{
  ◌≡◌, ◌↔◌, true, false, str, [], ◌∷◌, List, refl, Str, str_eq, is_empty, ok, err, All,
}
use mathlib.Core.List.{Mem}
use gpuswarm.Common.Int.{eqb_ℤ_iff}
use gpuswarm.Common.Floats.{thousandths}
use gpuswarm.Common.Sorting.{insertion, insertion_sort, insert_sorted}
use gpuswarm.Common.Maps.{member}
use gpuswarm.Model.{CapabilityDocument, supports_requirements, spec_satisfies, requires}
use gpuswarm.Routing.{
  Preferences, PeerScore, no_peers, preferred_score, rank_with_preferences,
  select_best_with_preferences, has_fav_candidates, skips, lower_score, is_favorite,
  effective_policy, first_ranked, collect, score,
}
use gpuswarm.Routing.Eligibility.{Eligible}
use gpuswarm.Routing.Ranking.{scored}
use gpuswarm.Routing.Best.{select_best_lowest, select_best_fails_iff, blocked_favorites_hide_all}
use gpuswarm.Examples.{slow, fast, router, request}

abbrev two_peers : List (CapabilityDocument thousandths.F)
two_peers = slow ∷ fast ∷ []

abbrev favoring : List Str → List Str → Preferences
favoring favorites blocked = record {
  policy = str "prefer_favorites";
  favorites = favorites;
  known = [];
  allowed = [];
  blocked = blocked;
}

abbrev no_favorites : Preferences
no_favorites = favoring [] []

not_nan :
    All
      (λ p.
        thousandths.eq
          (preferred_score thousandths router no_favorites p)
          (preferred_score thousandths router no_favorites p)
        ≡ true)
      two_peers
unfolding thousandths preferred_score
not_nan = (
  (eqb_ℤ_iff _ (preferred_score thousandths router no_favorites slow)).1 refl,
  ((eqb_ℤ_iff _ (preferred_score thousandths router no_favorites fast)).1 refl, tt),
)

abbrev best : PeerScore thousandths.F
best = scored thousandths router no_favorites fast

fast_wins :
    select_best_with_preferences thousandths insertion router two_peers request no_favorites
    ≡ ok best
unfolding select_best_with_preferences rank_with_preferences first_ranked collect skips lower_score
    insertion insertion_sort insert_sorted thousandths preferred_score score effective_policy
    is_favorite has_fav_candidates is_empty str_eq member supports_requirements spec_satisfies
    requires
fast_wins = refl

select_best_lowest_example :
    Eligible request no_favorites (has_fav_candidates two_peers request no_favorites) fast
    × ((p : CapabilityDocument thousandths.F)
        → Mem p two_peers
        → Eligible request no_favorites (has_fav_candidates two_peers request no_favorites) p
        → thousandths.lt (preferred_score thousandths router no_favorites p) best.score ≡ false)
select_best_lowest_example =
    select_best_lowest thousandths insertion router two_peers request no_favorites best not_nan
      fast_wins

select_best_fails_iff_example :
    (select_best_with_preferences thousandths insertion router two_peers request no_favorites
      ≡ err no_peers)
    ↔ ((p : CapabilityDocument thousandths.F)
        → Mem p two_peers
        → ¬ Eligible request no_favorites (has_fav_candidates two_peers request no_favorites) p)
select_best_fails_iff_example =
    select_best_fails_iff thousandths insertion router two_peers request no_favorites

abbrev fast_blocked : Preferences
fast_blocked = favoring (str "fast" ∷ []) (str "fast" ∷ [])

under_favorites : effective_policy fast_blocked ≡ str "prefer_favorites"
unfolding effective_policy is_empty
under_favorites = refl

fast_is_candidate : has_fav_candidates two_peers request fast_blocked ≡ true
unfolding has_fav_candidates is_favorite member str_eq supports_requirements spec_satisfies requires
    is_empty
fast_is_candidate = refl

all_blocked :
    (p : CapabilityDocument thousandths.F)
    → is_favorite fast_blocked p ≡ true
    → member p.peer_id fast_blocked.blocked ≡ true
unfolding is_favorite
all_blocked p h = h

blocked_favorites_hide_all_example :
    select_best_with_preferences thousandths insertion router two_peers request fast_blocked
    ≡ err no_peers
blocked_favorites_hide_all_example =
    blocked_favorites_hide_all thousandths insertion router two_peers request fast_blocked
      under_favorites fast_is_candidate all_blocked
