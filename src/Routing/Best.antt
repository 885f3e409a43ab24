-- ===== src/Routing/Best.antt =====
-- SelectBest, and when it finds nobody.
use mathlib.Core.List.{Mem, Perm, mem-cons_self, mem-cons_of_mem, not-mem-nil}
use mathlib.Core.List.Perm
use gpuswarm.Common.{
  true, false, not, str, List, [], ◌∷◌, ◌≡◌, ◌≢◌, ◌↔◌, ◌⊎◌, refl, subst, Bool-cases, inl, inr,
  filter, map, All, ok, err,
}
use gpuswarm.Common.Floats.{Float64, lt_irrefl}
use gpuswarm.Common.Sorting.{SortSlice, SortedBy}
use gpuswarm.Common.Maps.{member}
use gpuswarm.Common.Members.{All-mem, true-prop}
use gpuswarm.Model.{CapabilityDocument, ChatCompletionRequest}
use gpuswarm.Routing.{
  PeerScore, Preferences, Router, no_peers, effective_policy, is_favorite, has_fav_candidates,
  skips, preferred_score, lower_score, rank_with_preferences, first_ranked,
  select_best_with_preferences,
}
use gpuswarm.Routing.Eligibility.{Eligible, skips_iff}
use gpuswarm.Routing.Ranking.{scored, rank-perm, rank-Eligible, rank_complete, rank-SortedBy}

module _ (fl : Float64) (sorting : SortSlice) where
  open fl use {F, lt, eq}

  head_lowest :
      (s : PeerScore F) (ss : List (PeerScore F)) (x : PeerScore F)
      → SortedBy (lower_score fl) (s ∷ ss)
      → Mem x (s ∷ ss)
      → lt x.score s.score ≡ false
  unfolding lower_score
  head_lowest s ss x h m =
      All-mem (λ y. lt y.score s.score ≡ false) (λ y. true-prop _ _) (s ∷ ss)
        (lt_irrefl fl s.score, h.0) x m

  first_ok :
      (ss : List (PeerScore F)) (best : PeerScore F)
      → first_ranked fl sorting ss ≡ ok best
      → (rest : List (PeerScore F)) × (ss ≡ best ∷ rest)
  unfolding first_ranked
  first_ok [] best h = cc
  first_ok (s ∷ ss) best h = (ss, cc)

  module _ (r : Router F) (peers : List (CapabilityDocument F)) (req : ChatCompletionRequest)
      (pref : Preferences) where
    -- The peer that is selected is eligible, and no eligible peer has a lower score, if no score is
    -- NaN.
    pub select_best_lowest :
        (best : PeerScore F)
        → All (λ p. eq (preferred_score fl r pref p) (preferred_score fl r pref p) ≡ true) peers
        → select_best_with_preferences fl sorting r peers req pref ≡ ok best
        → Eligible req pref (has_fav_candidates peers req pref) best.capability
          × ((p : CapabilityDocument F)
              → Mem p peers
              → Eligible req pref (has_fav_candidates peers req pref) p
              → lt (preferred_score fl r pref p) best.score ≡ false)
    unfolding select_best_with_preferences
    select_best_lowest best n h =
        let (rest, e) = first_ok _ best h in
        let all : All (λ s. Eligible req pref (has_fav_candidates peers req pref) s.capability)
            (best ∷ rest) =
          rw e at (rank-Eligible fl sorting r peers req pref) in
        let order : SortedBy (lower_score fl) (best ∷ rest) =
          rw e at (rank-SortedBy fl sorting r peers req pref n) in
        (
          all.0,
          λ p m el.
              head_lowest best rest (scored fl r pref p) order
                (rw e at (rank_complete fl sorting r peers req pref p m el)),
        )

    fails_nobody :
        (ss : List (PeerScore F))
        → ((p : CapabilityDocument F)
            → Mem p peers
            → Eligible req pref (has_fav_candidates peers req pref) p
            → Mem (scored fl r pref p) ss)
        → first_ranked fl sorting ss ≡ err no_peers
        → (p : CapabilityDocument F) → Mem p peers
        → ¬ Eligible req pref (has_fav_candidates peers req pref) p
    unfolding first_ranked
    fails_nobody [] f h p m e = not-mem-nil (f p m e)
    fails_nobody (s ∷ ss) f h p m e = cc

    filter_nobody :
        (ps : List (CapabilityDocument F))
        → ((p : CapabilityDocument F)
            → Mem p ps
            → ¬ Eligible req pref (has_fav_candidates peers req pref) p)
        → filter (λ p. not (skips req pref (has_fav_candidates peers req pref) p)) ps ≡ []
    filter_nobody [] f = refl
    filter_nobody (p ∷ ps) f =
        elim (Bool-cases (skips req pref (has_fav_candidates peers req pref) p)) [
          | inl e ↦ rw e (filter_nobody ps (λ q m. f q (mem-cons_of_mem p m)))
          | inr e ↦ absurd (f p mem-cons_self ((skips_iff req pref _ p).0 e))
        ]

    nobody_fails :
        ((p : CapabilityDocument F)
          → Mem p peers
          → ¬ Eligible req pref (has_fav_candidates peers req pref) p)
        → first_ranked fl sorting (rank_with_preferences fl sorting r peers req pref) ≡ err no_peers
    unfolding first_ranked
    nobody_fails f =
        let kept = filter_nobody peers f in
        let e = Perm.eq-nil (
          subst
            (λ l.
              Perm (rank_with_preferences fl sorting r peers req pref) (map (scored fl r pref) l))
            kept (rank-perm fl sorting r peers req pref)) in
        rw e refl

    -- SelectBest fails exactly when no peer is eligible.
    pub select_best_fails_iff :
        (select_best_with_preferences fl sorting r peers req pref ≡ err no_peers) ↔ (
          (p : CapabilityDocument F)
          → Mem p peers
          → ¬ Eligible req pref (has_fav_candidates peers req pref) p)
    unfolding select_best_with_preferences
    select_best_fails_iff =
        (fails_nobody _ (rank_complete fl sorting r peers req pref), nobody_fails)

    -- A blocked favorite hides the peers that could serve: under "prefer_favorites", with a favorite
    -- that offers the model and every favorite blocked, nobody is selected, whoever else is there.
    pub blocked_favorites_hide_all :
        effective_policy pref ≡ str "prefer_favorites"
        → has_fav_candidates peers req pref ≡ true
        → ((p : CapabilityDocument F)
            → is_favorite pref p ≡ true
            → member p.peer_id pref.blocked ≡ true)
        → select_best_with_preferences fl sorting r peers req pref ≡ err no_peers
    blocked_favorites_hide_all h k b = select_best_fails_iff.1 (λ p m e. hidden p e e.favored)
      where
        hidden :
            (p : CapabilityDocument F)
            → Eligible req pref (has_fav_candidates peers req pref) p
            → (effective_policy pref ≢ str "prefer_favorites")
              ⊎ (has_fav_candidates peers req pref ≡ false)
              ⊎ (is_favorite pref p ≡ true)
            → ⊥
        hidden p e (inl n) = n h
        hidden p e (inr (inl n)) = cc
        hidden p e (inr (inr n)) = let c = b p n in let d = e.not_blocked in cc
