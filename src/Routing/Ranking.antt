-- ===== src/Routing/Ranking.antt =====
-- What a ranking holds, and in which order.
use mathlib.Core.List.{Mem, Perm, mem-map_of_mem, mem-cons_self, mem-cons_of_mem}
use mathlib.Core.Logic.{∥∥₁_prop}
use mathlib.Core.List.Perm
use gpuswarm.Common.{
  Bool, true, false, not, List, [], ◌∷◌, ◌≡◌, refl, ap, Bool-cases, inl, inr, filter, map, All,
}
use gpuswarm.Common.Floats.{Float64}
use gpuswarm.Common.Sorting.{SortSlice, StrictWeak, SortedBy}
use gpuswarm.Common.Members.{All-perm, mem-filter_iff, true-prop}
use gpuswarm.Model.{CapabilityDocument, ChatCompletionRequest}
use gpuswarm.Routing.{
  PeerScore, Preferences, Router, has_fav_candidates, skips, preferred_score, collect, lower_score,
  rank_with_preferences,
}
use gpuswarm.Routing.Eligibility.{Eligible, skips_iff}

module _ (fl : Float64) where
  open fl use {F, lt, eq}

  -- The entry that the loop appends for a peer.
  abbrev pub scored : Router F → Preferences → CapabilityDocument F → PeerScore F
  scored r pref p = record { capability = p; score = preferred_score fl r pref p }

  module _ (r : Router F) (req : ChatCompletionRequest) (pref : Preferences) (has_fav : Bool) where
    pub collect-filter :
        (peers : List (CapabilityDocument F))
        → collect fl r req pref has_fav peers
          ≡ map (scored r pref) (filter (λ p. not (skips req pref has_fav p)) peers)
    unfolding collect
    collect-filter [] = refl
    collect-filter (p ∷ ps) = elim (Bool-cases (skips req pref has_fav p)) [
      | inl e ↦ rw (e, collect-filter ps) refl
      | inr e ↦ rw (e, collect-filter ps) refl
    ]

    collect-kept :
        (peers : List (CapabilityDocument F))
        → All
            (λ s. skips req pref has_fav s.capability ≡ false)
            (collect fl r req pref has_fav peers)
    unfolding collect
    collect-kept [] = tt
    collect-kept (p ∷ ps) = elim (Bool-cases (skips req pref has_fav p)) [
      | inl e ↦ rw e (collect-kept ps)
      | inr e ↦ rw e (e, collect-kept ps)
    ]

    collect-listed :
        (all peers : List (CapabilityDocument F))
        → ((p : CapabilityDocument F) → Mem p peers → Mem p all)
        → All (λ s. Mem s.capability all) (collect fl r req pref has_fav peers)
    unfolding collect
    collect-listed all [] h = tt
    collect-listed all (p ∷ ps) h =
        let rest = collect-listed all ps (λ q m. h q (mem-cons_of_mem p m)) in
        elim (Bool-cases (skips req pref has_fav p)) [
          | inl e ↦ rw e rest
          | inr e ↦ rw e (h p mem-cons_self, rest)
        ]

    collect-ordered :
        (peers : List (CapabilityDocument F))
        → All (λ p. eq (preferred_score fl r pref p) (preferred_score fl r pref p) ≡ true) peers
        → All (λ s. eq s.score s.score ≡ true) (collect fl r req pref has_fav peers)
    unfolding collect
    collect-ordered [] h = tt
    collect-ordered (p ∷ ps) h = elim (Bool-cases (skips req pref has_fav p)) [
      | inl e ↦ rw e (collect-ordered ps h.1)
      | inr e ↦ rw e (h.0, collect-ordered ps h.1)
    ]

    All-Eligible :
        (ss : List (PeerScore F))
        → All (λ s. skips req pref has_fav s.capability ≡ false) ss
        → All (λ s. Eligible req pref has_fav s.capability) ss
    All-Eligible [] h = tt
    All-Eligible (s ∷ ss) h = ((skips_iff req pref has_fav s.capability).0 h.0, All-Eligible ss h.1)

  lower_score-StrictWeak : StrictWeak (λ s. eq s.score s.score ≡ true) (lower_score fl)
  unfolding lower_score
  lower_score-StrictWeak = record {
    asym = λ a b p q h. fl.lt_asym a.score b.score h;
    neg_trans = λ a b c p q s h k. fl.lt_neg_trans a.score b.score c.score q h k;
  }

  module _ (sorting : SortSlice) (r : Router F) (peers : List (CapabilityDocument F))
      (req : ChatCompletionRequest) (pref : Preferences) where
    -- A ranking holds one entry, with its own score, for each peer that is kept, and no other.
    pub rank-perm : Perm (rank_with_preferences fl sorting r peers req pref) (
        map
          (scored r pref)
          (filter (λ p. not (skips req pref (has_fav_candidates peers req pref) p)) peers))
    unfolding rank_with_preferences
    rank-perm =
        rw (← collect-filter r req pref (has_fav_candidates peers req pref) peers)
          (sorting.sort_perm (PeerScore F) (lower_score fl) _)

    pub rank_kept :
        All
          (λ s. skips req pref (has_fav_candidates peers req pref) s.capability ≡ false)
          (rank_with_preferences fl sorting r peers req pref)
    unfolding rank_with_preferences
    rank_kept =
        All-perm _ (λ s. true-prop _ _)
          (Perm.symm (sorting.sort_perm (PeerScore F) (lower_score fl) _))
          (collect-kept r req pref (has_fav_candidates peers req pref) peers)

    -- A ranking holds documents of the given peers only.
    pub rank_listed :
        All (λ s. Mem s.capability peers) (rank_with_preferences fl sorting r peers req pref)
    unfolding rank_with_preferences
    rank_listed =
        All-perm _ (λ s. ∥∥₁_prop) (Perm.symm (sorting.sort_perm (PeerScore F) (lower_score fl) _))
          (collect-listed r req pref (has_fav_candidates peers req pref) peers peers (λ p m. m))

    -- Every peer of a ranking is eligible: not blocked, allowed under the manual policy, a favorite
    -- where the favorites come first and one of them serves the request, and offering the model.
    pub rank-Eligible :
        All
          (λ s. Eligible req pref (has_fav_candidates peers req pref) s.capability)
          (rank_with_preferences fl sorting r peers req pref)
    rank-Eligible = All-Eligible r req pref (has_fav_candidates peers req pref) _ rank_kept

    -- Every eligible peer is ranked, with its score.
    pub rank_complete :
        (p : CapabilityDocument F)
        → Mem p peers
        → Eligible req pref (has_fav_candidates peers req pref) p
        → Mem (scored r pref p) (rank_with_preferences fl sorting r peers req pref)
    rank_complete p m e = (Perm.mem_iff rank-perm).1 (
        mem-map_of_mem (scored r pref)
          ((mem-filter_iff _ p peers).1 (m, ap not ((skips_iff req pref _ p).1 e))))

    -- A ranking ascends by score, if no score is NaN.
    pub rank-SortedBy :
        All (λ p. eq (preferred_score fl r pref p) (preferred_score fl r pref p) ≡ true) peers
        → SortedBy (lower_score fl) (rank_with_preferences fl sorting r peers req pref)
    unfolding rank_with_preferences
    rank-SortedBy h =
        sorting.sort_sorted (PeerScore F) (λ s. eq s.score s.score ≡ true) (lower_score fl) _
          lower_score-StrictWeak
          (collect-ordered r req pref (has_fav_candidates peers req pref) peers h)
