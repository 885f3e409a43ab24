-- ===== src/App/Client/Peers/Newest.antt =====
-- Each peer is listed by its newest document.
use mathlib.Core.Path.{subst₂}
use gpuswarm.Common.{
  ℕ, ◌≤◌, false, Option, none, some, Str, str_eq, str_eq_iff, str_eq_refl, is_empty, List, [], ◌∷◌,
  if◌then◌else◌, ltb, ◌≡◌, refl, ap, ◌∙◌, arith, Bool-cases, Option-cases, inl, inr, ◌⊎◌, All,
}
use gpuswarm.Common.Clock.{time_after}
use gpuswarm.Common.Floats.{Float64}
use gpuswarm.Common.Maps.{GoMap, lookup, lookup-insert}
use gpuswarm.Model.{CapabilityDocument}
use gpuswarm.App.Client.{ClientOptions}
use gpuswarm.App.Client.Peers.{
  own_document, mark_self, replaces, keep_newest, by_peer, missing, with_self,
}

module _ (fl : Float64) (o : ClientOptions) where
  open fl use {F}

  -- The peer k has an entry that is no older than t.
  abbrev pub Fresh : GoMap (CapabilityDocument F) → Str → ℕ → Type 0
  Fresh m k t = (d : CapabilityDocument F) × (lookup k m ≡ some d) × (t ≤ d.updated_at)

  mark_self_id : (c : CapabilityDocument F) → (mark_self fl o c).peer_id ≡ c.peer_id
  unfolding mark_self
  mark_self_id c = ground arith

  mark_self_time : (c : CapabilityDocument F) → (mark_self fl o c).updated_at ≡ c.updated_at
  unfolding mark_self
  mark_self_time c = ground arith

  lookup-keep_newest :
      (m : GoMap (CapabilityDocument F)) (c : CapabilityDocument F) (k : Str)
      → lookup k (keep_newest fl m c) ≡ (
          if str_eq c.peer_id k
          then (if replaces fl c (lookup c.peer_id m) then some c else lookup k m)
          else lookup k m)
  unfolding keep_newest
  lookup-keep_newest m c k = ground (arith, lookup-insert c.peer_id k c m)

  -- Of a document and an entry the newer one stays.
  newer_stays :
      (c d : CapabilityDocument F)
      → (x : CapabilityDocument F) × ((if replaces fl c (some d) then some c else some d) ≡ some x)
        × (c.updated_at ≤ x.updated_at)
        × (d.updated_at ≤ x.updated_at)
  unfolding replaces time_after
  newer_stays c d = elim (Bool-cases (ltb d.updated_at c.updated_at)) [
    | inl e ↦ (c, rw e refl, omega arith, ground arith)
    | inr e ↦ (d, rw e refl, ground arith, omega arith)
  ]

  stored :
      (c : CapabilityDocument F) (p : Option (CapabilityDocument F))
      → (x : CapabilityDocument F) × ((if replaces fl c p then some c else p) ≡ some x)
        × (c.updated_at ≤ x.updated_at)
  stored c none = (c, unfold replaces in refl, omega arith)
  stored c (some d) = let (x, e, h, k) = newer_stays c d in (x, e, h)

  keep_newest-Fresh_self :
      (m : GoMap (CapabilityDocument F)) (c : CapabilityDocument F)
      → Fresh (keep_newest fl m c) c.peer_id c.updated_at
  keep_newest-Fresh_self m c =
      let (x, e, h) = stored c (lookup c.peer_id m) in
      (x, rw (lookup-keep_newest m c c.peer_id, str_eq_refl c.peer_id) e, h)

  keep_newest-Fresh :
      (m : GoMap (CapabilityDocument F)) (c : CapabilityDocument F) (k : Str) (t : ℕ)
      → Fresh m k t
      → Fresh (keep_newest fl m c) k t
  keep_newest-Fresh m c k t (d, e, h) = elim (Bool-cases (str_eq c.peer_id k)) [
    | inl q ↦
        let (x, f, g, l) = newer_stays c d in
        let same : c.peer_id ≡ k = (str_eq_iff c.peer_id k).0 q in
        let e' : lookup c.peer_id m ≡ some d = ap (λ j. lookup j m) same ∙ e in
        (x, rw (lookup-keep_newest m c k, q, e', e) f, omega arith)
    | inr q ↦ (d, rw (lookup-keep_newest m c k, q) e, h)
  ]

  by_peer-Fresh :
      (caps : List (CapabilityDocument F)) (m : GoMap (CapabilityDocument F)) (k : Str) (t : ℕ)
      → Fresh m k t
      → Fresh (by_peer fl o caps m) k t
  unfolding by_peer
  by_peer-Fresh [] m k t f = f
  by_peer-Fresh (c ∷ caps) m k t f =
      by_peer-Fresh caps _ k t (keep_newest-Fresh m (mark_self fl o c) k t f)

  -- Every document that discovery found is represented by one of its peer that is no older.
  pub by_peer-All :
      (caps : List (CapabilityDocument F)) (m : GoMap (CapabilityDocument F))
      → All (λ c. Fresh (by_peer fl o caps m) c.peer_id c.updated_at) caps
  unfolding by_peer
  by_peer-All [] m = tt
  by_peer-All (c ∷ caps) m = (
    by_peer-Fresh caps _ c.peer_id c.updated_at (
        subst₂ (Fresh (keep_newest fl m (mark_self fl o c))) (mark_self_id c) (mark_self_time c)
          (keep_newest-Fresh_self m (mark_self fl o c))),
    by_peer-All caps (keep_newest fl m (mark_self fl o c)),
  )

  -- The node itself has an entry, if it has an ID; the other entries are as they were.
  pub lookup-with_self :
      (now : ℕ) (m : GoMap (CapabilityDocument F)) (k : Str)
      → is_empty o.peer_id ≡ false
      → ((lookup o.peer_id m ≡ none)
          × (lookup o.peer_id (with_self fl o now m) ≡ some (own_document fl o now)))
        ⊎ (with_self fl o now m ≡ m)
  unfolding with_self missing
  lookup-with_self now m k h = elim (Option-cases (lookup o.peer_id m)) [
    | inl e ↦ inl (
      e,
      rw (h, e)
          (rw (lookup-insert o.peer_id o.peer_id (own_document fl o now) m, str_eq_refl o.peer_id)
            refl),
    )
    | inr (d, e) ↦ inr (rw (h, e) refl)
  ]
