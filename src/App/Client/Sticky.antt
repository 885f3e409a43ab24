-- ===== src/App/Client/Sticky.antt =====
-- The sticky peer of a model goes first; nothing else of the ranking changes.
use mathlib.Core.List.{Perm, perm_middle}
use mathlib.Core.List.Perm
use gpuswarm.Common.{
  ℕ, true, false, ◌||◌, Option, none, some, Str, str_eq, str_eq_iff, List, [], ◌∷◌, ◌++◌, ◌≡◌, ◌≢◌,
  refl, ap, arith, Bool-cases, inl, inr, ◌⊎◌, All, length, ltb,
}
use gpuswarm.Common.Int.{pos, leb_ℤ, ltb_ℤ}
use gpuswarm.Common.Clock.{time_after, time_add}
use gpuswarm.Common.Maps.{lookup, lookup-insert}
use gpuswarm.Routing.{PeerScore}
use gpuswarm.App.Client.{
  ClientService, StickyChoice, update_sticky, pull, promote, sticky_choice, apply_sticky_priority,
}

module _ {F : Type 0} where
  -- The first entry of the peer, between the entries before it and those after it.
  pub record Found (id : Str) (ranked : List (PeerScore F)) : Type 0 where
    pub before : List (PeerScore F)
    pub entry : PeerScore F
    pub after : List (PeerScore F)
    pub split : ranked ≡ before ++ (entry ∷ after)
    pub earlier : All (λ x. x.capability.peer_id ≢ id) before
    pub named : entry.capability.peer_id ≡ id

  pull-Found :
      (id : Str) (ranked : List (PeerScore F))
      → ((pull id ranked ≡ none) × All (λ x. x.capability.peer_id ≢ id) ranked)
        ⊎ ((f : Found id ranked) × (pull id ranked ≡ some (f.entry, f.before ++ f.after)))
  unfolding pull
  pull-Found id [] = inl (refl, tt)
  pull-Found id (x ∷ xs) = elim (Bool-cases (str_eq x.capability.peer_id id)) [
    | inl e ↦ inr (
      record {
        before = [];
        entry = x;
        after = xs;
        split = refl;
        earlier = tt;
        named = (str_eq_iff _ id).0 e;
      },
      rw e refl,
    )
    | inr e ↦ rw e (later e (pull-Found id xs))
  ]
    where
      differs : str_eq x.capability.peer_id id ≡ false → x.capability.peer_id ≢ id
      differs e q = let t = (str_eq_iff x.capability.peer_id id).1 q in cc

      later :
          str_eq x.capability.peer_id id ≡ false
          → ((pull id xs ≡ none) × All (λ y. y.capability.peer_id ≢ id) xs)
            ⊎ ((f : Found id xs) × (pull id xs ≡ some (f.entry, f.before ++ f.after)))
          → ((elim (pull id xs) as (λ _. Option (PeerScore F × List (PeerScore F))) [
            | none ↦ none
            | some (y, ys) ↦ some (y, x ∷ ys)
          ]
                ≡ none)
              × All (λ y. y.capability.peer_id ≢ id) (x ∷ xs))
            ⊎ ((f : Found id (x ∷ xs)) × (elim (pull id xs)
                    as (λ _. Option (PeerScore F × List (PeerScore F))) [
                      | none ↦ none
                      | some (y, ys) ↦ some (y, x ∷ ys)
                    ]
                  ≡ some (f.entry, f.before ++ f.after)))
      later e (inl (q, a)) = inl (rw q refl, (differs e, a))
      later e (inr (f, q)) = inr (
        record {
          before = x ∷ f.before;
          entry = f.entry;
          after = f.after;
          split = ap (◌∷◌ x) f.split;
          earlier = (differs e, f.earlier);
          named = f.named;
        },
        rw q refl,
      )

  -- Promotion changes nothing if the peer is not in the list; otherwise its first entry comes to the
  -- front, and the others keep their order.
  pub promote-Found :
      (id : Str) (ranked : List (PeerScore F))
      → ((promote id ranked ≡ ranked) × All (λ x. x.capability.peer_id ≢ id) ranked)
        ⊎ ((f : Found id ranked) × (promote id ranked ≡ f.entry ∷ (f.before ++ f.after)))
  unfolding promote
  promote-Found id ranked = elim (pull-Found id ranked) [
    | inl (q, a) ↦ inl (rw (q, promote) refl, a)
    | inr (f, q) ↦ inr (f, rw (q, promote) refl)
  ]

  promote-perm : (id : Str) (ranked : List (PeerScore F)) → Perm (promote id ranked) ranked
  promote-perm id ranked = elim (promote-Found id ranked) [
    | inl (q, a) ↦ rw q Perm.rfl
    | inr (f, q) ↦ rw (q, f.split) (Perm.symm (perm_middle f.before f.after))
  ]

  sticky_choice-perm :
      (s : ClientService F) (model : Str) (now : ℕ) (o : Option StickyChoice)
      (ranked : List (PeerScore F))
      → Perm (sticky_choice s model now o ranked).1 ranked
  unfolding sticky_choice
  sticky_choice-perm s model now none ranked = Perm.rfl
  sticky_choice-perm s model now (some ch) ranked = elim (Bool-cases (time_after now ch.expires)) [
    | inl e ↦ rw e Perm.rfl
    | inr e ↦ rw e (promote-perm ch.peer_id ranked)
  ]

  -- Whatever the sticky table holds, the candidates are the ranked ones in some order.
  pub apply_sticky_priority-perm :
      (s : ClientService F) (model : Str) (now : ℕ) (ranked : List (PeerScore F))
      → Perm (apply_sticky_priority s model now ranked).1 ranked
  unfolding apply_sticky_priority
  apply_sticky_priority-perm s model now ranked =
      elim (Bool-cases (leb_ℤ s.opts.sticky_peer_ttl (pos 0) || ltb (length ranked) 2)) [
        | inl e ↦ rw e Perm.rfl
        | inr e ↦ rw e (sticky_choice-perm s model now (lookup model s.sticky) ranked)
      ]

  All-middle :
      (P : PeerScore F → Type 0) (xs ys : List (PeerScore F)) (y : PeerScore F)
      → All P (xs ++ (y ∷ ys))
      → P y
  All-middle P [] ys y a = a.0
  All-middle P (x ∷ xs) ys y a = All-middle P xs ys y a.1

  promote_present :
      (id : Str) (ranked : List (PeerScore F))
      → Found id ranked
      → (f : Found id ranked) × (promote id ranked ≡ f.entry ∷ (f.before ++ f.after))
  promote_present id ranked f = elim (promote-Found id ranked) [
    | inl (q, a) ↦ absurd (
        All-middle (λ x. x.capability.peer_id ≢ id) f.before f.after f.entry (rw f.split at a)
          f.named)
    | inr g ↦ g
  ]

  sticky_after_update :
      (s : ClientService F) (model id : Str) (t now : ℕ) (ranked : List (PeerScore F))
      → ltb_ℤ (pos 0) s.opts.sticky_peer_ttl ≡ true
      → ltb (length ranked) 2 ≡ false
      → time_after now (time_add t s.opts.sticky_peer_ttl) ≡ false
      → (apply_sticky_priority (update_sticky s model id t) model now ranked).1 ≡ promote id ranked
  unfolding apply_sticky_priority update_sticky sticky_choice
  sticky_after_update s model id t now ranked h k live = ground (
    arith,
    lookup-insert model model (record { peer_id = id; expires = time_add t s.opts.sticky_peer_ttl })
        s.sticky,
    str_eq_iff model model,
  )

  -- If the TTL is positive, the peer that answered for a model at the time t is tried first for it
  -- until t plus the TTL: if a later ranking holds it among two entries or more, its first entry leads
  -- the candidates, and the other entries follow in their order.
  pub sticky_peer_first :
      (s : ClientService F) (model id : Str) (t now : ℕ) (ranked : List (PeerScore F))
      → Found id ranked
      → ltb_ℤ (pos 0) s.opts.sticky_peer_ttl ≡ true
      → ltb (length ranked) 2 ≡ false
      → time_after now (time_add t s.opts.sticky_peer_ttl) ≡ false
      → (f : Found id ranked) × ((apply_sticky_priority
            (update_sticky s model id t)
            model
            now
            ranked).1
          ≡ f.entry ∷ (f.before ++ f.after))
  sticky_peer_first s model id t now ranked found h k live =
      rw (sticky_after_update s model id t now ranked h k live) (promote_present id ranked found)
