-- ===== src/P2p/Registry/Answers.antt =====
-- What the two queries of the tables answer, in terms of what is remembered of each peer.
use mathlib.Core.List.{Mem}
use mathlib.Core.List.Perm
use mathlib.Core.Logic.{∥∥₁_prop, ∥∥₁_elim}
use mathlib.Core.HLevel.{×_prop, Π_prop}
use gpuswarm.Common.{
  ltb, ℕ, not, Option, none, some, Str, str_eq, str_eq_iff, List, [], ◌∷◌, All, if◌then◌else◌, ◌≡◌,
  refl, ap, sym, subst, ◌∙◌, Bool-cases, inl, inr,
}
use gpuswarm.Common.Clock.{time_after}
use gpuswarm.Common.Members.{mem-map_of_mem, All-perm, All-imp, map-All}
use gpuswarm.Common.Maps.{GoMap, MapRange, lookup, lookup-insert}
use gpuswarm.Common.Unique.{
  Unique, kept_if, insert-Unique, passing-Unique, lookup-passing, lookup-Mem, lookup-Absent, Absent,
}
use gpuswarm.Common.Ranged.{Same, ranged-Same, entries_found}
use gpuswarm.Model.{CapabilityDocument}
use gpuswarm.P2p.Registry.{
  HeartbeatEntry, Node, expired, prune_locked, caps_of, heartbeats, takes_over, merge_entry,
  merge_entries, copy_entries, merged, registry_capabilities,
}
use gpuswarm.P2p.Registry.Live.{lookup-merge_entry}

abbrev pub Entries : Type 0 → Type 0
Entries F = Str → Option (HeartbeatEntry F)

Every-prop :
    {A : Type 0} (P : A → Type 0) → ((x : A) → IsProp (P x)) → (xs : List A) → IsProp (All P xs)
Every-prop P h [] = hlevel
Every-prop P h (x ∷ xs) = ×_prop (h x) (Every-prop P h xs)

module _ {F : Type 0} where
  -- A list holds exactly the documents of the entries.
  abbrev pub Answers : Entries F → List (CapabilityDocument F) → Type 0
  Answers g out =
      ((k : Str) (e : HeartbeatEntry F) → g k ≡ some e → Mem e.cap out)
      × All (λ c. ∥ ((k : Str) × (e : HeartbeatEntry F) × (g k ≡ some e) × (e.cap ≡ c)) ∥₁) out

  -- Of a heartbeat and an announcement, what was seen last; the heartbeat if they were seen at once.
  abbrev pub newest :
      Option (HeartbeatEntry F) → Option (HeartbeatEntry F) → Option (HeartbeatEntry F)
  newest h none = h
  newest none (some r) = some r
  newest (some h) (some r) = if ltb h.seen_at r.seen_at then some r else some h

  taken-newest :
      (h : Option (HeartbeatEntry F)) (r : HeartbeatEntry F)
      → (if takes_over r h then some r else h) ≡ newest h (some r)
  unfolding takes_over time_after
  taken-newest none r = refl
  taken-newest (some h) r = refl

  Answers-prop : (g : Entries F) (out : List (CapabilityDocument F)) → IsProp (Answers g out)
  Answers-prop g out =
      ×_prop (Π_prop λ k. Π_prop λ e. Π_prop λ q. ∥∥₁_prop) (Every-prop _ (λ c. ∥∥₁_prop) out)

  table-Answers :
      (maps : MapRange) (m : GoMap (HeartbeatEntry F)) (g : Entries F)
      → Unique m
      → ((k : Str) → lookup k m ≡ g k)
      → Answers g (caps_of (maps.range (HeartbeatEntry F) m))
  unfolding caps_of
  table-Answers maps m g u h = (
    λ k e q.
        mem-map_of_mem (λ (j, d). d.cap) (k, e) _
          ((Perm.mem_iff (maps.range_perm (HeartbeatEntry F) m)).1 (lookup-Mem k e m (h k ∙ q))),
    map-All Listed (λ c. ∥ ((k : Str) × (e : HeartbeatEntry F) × (g k ≡ some e) × (e.cap ≡ c)) ∥₁)
        (λ (j, d). d.cap) (λ x l. l) _
        (All-perm Listed (λ x. ∥∥₁_prop) (Perm.symm (maps.range_perm (HeartbeatEntry F) m))
          (All-imp _ Listed (λ (k, e) q. ∣ (k, e, sym (h k) ∙ q, refl) ∣₁) m (entries_found m u))),
  )
    where
      Listed : Str × HeartbeatEntry F → Type 0
      Listed (j, d) = ∥ ((k : Str) × (e : HeartbeatEntry F) × (g k ≡ some e) × (e.cap ≡ d.cap)) ∥₁

  copy-Unique : (m out : GoMap (HeartbeatEntry F)) → Unique out → Unique (copy_entries out m)
  unfolding copy_entries
  copy-Unique [] out u = u
  copy-Unique ((k, v) ∷ m) out u = copy-Unique m _ (insert-Unique k v out u)

  merge-Unique : (m out : GoMap (HeartbeatEntry F)) → Unique out → Unique (merge_entries out m)
  unfolding merge_entries merge_entry
  merge-Unique [] out u = u
  merge-Unique ((k, v) ∷ m) out u = elim (Bool-cases (takes_over v (lookup k out))) [
    | inl e ↦ rw e (merge-Unique m _ (insert-Unique k v out u))
    | inr e ↦ rw e (merge-Unique m out u)
  ]

  abbrev or_else : Option (HeartbeatEntry F) → Option (HeartbeatEntry F) → Option (HeartbeatEntry F)
  or_else none o = o
  or_else (some e) o = some e

  lookup-copy :
      (k : Str) (m out : GoMap (HeartbeatEntry F))
      → Unique m
      → lookup k (copy_entries out m) ≡ or_else (lookup k m) (lookup k out)
  unfolding copy_entries lookup
  lookup-copy k [] out u = refl
  lookup-copy k ((j, v) ∷ m) out u = elim (Bool-cases (str_eq j k)) [
    | inl e ↦
        let gone = lookup-Absent k m (subst (λ i. Absent i m) ((str_eq_iff j k).0 e) u.0) in
        lookup-copy k m _ u.1 ∙ rw (gone, lookup-insert j k v out, e) refl
    | inr e ↦ lookup-copy k m _ u.1 ∙ rw (lookup-insert j k v out, e) refl
  ]

  lookup-merge :
      (k : Str) (m out : GoMap (HeartbeatEntry F))
      → Unique m
      → lookup k (merge_entries out m) ≡ newest (lookup k out) (lookup k m)
  unfolding merge_entries lookup
  lookup-merge k [] out u = refl
  lookup-merge k ((j, v) ∷ m) out u = elim (Bool-cases (str_eq j k)) [
    | inl e ↦
        let same = (str_eq_iff j k).0 e in
        let gone = lookup-Absent k m (subst (λ i. Absent i m) same u.0) in
        lookup-merge k m _ u.1
        ∙ rw (gone, lookup-merge_entry out j k v, e)
            (ap (λ i. if takes_over v (lookup i out) then some v else lookup k out) same
              ∙ taken-newest (lookup k out) v)
    | inr e ↦ lookup-merge k m _ u.1 ∙ rw (lookup-merge_entry out j k v, e) refl
  ]

  module _ (n : Node F) (now : ℕ) where
    -- The live entries of the node's tables.
    pub record Live (m : GoMap (HeartbeatEntry F)) (g : Entries F) : Type 0 where
      pub unique : Unique m
      pub live : (k : Str) → kept_if (λ e. not (expired now n.heartbeat_ttl e)) (lookup k m) ≡ g k

    pub pruned_lookup :
        (m : GoMap (HeartbeatEntry F)) (g : Entries F)
        → Live m g
        → (k : Str) → lookup k (prune_locked now n.heartbeat_ttl m) ≡ g k
    unfolding prune_locked
    pruned_lookup m g l k =
        lookup-passing (λ e. not (expired now n.heartbeat_ttl e)) k m l.unique ∙ l.live k

    pruned-Unique :
        (m : GoMap (HeartbeatEntry F)) → Unique m → Unique (prune_locked now n.heartbeat_ttl m)
    unfolding prune_locked
    pruned-Unique m u = passing-Unique (λ e. not (expired now n.heartbeat_ttl e)) m u

  module _ (maps : MapRange) (n : Node F) (now : ℕ) (hb reg : Entries F) where
    pub heartbeats-Answers : Live n now n.heartbeats hb → Answers hb (heartbeats maps n now).1
    unfolding heartbeats
    heartbeats-Answers l =
        table-Answers maps _ hb (pruned-Unique n now n.heartbeats l.unique)
          (pruned_lookup n now n.heartbeats hb l)

    merged_lookup :
        (a b : GoMap (HeartbeatEntry F)) (k : Str)
        → Same (prune_locked now n.heartbeat_ttl n.heartbeats) a
        → Same (prune_locked now n.heartbeat_ttl n.registry) b
        → Live n now n.heartbeats hb
        → Live n now n.registry reg
        → lookup k (merge_entries (copy_entries [] a) b) ≡ newest (hb k) (reg k)
    unfolding lookup
    merged_lookup a b k sa sb lh lr =
        lookup-merge k b _ sb.unique
        ∙ rw
            (
              lookup-copy k a [] sa.unique,
              sa.found k,
              sb.found k,
              pruned_lookup n now n.heartbeats hb lh k,
              pruned_lookup n now n.registry reg lr k,
            )
            (ap (λ o. newest o (reg k)) (or_none (hb k)))
      where
        or_none : (o : Option (HeartbeatEntry F)) → or_else o none ≡ o
        or_none none = refl
        or_none (some e) = refl

    pub registry-Answers :
        Live n now n.heartbeats hb
        → Live n now n.registry reg
        → Answers (λ k. newest (hb k) (reg k)) (registry_capabilities maps n now).1
    unfolding registry_capabilities merged
    registry-Answers lh lr =
        ∥∥₁_elim (ranged-Same maps _ (pruned-Unique n now n.heartbeats lh.unique))
          (Answers-prop _ _)
          (λ sa.
            ∥∥₁_elim (ranged-Same maps _ (pruned-Unique n now n.registry lr.unique))
              (Answers-prop _ _)
              (λ sb.
                table-Answers maps _ _ (merge-Unique _ _ (copy-Unique _ [] tt))
                  (λ k. merged_lookup _ _ k sa sb lh lr)))
