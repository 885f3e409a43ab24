-- ===== src/Common/Maps.antt =====
-- Go maps keyed by strings, as association lists, and what `range` promises about them.
use mathlib.Core.Path.{◌≡◌, refl, subst, sym}
use mathlib.Core.Bool.{Bool}
use mathlib.Core.Logic.{inl, inr}
use mathlib.Core.Option.{Option, none, some}
use mathlib.Core.List.{List, [], ◌∷◌, Perm}
use mathlib.Core.List.Perm
use native.Mathlib.Omega.{arith}
use gpuswarm.Common.Tests.{if◌then◌else◌, Bool-cases}
use gpuswarm.Common.Lists.{any, All}
use gpuswarm.Common.Text.{Str, str_eq, str_eq_iff}

abbrev pub GoMap : Type 0 → Type 0
GoMap V = List (Str × V)

-- Any order of the entries, as `for k, v := range m` visits them.
pub record MapRange : Type 1 where
  pub range : (V : Type 0) → GoMap V → GoMap V
  pub range_perm : (V : Type 0) (m : GoMap V) → Perm (range V m) m

abbrev pub in_order : MapRange
in_order = record { range = λ V m. m; range_perm = λ V m. Perm.rfl }

module _ {V : Type 0} where
  unfoldable pub lookup : Str → GoMap V → Option V
  lookup k [] = none
  lookup k ((j, v) ∷ m) = if str_eq j k then some v else lookup k m

  -- `m[k] = v`
  unfoldable pub insert : Str → V → GoMap V → GoMap V
  insert k v [] = (k, v) ∷ []
  insert k v ((j, w) ∷ m) = if str_eq j k then (j, v) ∷ m else (j, w) ∷ insert k v m

  -- `delete(m, k)`
  unfoldable pub delete : Str → GoMap V → GoMap V
  delete k [] = []
  delete k ((j, w) ∷ m) = if str_eq j k then delete k m else (j, w) ∷ delete k m

  pub lookup-insert :
      (k j : Str) (v : V) (m : GoMap V)
      → lookup j (insert k v m) ≡ (if str_eq k j then some v else lookup j m)
  unfolding lookup insert
  lookup-insert k j v [] = refl
  lookup-insert k j v ((i, w) ∷ m) =
      ground (arith, str_eq_iff k j, str_eq_iff i k, str_eq_iff i j, lookup-insert k j v m)

  pub lookup-delete :
      (k j : Str) (m : GoMap V) → lookup j (delete k m) ≡ (if str_eq k j then none else lookup j m)
  unfolding lookup delete
  lookup-delete k j [] = ground arith
  lookup-delete k j ((i, w) ∷ m) =
      ground (arith, str_eq_iff k j, str_eq_iff i k, str_eq_iff i j, lookup-delete k j m)

module _ {V : Type 0} (P : Str × V → Type 0) where
  -- A map after a write, and a read from a map, where a predicate holds of the entries.
  pub insert-All : (k : Str) (v : V) (m : GoMap V) → P (k, v) → All P m → All P (insert k v m)
  unfolding insert
  insert-All k v [] p h = (p, tt)
  insert-All k v ((j, w) ∷ m) p h = elim (Bool-cases (str_eq j k)) [
    | inl e ↦ rw e (subst (λ i. P (i, v)) (sym ((str_eq_iff j k).0 e)) p, h.1)
    | inr e ↦ rw e (h.0, insert-All k v m p h.1)
  ]

  pub lookup-All : (k : Str) (v : V) (m : GoMap V) → lookup k m ≡ some v → All P m → P (k, v)
  unfolding lookup
  lookup-All k v [] e h = cc
  lookup-All k v ((j, w) ∷ m) e h = elim (Bool-cases (str_eq j k)) [
    | inl q ↦
        let same : w ≡ v = ground (arith, rw q at e) in
        subst (λ i. P (i, v)) ((str_eq_iff j k).0 q) (subst (λ x. P (j, x)) same h.0)
    | inr q ↦ lookup-All k v m (rw q at e) h.1
  ]

-- `_, ok := set[x]` for a set built by toSet.
abbrev pub Set : Type 0
Set = List Str

unfoldable pub member : Str → Set → Bool
member x s = any (λ y. str_eq y x) s
