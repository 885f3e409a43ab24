-- ===== src/Common/Unique.antt =====
-- Maps in which no two entries have one key, and the entries that a lookup finds.
use mathlib.Core.Path.{◌≡◌, refl, subst, ◌∙◌}
use mathlib.Core.Logic.{inl, inr}
use mathlib.Core.Bool.{Bool, false}
use mathlib.Core.Option.{Option, none, some}
use mathlib.Core.List.{[], ◌∷◌, Mem, mem-cons_self, mem-cons_of_mem}
use native.Mathlib.Omega.{arith}
use gpuswarm.Common.Tests.{if◌then◌else◌, Bool-cases}
use gpuswarm.Common.Lists.{All, filter}
use gpuswarm.Common.Text.{Str, str_eq, str_eq_iff, str_eq_comm}
use gpuswarm.Common.Maps.{GoMap, lookup, insert}

module _ {V : Type 0} where
  abbrev pub Absent : Str → GoMap V → Type 0
  Absent k m = All (λ (j, v). str_eq j k ≡ false) m

  abbrev pub Unique : GoMap V → Type 0
  Unique [] = Unit {0}
  Unique ((k, v) ∷ m) = Absent k m × Unique m

  pub lookup-Absent : (k : Str) (m : GoMap V) → Absent k m → lookup k m ≡ none
  unfolding lookup
  lookup-Absent k [] h = refl
  lookup-Absent k ((j, v) ∷ m) h = rw h.0 (lookup-Absent k m h.1)

  insert-Absent :
      (k j : Str) (v : V) (m : GoMap V) → str_eq j k ≡ false → Absent k m → Absent k (insert j v m)
  unfolding insert
  insert-Absent k j v [] h a = (h, tt)
  insert-Absent k j v ((i, w) ∷ m) h a = ground (arith, insert-Absent k j v m)

  pub insert-Unique : (j : Str) (v : V) (m : GoMap V) → Unique m → Unique (insert j v m)
  unfolding insert
  insert-Unique j v [] u = (tt, tt)
  insert-Unique j v ((i, w) ∷ m) u = elim (Bool-cases (str_eq i j)) [
    | inl q ↦ rw q u
    | inr q ↦ rw q (insert-Absent i j v m (str_eq_comm j i ∙ q) u.0, insert-Unique j v m u.1)
  ]

  module _ (test : V → Bool) where
    abbrev pub passing : GoMap V → GoMap V
    passing m = filter (λ (k, v). test v) m

    abbrev pub kept_if : Option V → Option V
    kept_if none = none
    kept_if (some v) = if test v then some v else none

    passing-Absent : (k : Str) (m : GoMap V) → Absent k m → Absent k (passing m)
    passing-Absent k [] a = tt
    passing-Absent k ((j, v) ∷ m) a = ground (arith, passing-Absent k m)

    pub passing-Unique : (m : GoMap V) → Unique m → Unique (passing m)
    passing-Unique [] u = tt
    passing-Unique ((j, v) ∷ m) u = ground (arith, passing-Absent j m, passing-Unique m)

    pub lookup-passing :
        (k : Str) (m : GoMap V) → Unique m → lookup k (passing m) ≡ kept_if (lookup k m)
    unfolding lookup
    lookup-passing k [] u = refl
    lookup-passing k ((j, v) ∷ m) u = elim (Bool-cases (str_eq j k)) [
      | inl e ↦
          let absent : Absent k m = subst (λ i. Absent i m) ((str_eq_iff j k).0 e) u.0 in
          let gone = lookup-Absent k (passing m) (passing-Absent k m absent) in ground arith
      | inr e ↦ let ih = lookup-passing k m u.1 in ground arith
    ]

pub lookup-Mem : {V : Type 0} (k : Str) (v : V) (m : GoMap V) → lookup k m ≡ some v → Mem (k, v) m
unfolding lookup
lookup-Mem k v [] h = cc
lookup-Mem k v ((j, w) ∷ m) h = elim (Bool-cases (str_eq j k)) [
  | inl e ↦
      let same : w ≡ v = ground (arith, rw e at h) in rw (same, (str_eq_iff j k).0 e) mem-cons_self
  | inr e ↦ mem-cons_of_mem (j, w) (lookup-Mem k v m (rw e at h))
]
