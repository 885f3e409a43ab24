-- ===== src/Common/Ranged.antt =====
-- A map whose keys are unique is the same map in whatever order its entries stand.
use mathlib.Core.Path.{◌≡◌, refl, ap, sym, ◌∙◌, subst}
use mathlib.Core.Logic.{∥∥₁_map}
use mathlib.Core.Bool.{false}
use mathlib.Core.Option.{some}
use mathlib.Core.List.{[], ◌∷◌, Perm, Permᴰ}
use mathlib.Core.List.Perm
use mathlib.Core.List.Permᴰ.{nil, cons, swap, trans}
use native.Mathlib.Omega.{arith}
use gpuswarm.Common.Lists.{All}
use gpuswarm.Common.Text.{Str, str_eq, str_eq_iff, str_eq_comm, str_eq_refl}
use gpuswarm.Common.Maps.{GoMap, MapRange, lookup}
use gpuswarm.Common.Members.{All-perm, true-prop}
use gpuswarm.Common.Unique.{Absent, Unique}

module _ {V : Type 0} where
  swapped-Unique : (a b : Str × V) (l : GoMap V) → Unique (a ∷ (b ∷ l)) → Unique (b ∷ (a ∷ l))
  swapped-Unique (i, v) (j, w) l ((n, p), (q, u)) = ((str_eq_comm i j ∙ n, q), (p, u))

  cons-Unique :
      (a : Str × V) (l m : GoMap V) → Perm l m → Unique m → Unique (a ∷ l) → Unique (a ∷ m)
  cons-Unique (k, v) l m p u (n, w) =
      (All-perm (λ (j, x). str_eq j k ≡ false) (λ x. true-prop _ _) p n, u)

  permᴰ-Unique : {l m : GoMap V} → Permᴰ l m → Unique l → Unique m
  permᴰ-Unique nil u = u
  permᴰ-Unique (cons {a} {b} {l₁} {l₂} e d) u =
      subst (λ x. Unique (x ∷ l₂)) e (cons-Unique a l₁ l₂ ∣ d ∣₁ (permᴰ-Unique d u.1) u)
  permᴰ-Unique (swap {a} {b} {a'} {b'} {l} e f) u =
      subst (λ x. Unique (x ∷ (b' ∷ l))) f
        (subst (λ x. Unique (b ∷ (x ∷ l))) e (swapped-Unique a b l u))
  permᴰ-Unique (trans d f) u = permᴰ-Unique f (permᴰ-Unique d u)

  lookup-cons :
      (k : Str) (a : Str × V) (l m : GoMap V)
      → lookup k m ≡ lookup k l
      → lookup k (a ∷ m) ≡ lookup k (a ∷ l)
  unfolding lookup
  lookup-cons k (j, v) l m e = rw e refl

  lookup-swapped :
      (k : Str) (a b : Str × V) (l : GoMap V)
      → Unique (a ∷ (b ∷ l))
      → lookup k (b ∷ (a ∷ l)) ≡ lookup k (a ∷ (b ∷ l))
  unfolding lookup
  lookup-swapped k (i, v) (j, w) l ((n, p), u) =
      ground (arith, str_eq_iff i k, str_eq_iff j k, str_eq_refl k)

  lookup-permᴰ : (k : Str) {l m : GoMap V} → Permᴰ l m → Unique l → lookup k m ≡ lookup k l
  lookup-permᴰ k nil u = refl
  lookup-permᴰ k (cons {a} {b} {l₁} {l₂} e d) u =
      ap (λ x. lookup k (x ∷ l₂)) (sym e) ∙ lookup-cons k a l₁ l₂ (lookup-permᴰ k d u.1)
  lookup-permᴰ k (swap {a} {b} {a'} {b'} {l} e f) u =
      ap (λ x. lookup k (x ∷ (b' ∷ l))) (sym f)
      ∙ (ap (λ x. lookup k (b ∷ (x ∷ l))) (sym e) ∙ lookup-swapped k a b l u)
  lookup-permᴰ k (trans d f) u = lookup-permᴰ k f (permᴰ-Unique d u) ∙ lookup-permᴰ k d u

  -- A map with unique keys that has the entries of another.
  pub record Same (l m : GoMap V) : Type 0 where
    pub unique : Unique m
    pub found : (k : Str) → lookup k m ≡ lookup k l

  pub ranged-Same : (maps : MapRange) (m : GoMap V) → Unique m → ∥ Same m (maps.range V m) ∥₁
  ranged-Same maps m u =
      ∥∥₁_map (Perm.symm (maps.range_perm V m))
        (λ d. record { unique = permᴰ-Unique d u; found = λ k. lookup-permᴰ k d u })

  found_later :
      (j : Str) (w : V) (m l : GoMap V)
      → Absent j l
      → All (λ (k, e). lookup k m ≡ some e) l
      → All (λ (k, e). lookup k ((j, w) ∷ m) ≡ some e) l
  unfolding lookup
  found_later j w m [] a h = tt
  found_later j w m ((k, v) ∷ l) a h = (rw (str_eq_comm j k, a.0) h.0, found_later j w m l a.1 h.1)

  -- In a map with unique keys each entry is found.
  pub entries_found : (m : GoMap V) → Unique m → All (λ (k, e). lookup k m ≡ some e) m
  entries_found [] u = tt
  entries_found ((k, v) ∷ m) u =
      (unfold lookup in rw (str_eq_refl k) refl, found_later k v m m u.0 (entries_found m u.1))
