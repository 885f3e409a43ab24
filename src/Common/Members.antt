-- ===== src/Common/Members.antt =====
-- Membership in the lists that the program filters, sorts and ranges over.
use mathlib.Core.Path.{◌≡◌, refl, subst, sym}
use mathlib.Core.Logic.{◌↔◌, inl, inr, ◌⊎◌}
use mathlib.Core.Logic.Or
use mathlib.Core.Bool.{Bool, true, false}
use mathlib.Core.List.{
  List, [], ◌∷◌, map, Mem, Perm, not-mem-nil, mem-cons_self, mem-cons_of_mem, eq-or-mem_of_mem-cons,
}
use mathlib.Core.List.Perm
use mathlib.Core.HLevel.{×_prop}
use mathlib.Core.Logic.{∥∥₁_prop}
use native.Mathlib.Omega.{arith}
use gpuswarm.Common.Tests.{Bool-cases}
use gpuswarm.Common.Lists.{All, filter, any}

pub Bool-set : IsSet Bool
Bool-set = hlevel

pub true-prop : (b c : Bool) → IsProp (b ≡ c)
true-prop b c = Bool-set b c

module _ {A : Type 0} (P : A → Type 0) where
  pub All-of_mem : (xs : List A) → ((x : A) → Mem x xs → P x) → All P xs
  All-of_mem [] h = tt
  All-of_mem (x ∷ xs) h = (h x mem-cons_self, All-of_mem xs (λ y m. h y (mem-cons_of_mem x m)))

  module _ (prop : (x : A) → IsProp (P x)) where
    pub All-mem : (xs : List A) → All P xs → (x : A) → Mem x xs → P x
    All-mem [] h x m = absurd (not-mem-nil m)
    All-mem (y ∷ ys) h x m =
        Or.elim (prop x) (eq-or-mem_of_mem-cons m) (λ e. subst P (sym e) h.0) (All-mem ys h.1 x)

    pub All-perm : {xs ys : List A} → Perm xs ys → All P xs → All P ys
    All-perm {xs} {ys} p h = All-of_mem ys (λ y m. All-mem xs h y ((Perm.mem_iff p).1 m))

pub All-imp :
    {A : Type 0} (P Q : A → Type 0) → ((x : A) → P x → Q x) → (xs : List A) → All P xs → All Q xs
All-imp P Q h [] a = tt
All-imp P Q h (x ∷ xs) a = (h x a.0, All-imp P Q h xs a.1)

pub mem-map_of_mem :
    {A B : Type 0} (f : A → B) (x : A) (xs : List A) → Mem x xs → Mem (f x) (map f xs)
mem-map_of_mem f x [] m = absurd (not-mem-nil m)
mem-map_of_mem f x (y ∷ ys) m =
    Or.elim ∥∥₁_prop (eq-or-mem_of_mem-cons m) (λ q. rw q mem-cons_self)
      (λ r. mem-cons_of_mem (f y) (mem-map_of_mem f x ys r))

module _ {A : Type 0} (test : A → Bool) where
  mem_of_mem-filter : (x : A) (xs : List A) → Mem x (filter test xs) → Mem x xs × (test x ≡ true)
  mem_of_mem-filter x [] m = absurd (not-mem-nil m)
  mem_of_mem-filter x (y ∷ ys) m = elim (Bool-cases (test y)) [
    | inl e ↦
        let m' : Mem x (y ∷ filter test ys) = rw e at m in
        Or.elim (×_prop ∥∥₁_prop (true-prop _ _)) (eq-or-mem_of_mem-cons m')
          (λ q. rw q (mem-cons_self, e))
          (λ r. let (a, b) = mem_of_mem-filter x ys r in (mem-cons_of_mem y a, b))
    | inr e ↦
        let m' : Mem x (filter test ys) = rw e at m in
        let (a, b) = mem_of_mem-filter x ys m' in (mem-cons_of_mem y a, b)
  ]

  mem-filter_of_mem : (x : A) (xs : List A) → Mem x xs → test x ≡ true → Mem x (filter test xs)
  mem-filter_of_mem x [] m t = absurd (not-mem-nil m)
  mem-filter_of_mem x (y ∷ ys) m t =
      Or.elim ∥∥₁_prop (eq-or-mem_of_mem-cons m) (λ q. rw (← q) (rw t mem-cons_self))
        (λ r. later (mem-filter_of_mem x ys r t) (Bool-cases (test y)))
    where
      later :
          Mem x (filter test ys) → (test y ≡ true) ⊎ (test y ≡ false) → Mem x (filter test (y ∷ ys))
      later k (inl e) = rw e (mem-cons_of_mem y k)
      later k (inr e) = rw e k

  -- A filter keeps exactly the elements that pass.
  pub mem-filter_iff : (x : A) (xs : List A) → Mem x (filter test xs) ↔ (Mem x xs × (test x ≡ true))
  mem-filter_iff x xs = (mem_of_mem-filter x xs, λ (m, t). mem-filter_of_mem x xs m t)

  pub any-mem : (x : A) (xs : List A) → Mem x xs → test x ≡ true → any test xs ≡ true
  any-mem x [] m t = absurd (not-mem-nil m)
  any-mem x (y ∷ ys) m t =
      Or.elim (true-prop _ _) (eq-or-mem_of_mem-cons m) (λ q. rw (← q) (rw t refl))
        (λ r. let k = any-mem x ys r t in ground arith)

pub map-All :
    {A B : Type 0} (P : A → Type 0) (Q : B → Type 0) (f : A → B)
    → ((x : A) → P x → Q (f x))
    → (xs : List A) → All P xs
    → All Q (map f xs)
map-All P Q f h [] a = tt
map-All P Q f h (x ∷ xs) a = (h x a.0, map-All P Q f h xs a.1)
