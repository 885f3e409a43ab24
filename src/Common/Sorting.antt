-- ===== src/Common/Sorting.antt =====
-- sort.Slice: the documented contract, and insertion sort as a sort that meets it.
use mathlib.Core.Path.{◌≡◌}
use mathlib.Core.Bool.{Bool, true, false}
use mathlib.Core.List.{List, [], ◌∷◌, Perm}
use mathlib.Core.List.Perm
use mathlib.Core.Logic.{inl, inr}
use native.Mathlib.Omega.{arith}
use gpuswarm.Common.Tests.{if◌then◌else◌, Bool-cases}
use gpuswarm.Common.Lists.{All}

-- `less` is a strict weak order on the elements that satisfy P.
pub record StrictWeak {A : Type 0} (P : A → Type 0) (less : A → A → Bool) : Type 0 where
  pub asym : (a b : A) → P a → P b → less a b ≡ true → less b a ≡ false
  pub neg_trans :
      (a b c : A) → P a → P b → P c → less a b ≡ false → less b c ≡ false → less a c ≡ false

-- No later element is less than an earlier one.
abbrev pub SortedBy : {A : Type 0} → (A → A → Bool) → List A → Type 0
SortedBy less [] = Unit
SortedBy less (x ∷ xs) = All (λ y. less y x ≡ false) xs × SortedBy less xs

pub record SortSlice : Type 1 where
  pub sort : (A : Type 0) → (A → A → Bool) → List A → List A
  pub sort_perm : (A : Type 0) (less : A → A → Bool) (xs : List A) → Perm (sort A less xs) xs
  pub sort_sorted :
      (A : Type 0) (P : A → Type 0) (less : A → A → Bool) (xs : List A)
      → StrictWeak P less
      → All P xs
      → SortedBy less (sort A less xs)

module _ {A : Type 0} (less : A → A → Bool) where
  unfoldable pub insert_sorted : A → List A → List A
  insert_sorted x [] = x ∷ []
  insert_sorted x (y ∷ ys) = if less y x then y ∷ insert_sorted x ys else x ∷ y ∷ ys

  unfoldable pub insertion_sort : List A → List A
  unfolding insert_sorted
  insertion_sort [] = []
  insertion_sort (x ∷ xs) = insert_sorted x (insertion_sort xs)

  pub insert_sorted-perm : (x : A) (xs : List A) → Perm (insert_sorted x xs) (x ∷ xs)
  unfolding insert_sorted
  insert_sorted-perm x [] = Perm.rfl
  insert_sorted-perm x (y ∷ ys) = elim (Bool-cases (less y x)) [
    | inl e ↦ rw e (Perm.trans (Perm.cons y (insert_sorted-perm x ys)) (Perm.swap x y ys))
    | inr e ↦ rw e Perm.rfl
  ]

  pub insertion_sort-perm : (xs : List A) → Perm (insertion_sort xs) xs
  unfolding insertion_sort
  insertion_sort-perm [] = Perm.rfl
  insertion_sort-perm (x ∷ xs) =
      Perm.trans (insert_sorted-perm x (insertion_sort xs)) (Perm.cons x (insertion_sort-perm xs))

  pub insert_sorted-All :
      (P : A → Type 0) (x : A) (xs : List A) → P x → All P xs → All P (insert_sorted x xs)
  unfolding insert_sorted
  insert_sorted-All P x [] p h = (p, tt)
  insert_sorted-All P x (y ∷ ys) p h = ground (arith, insert_sorted-All P x ys p h.1)

  pub insertion_sort-All : (P : A → Type 0) (xs : List A) → All P xs → All P (insertion_sort xs)
  unfolding insertion_sort
  insertion_sort-All P [] h = tt
  insertion_sort-All P (x ∷ xs) h = insert_sorted-All P x _ h.0 (insertion_sort-All P xs h.1)

  module _ (P : A → Type 0) (w : StrictWeak P less) where
    pub All-weaken :
        (x y : A) (zs : List A)
        → P x
        → P y
        → All P zs
        → less y x ≡ false
        → All (λ z. less z y ≡ false) zs
        → All (λ z. less z x ≡ false) zs
    All-weaken x y [] px py h e b = tt
    All-weaken x y (z ∷ zs) px py h e b =
        (w.neg_trans z y x h.0 py px b.0 e, All-weaken x y zs px py h.1 e b.1)

    pub insert_sorted-SortedBy :
        (x : A) (xs : List A)
        → P x
        → All P xs
        → SortedBy less xs
        → SortedBy less (insert_sorted x xs)
    unfolding insert_sorted
    insert_sorted-SortedBy x [] p h s = (tt, tt)
    insert_sorted-SortedBy x (y ∷ ys) p h s = elim (Bool-cases (less y x)) [
      | inl e ↦ rw e (
        insert_sorted-All (λ z. less z y ≡ false) x ys (w.asym y x h.0 p e) s.0,
        insert_sorted-SortedBy x ys p h.1 s.1,
      )
      | inr e ↦ rw e ((e, All-weaken x y ys p h.0 h.1 e s.0), s)
    ]

    pub insertion_sort-SortedBy : (xs : List A) → All P xs → SortedBy less (insertion_sort xs)
    unfolding insertion_sort
    insertion_sort-SortedBy [] h = tt
    insertion_sort-SortedBy (x ∷ xs) h =
        insert_sorted-SortedBy x _ h.0 (insertion_sort-All P xs h.1)
          (insertion_sort-SortedBy xs h.1)

-- The contract can be met.
unfoldable pub insertion : SortSlice
unfolding insertion_sort
insertion = record {
  sort = λ A less xs. insertion_sort less xs;
  sort_perm = λ A less xs. insertion_sort-perm less xs;
  sort_sorted = λ A P less xs w h. insertion_sort-SortedBy less P w xs h;
}
