-- ===== src/Common/Text.antt =====
-- Go strings as lists of code points, with the functions of package strings that the program calls.
-- White space is the set of unicode.IsSpace; ToLower maps the ASCII letters and no other.
use Prim.Native.Nat.{ℕ, ◌+◌, ◌≤◌}
use Prim.Native.Char.{code}
use Prim.Native.String.{String}
use mathlib.Core.Path.{◌≡◌, refl, ap}
use mathlib.Core.Logic.{◌↔◌, inl, inr}
use mathlib.Core.Bool.{Bool, true, false, ◌&&◌, ◌||◌}
use mathlib.Core.List.{List, [], ◌∷◌, ◌++◌}
use native.Mathlib.Omega.{arith}
use gpuswarm.Common.Tests.{ltb, leb, ◌==◌, if◌then◌else◌, Bool-cases}
use gpuswarm.Common.Lists.{length}

abbrev pub Str : Type 0
Str = List ℕ

-- A literal.
abbrev pub str : String → Str
str String.[] = []
str (String.◌∷◌ c s) = code c ∷ str s

unfoldable pub str_eq : Str → Str → Bool
str_eq [] [] = true
str_eq [] (d ∷ t) = false
str_eq (c ∷ s) [] = false
str_eq (c ∷ s) (d ∷ t) = (c == d) && str_eq s t

str_eq-eq : (s t : Str) → str_eq s t ≡ true → s ≡ t
unfolding str_eq
str_eq-eq [] [] h = refl
str_eq-eq [] (d ∷ t) h = cc
str_eq-eq (c ∷ s) [] h = cc
str_eq-eq (c ∷ s) (d ∷ t) h = ground (arith, str_eq-eq s t)

pub str_eq_refl : (s : Str) → str_eq s s ≡ true
unfolding str_eq
str_eq_refl [] = refl
str_eq_refl (c ∷ s) = ground (arith, str_eq_refl s)

pub str_eq_iff : (s t : Str) → (str_eq s t ≡ true) ↔ (s ≡ t)
str_eq_iff s t = (str_eq-eq s t, λ e. rw e (str_eq_refl t))

pub str_eq_comm : (s t : Str) → str_eq s t ≡ str_eq t s
unfolding str_eq
str_eq_comm [] [] = refl
str_eq_comm [] (d ∷ t) = refl
str_eq_comm (c ∷ s) [] = refl
str_eq_comm (c ∷ s) (d ∷ t) = ground (arith, str_eq_comm s t)

-- The bytes of a code point in UTF-8, and of a text.
unfoldable pub byte_width : ℕ → ℕ
byte_width c = if ltb c 128 then 1 else if ltb c 2048 then 2 else if ltb c 65_536 then 3 else 4

unfoldable pub byte_length : Str → ℕ
unfolding byte_width
byte_length [] = 0
byte_length (c ∷ s) = byte_width c + byte_length s

-- `s == ""`
unfoldable pub is_empty : Str → Bool
is_empty [] = true
is_empty (c ∷ s) = false

-- `a < b` on strings.
unfoldable pub str_lt : Str → Str → Bool
str_lt [] [] = false
str_lt [] (d ∷ t) = true
str_lt (c ∷ s) [] = false
str_lt (c ∷ s) (d ∷ t) = if c == d then str_lt s t else ltb c d

pub str_lt-asym : (s t : Str) → str_lt s t ≡ true → str_lt t s ≡ false
unfolding str_lt
str_lt-asym [] [] h = cc
str_lt-asym [] (d ∷ t) h = refl
str_lt-asym (c ∷ s) [] h = cc
str_lt-asym (c ∷ s) (d ∷ t) h = ground (arith, str_lt-asym s t)

-- `not less` is transitive.
pub str_lt-neg_trans : (s t u : Str) → str_lt s t ≡ false → str_lt t u ≡ false → str_lt s u ≡ false
unfolding str_lt
str_lt-neg_trans [] [] u h k = k
str_lt-neg_trans [] (d ∷ t) u h k = cc
str_lt-neg_trans (c ∷ s) t [] h k = refl
str_lt-neg_trans (c ∷ s) [] (e ∷ u) h k = cc
str_lt-neg_trans (c ∷ s) (d ∷ t) (e ∷ u) h k = ground (arith, str_lt-neg_trans s t u)

unfoldable pub is_space : ℕ → Bool
is_space c =
    (leb 9 c && leb c 13)
    || c == 32
    || c == 0x85
    || c == 0xa0
    || c == 0x1680
    || (leb 0x2000 c && leb c 0x200a)
    || c == 0x2028
    || c == 0x2029
    || c == 0x202f
    || c == 0x205f
    || c == 0x3000

-- Leading and trailing characters that pass a test.
unfoldable pub trim_left_func : (ℕ → Bool) → Str → Str
trim_left_func test [] = []
trim_left_func test (c ∷ s) = if test c then trim_left_func test s else c ∷ s

unfoldable pub trim_right_func : (ℕ → Bool) → Str → Str
unfolding is_empty
trim_right_func test [] = []
trim_right_func test (c ∷ s) =
    let rest = trim_right_func test s in if test c && is_empty rest then [] else c ∷ rest

unfoldable pub trim_space : Str → Str
unfolding is_space trim_left_func trim_right_func
trim_space s = trim_right_func is_space (trim_left_func is_space s)

unfoldable pub trim_right_char : ℕ → Str → Str
unfolding trim_right_func
trim_right_char c s = trim_right_func (λ d. d == c) s

unfoldable pub lower_char : ℕ → ℕ
lower_char c = if leb b'A' c && leb c b'Z' then c + 32 else c

unfoldable pub to_lower : Str → Str
unfolding lower_char
to_lower [] = []
to_lower (c ∷ s) = lower_char c ∷ to_lower s

-- strings.EqualFold, on the ASCII letters.
unfoldable pub equal_fold : Str → Str → Bool
unfolding to_lower str_eq
equal_fold s t = str_eq (to_lower s) (to_lower t)

unfoldable pub has_prefix : Str → Str → Bool
has_prefix s [] = true
has_prefix [] (p ∷ ps) = false
has_prefix (c ∷ s) (p ∷ ps) = (c == p) && has_prefix s ps

unfoldable pub drop_prefix : Str → Str → Str
drop_prefix s [] = s
drop_prefix [] (p ∷ ps) = []
drop_prefix (c ∷ s) (p ∷ ps) = drop_prefix s ps

unfoldable pub trim_prefix : Str → Str → Str
unfolding has_prefix drop_prefix
trim_prefix s p = if has_prefix s p then drop_prefix s p else s

-- strings.Contains
unfoldable pub contains : Str → Str → Bool
unfolding has_prefix
contains [] p = has_prefix [] p
contains (c ∷ s) p = has_prefix (c ∷ s) p || contains s p

module _ (test : ℕ → Bool) where
  trim_right_idem :
      (s : Str) → trim_right_func test (trim_right_func test s) ≡ trim_right_func test s
  unfolding trim_right_func
  trim_right_idem [] = refl
  trim_right_idem (c ∷ s) = ground (arith, trim_right_idem s)

  length-trim_left-le : (s : Str) → length (trim_left_func test s) ≤ length s
  unfolding trim_left_func
  length-trim_left-le [] = omega arith
  length-trim_left-le (c ∷ s) = ground (arith, length-trim_left-le s)

  trim_left-head : (c : ℕ) (s : Str) → trim_left_func test (c ∷ s) ≡ c ∷ s → test c ≡ false
  unfolding trim_left_func
  trim_left-head c s h = elim (Bool-cases (test c)) [
    | inl e ↦
        let h' : trim_left_func test s ≡ c ∷ s = ground arith in
        absurd (omega (arith, length-trim_left-le s, ap length h'))
    | inr e ↦ e
  ]

  -- What remains after a trim on the right starts as before, unless nothing remains.
  trim_left-trim_right :
      (s : Str)
      → trim_left_func test s ≡ s
      → trim_left_func test (trim_right_func test s) ≡ trim_right_func test s
  unfolding trim_right_func trim_left_func
  trim_left-trim_right [] h = refl
  trim_left-trim_right (c ∷ s) h = rw (trim_left-head c s h) (rw (trim_left-head c s h) refl)

  trim_left_idem : (s : Str) → trim_left_func test (trim_left_func test s) ≡ trim_left_func test s
  unfolding trim_left_func
  trim_left_idem [] = refl
  trim_left_idem (c ∷ s) = ground (arith, trim_left_idem s)

pub trim_right-append :
    (xs ys : Str)
    → is_empty ys ≡ false
    → trim_right_func is_space ys ≡ ys
    → (trim_right_func is_space (xs ++ ys) ≡ xs ++ ys) × (is_empty (xs ++ ys) ≡ false)
unfolding trim_right_func is_empty
trim_right-append [] ys n h = (h, n)
trim_right-append (x ∷ xs) ys n h = let (a, b) = trim_right-append xs ys n h in (ground arith, refl)

pub trim_space_idem : (s : Str) → trim_space (trim_space s) ≡ trim_space s
unfolding trim_space
trim_space_idem s =
    rw (trim_left-trim_right is_space (trim_left_func is_space s) (trim_left_idem is_space s))
      (trim_right_idem is_space (trim_left_func is_space s))

lower_char_idem : (c : ℕ) → lower_char (lower_char c) ≡ lower_char c
unfolding lower_char
lower_char_idem c = ground arith

pub to_lower_idem : (s : Str) → to_lower (to_lower s) ≡ to_lower s
unfolding to_lower
to_lower_idem [] = refl
to_lower_idem (c ∷ s) = cc (lower_char_idem c, to_lower_idem s)
