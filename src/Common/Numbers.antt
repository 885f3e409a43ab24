-- ===== src/Common/Numbers.antt =====
-- strconv.FormatUint and ParseUint in base 10, and Atoi.
use gpuswarm.Common.{
  ℕ, zero, suc, ◌+◌, ◌-◌, ◌*◌, ◌/◌, ◌%◌, ◌^◌, ◌<◌, Bool, true, false, ◌&&◌, [], ◌∷◌, Str, ltb, leb,
  ◌==◌, if◌then◌else◌, Option, none, some, ◌≡◌, arith, Bool-cases, inl, inr, ◌∙◌,
}
use gpuswarm.Common.Int.{ℤ, pos, ◌-ℤ◌}

-- The digits of n in front of what stands in acc; one unit of fuel for each digit.
unfoldable pub format_from : ℕ → ℕ → Str → Str
format_from zero n acc = acc
format_from (suc fuel) n acc = elim (ltb n 10) [
  | true ↦ (48 + n) ∷ acc
  | false ↦ format_from fuel (n / 10) ((48 + n % 10) ∷ acc)
]

unfoldable pub format_uint : ℕ → Str
unfolding format_from
format_uint n = format_from (suc n) n []

unfoldable pub is_digit : ℕ → Bool
is_digit c = leb 48 c && leb c 57

-- The value of a run of digits after a prefix of value acc.
unfoldable pub digits_value : ℕ → Str → Option ℕ
unfolding is_digit
digits_value acc [] = some acc
digits_value acc (c ∷ s) =
    let rest = digits_value (acc * 10 + (c - 48)) s in if is_digit c then rest else none

-- ParseUint(s, 10, 64): no sign, at least one digit, below 2^64.
unfoldable pub parse_uint : Str → Option ℕ
unfolding digits_value
parse_uint [] = none
parse_uint (c ∷ s) = elim (digits_value 0 (c ∷ s)) [
  | none ↦ none
  | some n ↦ if ltb n (2 ^ 64) then some n else none
]

unfoldable pub atoi_unsigned : Bool → Str → Option ℤ
unfolding digits_value ◌-ℤ◌
atoi_unsigned minus [] = none
atoi_unsigned minus (c ∷ s) = elim (digits_value 0 (c ∷ s)) [
  | none ↦ none
  | some n ↦
      if minus
      then (if leb n (2 ^ 63) then some (pos 0 -ℤ pos n) else none)
      else if ltb n (2 ^ 63)
      then some (pos n)
      else none
]

-- Atoi(s): an optional sign, at least one digit, in the range of int64.
unfoldable pub atoi : Str → Option ℤ
unfolding atoi_unsigned
atoi [] = none
atoi (c ∷ s) =
    if c == b'-'
    then atoi_unsigned true s
    else if c == b'+'
    then atoi_unsigned false s
    else atoi_unsigned false (c ∷ s)

digits_value-format_from :
    (fuel n : ℕ) (acc : Str)
    → n < fuel
    → digits_value 0 (format_from fuel n acc) ≡ digits_value n acc
unfolding format_from digits_value
digits_value-format_from zero n acc h = elim h [ ]
digits_value-format_from (suc fuel) n acc h = elim (Bool-cases (ltb n 10)) [
  | inl e ↦ rw (e, format_from) (ground arith)
  | inr e ↦
      rw (e, format_from) (digits_value-format_from fuel (n / 10) _ (ground arith) ∙ ground arith)
]

pub digits_value-cons :
    (acc c : ℕ) (s : Str) (n : ℕ)
    → digits_value acc (c ∷ s) ≡ some n
    → (is_digit c ≡ true) × (digits_value (acc * 10 + (c - 48)) s ≡ some n)
unfolding digits_value
digits_value-cons acc c s n h = elim (Bool-cases (is_digit c)) [
  | inl e ↦ (e, rw e at h)
  | inr e ↦ let k = rw e at h in cc k
]

-- A number written in decimal reads back as itself.
pub digits_value-format_uint : (n : ℕ) → digits_value 0 (format_uint n) ≡ some n
unfolding format_uint digits_value
digits_value-format_uint n = digits_value-format_from (suc n) n [] (omega arith)

format_from-cons :
    (fuel n : ℕ) (acc : Str) → n < fuel → (c : ℕ) × (s : Str) × (format_from fuel n acc ≡ c ∷ s)
unfolding format_from
format_from-cons zero n acc h = elim h [ ]
format_from-cons (suc fuel) n acc h = elim (Bool-cases (ltb n 10)) [
  | inl e ↦ (48 + n, acc, rw (e, format_from))
  | inr e ↦ rw (e, format_from) (format_from-cons fuel (n / 10) _ (ground arith))
]

parse_uint_of_digits :
    (t s : Str) (c n : ℕ)
    → t ≡ c ∷ s
    → digits_value 0 t ≡ some n
    → n < 2 ^ 64
    → parse_uint t ≡ some n
unfolding parse_uint
parse_uint_of_digits [] s c n e v h = cc
parse_uint_of_digits (d ∷ t) s c n e v h = rw (v, parse_uint) (ground arith)

pub parse_uint-format_uint : (n : ℕ) → n < 2 ^ 64 → parse_uint (format_uint n) ≡ some n
unfolding format_uint
parse_uint-format_uint n h =
    let (c, s, e) = format_from-cons (suc n) n [] (omega arith) in
    parse_uint_of_digits (format_uint n) s c n e (digits_value-format_uint n) h
