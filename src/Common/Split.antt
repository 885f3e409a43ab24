-- ===== src/Common/Split.antt =====
-- strings.Split and strings.Join with a one-character separator, and strings.Fields.
use gpuswarm.Common.{
  ℕ, false, not, Str, List, [], ◌∷◌, ◌++◌, ◌==◌, ==_iff, if◌then◌else◌, any, All, is_space,
  is_empty, filter, Option, none, some, ◌≡◌, refl, ap, ◌∙◌, arith, Bool-cases, inl, inr,
}

-- Put a character in front of the first part.
unfoldable pub lead : ℕ → List Str → List Str
lead c [] = (c ∷ []) ∷ []
lead c (p ∷ ps) = (c ∷ p) ∷ ps

-- strings.Split(s, sep): one part more than there are separators.
unfoldable pub split : ℕ → Str → List Str
split sep [] = [] ∷ []
split sep (c ∷ s) = let rest = split sep s in if c == sep then [] ∷ rest else lead c rest

-- strings.Join(parts, sep)
unfoldable pub join : ℕ → List Str → Str
join sep [] = []
join sep (p ∷ []) = p
join sep (p ∷ (q ∷ ps)) = p ++ (sep ∷ join sep (q ∷ ps))

-- strings.Fields(s): the maximal runs of characters that are no space.
unfoldable pub words : Str → List Str
words [] = [] ∷ []
words (c ∷ s) = let rest = words s in if is_space c then [] ∷ rest else lead c rest

unfoldable pub fields : Str → List Str
fields s = filter (λ p. not (is_empty p)) (words s)

unfoldable pub last : List Str → Option Str
last [] = none
last (p ∷ []) = some p
last (p ∷ (q ∷ ps)) = last (q ∷ ps)

-- No character of the text is the separator.
abbrev pub Lacks : ℕ → Str → Type 0
Lacks sep s = any (λ c. c == sep) s ≡ false

pub split-lacking : (sep : ℕ) (p : Str) → Lacks sep p → split sep p ≡ p ∷ []
unfolding split lead
split-lacking sep [] h = refl
split-lacking sep (c ∷ p) h = elim (Bool-cases (c == sep)) [
  | inl e ↦ absurd (ground arith)
  | inr e ↦ rw (e, split-lacking sep p (ground arith)) refl
]

pub split-append :
    (sep : ℕ) (p s : Str) → Lacks sep p → split sep (p ++ (sep ∷ s)) ≡ p ∷ split sep s
unfolding split lead
split-append sep [] s h = rw ((==_iff sep sep).1 refl) refl
split-append sep (c ∷ p) s h = elim (Bool-cases (c == sep)) [
  | inl e ↦ absurd (ground arith)
  | inr e ↦ rw (e, split-append sep p s (ground arith)) refl
]

-- To split what was joined gives the parts back, if there is one and none holds the separator.
pub split-join :
    (sep : ℕ) (p : Str) (ps : List Str)
    → All (Lacks sep) (p ∷ ps)
    → split sep (join sep (p ∷ ps)) ≡ p ∷ ps
unfolding join
split-join sep p [] h = split-lacking sep p h.0
split-join sep p (q ∷ ps) h =
    split-append sep p (join sep (q ∷ ps)) h.0 ∙ ap (◌∷◌ p) (split-join sep q ps h.1)
