-- ===== src/Cmd/Lists.antt =====
-- Comma-separated lists of the flags, there and back.
use gpuswarm.Common.{
  false, Str, is_empty, trim_space, trim_space_idem, List, [], ◌∷◌, All, ◌≡◌, refl, ap, ◌∙◌,
  Bool-cases, inl, inr,
}
use gpuswarm.Common.Split.{split, join, Lacks, split-join}
use gpuswarm.Cmd.{keep_trimmed, split_csv, join_csv}

-- An item that a list of the flags can hold.
pub record Item (p : Str) : Type 0 where
  pub not_blank : is_empty p ≡ false
  pub trimmed : trim_space p ≡ p

pub record PlainItem (p : Str) : Type 0 where
  pub item : Item p
  pub no_comma : Lacks b',' p

keep_trimmed-All : (ps : List Str) → All Item (keep_trimmed ps)
unfolding keep_trimmed
keep_trimmed-All [] = tt
keep_trimmed-All (p ∷ ps) = elim (Bool-cases (is_empty (trim_space p))) [
  | inl e ↦ rw e (keep_trimmed-All ps)
  | inr e ↦ rw e (record { not_blank = e; trimmed = trim_space_idem p }, keep_trimmed-All ps)
]

keep_trimmed_kept : (ps : List Str) → All PlainItem ps → keep_trimmed ps ≡ ps
unfolding keep_trimmed
keep_trimmed_kept [] h = refl
keep_trimmed_kept (p ∷ ps) h =
    rw (h.0.item.trimmed, h.0.item.not_blank, keep_trimmed_kept ps h.1) refl

All-Lacks : (ps : List Str) → All PlainItem ps → All (Lacks b',') ps
All-Lacks [] h = tt
All-Lacks (p ∷ ps) h = (h.0.no_comma, All-Lacks ps h.1)

-- No item of a list that was read is blank or has space around it, whatever the text.
pub split_csv-All : (v : Str) → All Item (split_csv v)
unfolding split_csv
split_csv-All v = keep_trimmed-All (split b',' v)

-- A list that is written with commas reads back as itself, if no item is blank, has space around it
-- or holds a comma; also if there are no items.
pub split_csv-join_csv : (ps : List Str) → All PlainItem ps → split_csv (join_csv ps) ≡ ps
unfolding split_csv join_csv
split_csv-join_csv [] h =
    unfold split in
    unfold join in unfold keep_trimmed in unfold is_empty in unfold trim_space in refl
split_csv-join_csv (p ∷ ps) h =
    ap keep_trimmed (split-join b',' p ps (All-Lacks (p ∷ ps) h)) ∙ keep_trimmed_kept (p ∷ ps) h
