-- ===== src/Backend/Payload.antt =====
-- One chunk of a stream, as the chat reads it.
use gpuswarm.Common.{
  byte_length, true, false, Option, some, Str, str, str_eq, is_empty, is_space, trim_space,
  trim_right_func, trim_right-append, has_prefix, trim_prefix, List, [], ◌∷◌, ◌++◌, ◌≡◌, refl, ap,
  ◌∙◌,
}
use gpuswarm.Common.Split.{split, Lacks, split-append}
use gpuswarm.Backend.{texts, beyond_buffer, decoded_text, read_lines, read_stream}

append_nil : (xs : Str) → xs ++ [] ≡ xs
append_nil [] = refl
append_nil (x ∷ xs) = ap (◌∷◌ x) (append_nil xs)

marked : (j : Str) → has_prefix (str "data: " ++ j) (str "data:") ≡ true
unfolding has_prefix
marked j = refl

marked_one_line : (j : Str) → Lacks 10 j → Lacks 10 (str "data: " ++ j)
marked_one_line j h = h

blank_line : (rest : Str) → split 10 (10 ∷ rest) ≡ [] ∷ split 10 rest
unfolding split
blank_line rest = refl

module _ (decode : Str → Option (List Str)) where
  -- A payload that stands on one line, not too long a one, with no space around it, and that is read as a text.
  pub record IsPayload (j text : Str) : Type 0 where
    pub one_line : Lacks 10 j
    pub not_empty : is_empty j ≡ false
    pub trimmed : trim_space j ≡ j
    pub trimmed_right : trim_right_func is_space j ≡ j
    pub not_done : str_eq j (str "[DONE]") ≡ false
    pub fits : beyond_buffer (str "data: " ++ j) ≡ false
    pub reads_back : decode j ≡ some (text ∷ [])

  line_trimmed :
      (j text : Str) → IsPayload j text → trim_space (str "data: " ++ j) ≡ str "data: " ++ j
  unfolding trim_space
  line_trimmed j text p = (trim_right-append (str "data: ") j p.not_empty p.trimmed_right).0

  payload_found :
      (j text : Str)
      → IsPayload j text
      → trim_space (trim_prefix (str "data: " ++ j) (str "data:")) ≡ j
  payload_found j text p = after_space j ∙ p.trimmed
    where
      after_space :
          (k : Str) → trim_space (trim_prefix (str "data: " ++ k) (str "data:")) ≡ trim_space k
      after_space k = unfold trim_prefix in unfold trim_space in refl

  read_line :
      (j text : Str) (lines : List Str)
      → IsPayload j text
      → read_lines decode ((str "data: " ++ j) ∷ lines) ≡ text ++ read_lines decode lines
  unfolding read_lines
  read_line j text lines p =
      rw
        (
          p.fits,
          line_trimmed j text p,
          payload_found j text p,
          marked j,
          p.not_empty,
          p.not_done,
          p.reads_back,
        )
        (ap (λ t. t ++ read_lines decode lines)
          (unfold decoded_text in unfold texts in append_nil text))

  read_blank : (lines : List Str) → read_lines decode ([] ∷ lines) ≡ read_lines decode lines
  unfolding read_lines beyond_buffer byte_length trim_space has_prefix
  read_blank lines = refl

  -- A chunk is read as its text.
  pub read_payload :
      (j text rest : Str)
      → IsPayload j text
      → read_stream decode (str "data: " ++ (j ++ (10 ∷ (10 ∷ rest))))
        ≡ text ++ read_stream decode rest
  unfolding read_stream
  read_payload j text rest p =
      ap (read_lines decode) (
        split-append 10 (str "data: " ++ j) (10 ∷ rest) (marked_one_line j p.one_line)
        ∙ ap (λ ls. (str "data: " ++ j) ∷ ls) (blank_line rest))
      ∙ (read_line j text _ p ∙ ap (λ t. text ++ t) (read_blank (split 10 rest)))
