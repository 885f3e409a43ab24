-- ===== src/Backend/Mock/Printed.antt =====
-- The chat reads the mock backend's stream, and where its escapes go wrong.
use gpuswarm.Common.{
  byte_length, ℕ, suc, Bool, true, false, ◌&&◌, Option, some, Str, str, str_eq, is_empty, any,
  is_space, trim_space, trim_right_func, trim_right-append, has_prefix, trim_prefix, List, [], ◌∷◌,
  ◌++◌, All, if◌then◌else◌, ◌≡◌, refl, ap, ◌∙◌, ◌==◌, arith, Bool-cases, inl, inr,
}
use mathlib.Core.List.{append_assoc}
use gpuswarm.Common.Int.{ℤ, pos, leb_ℤ}
use gpuswarm.Common.Split.{Lacks, split, lead}
use gpuswarm.Backend.{read_stream, read_lines, beyond_buffer}
use gpuswarm.Backend.Payload.{IsPayload, read_payload}
use gpuswarm.Backend.Mock.{escape, mock_json, mock_stream}

-- Does the text hold a quotation mark with no backslash that escapes it? Such a mark ends a JSON string.
unfoldable pub ends_string : Str → Bool
ends_string [] = false
ends_string (c ∷ []) = c == b'"'
ends_string (c ∷ (d ∷ s)) =
    let after_escape = ends_string s in
    let after_one = ends_string (d ∷ s) in
    if c == b'\\' then after_escape else if c == b'"' then true else after_one

ends-mark : (s : Str) → ends_string (b'"' ∷ s) ≡ true
unfolding ends_string
ends-mark [] = refl
ends-mark (c ∷ s) = refl

ends-plain :
    (c : ℕ) (s : Str)
    → (c == b'\\') ≡ false
    → (c == b'"') ≡ false
    → ends_string (c ∷ s) ≡ ends_string s
unfolding ends_string
ends-plain c [] h k = k
ends-plain c (d ∷ s) h k = ground arith

-- Of a text without backslashes, the escaped form ends the JSON string that it stands in exactly if the
-- text holds a quotation mark: the mark is escaped as an escaped backslash and a bare mark.
pub escape-ends : (s : Str) → Lacks b'\\' s → ends_string (escape s) ≡ any (λ c. c == b'"') s
unfolding ends_string escape
escape-ends [] h = refl
escape-ends (c ∷ []) h = ground arith
escape-ends (c ∷ (d ∷ s)) h =
    let ih = escape-ends (d ∷ s) (ground arith) in
    ground (arith, ends-mark (escape (d ∷ s)), ends-plain c (escape (d ∷ s)))

-- The text of the tokens before the n-th, each with a space behind.
unfoldable pub spoken : ℤ → ℕ → List Str → Str
spoken fail_after i [] = []
spoken fail_after i (tok ∷ tokens) =
    let rest = spoken fail_after (suc i) tokens in
    if leb_ℤ (pos 0) fail_after && leb_ℤ fail_after (pos i) then [] else tok ++ (32 ∷ rest)

abbrev tail : Str
tail = str " \"},\"finish_reason\":null}]}"

module _ (decode : Str → Option (List Str)) where
  -- A token's chunk is one line, and its JSON holds the token with a space behind.
  pub record Sendable (tok : Str) : Type 0 where
    pub one_line : Lacks 10 (mock_json tok)
    pub fits : beyond_buffer (str "data: " ++ mock_json tok) ≡ false
    pub reads_back : decode (mock_json tok) ≡ some ((tok ++ (32 ∷ [])) ∷ [])

  json_trimmed_right : (tok : Str) → trim_right_func is_space (mock_json tok) ≡ mock_json tok
  unfolding mock_json is_empty trim_right_func is_space
  json_trimmed_right tok = rw (trim_right-append (escape tok) tail refl refl).0 refl

  json_trimmed : (tok : Str) → trim_space (mock_json tok) ≡ mock_json tok
  unfolding mock_json trim_space is_empty
  json_trimmed tok = rw (trim_right-append (escape tok) tail refl refl).0 refl

  token-IsPayload : (tok : Str) → Sendable tok → IsPayload decode (mock_json tok) (tok ++ (32 ∷ []))
  token-IsPayload tok q = record {
    one_line = q.one_line;
    not_empty = unfold mock_json in unfold is_empty in refl;
    trimmed = json_trimmed tok;
    trimmed_right = json_trimmed_right tok;
    not_done = unfold mock_json in unfold str_eq in refl;
    fits = q.fits;
    reads_back = q.reads_back;
  }

  read_token :
      (tok rest : Str)
      → Sendable tok
      → read_stream decode (str "data: " ++ (mock_json tok ++ (10 ∷ (10 ∷ rest))))
        ≡ tok ++ (32 ∷ read_stream decode rest)
  read_token tok rest q =
      read_payload decode (mock_json tok) (tok ++ (32 ∷ [])) rest (token-IsPayload tok q)
      ∙ append_assoc tok (32 ∷ []) (read_stream decode rest)

  read_nothing : read_stream decode [] ≡ []
  unfolding read_stream read_lines beyond_buffer byte_length split trim_space has_prefix
  read_nothing = refl

  read_done : read_stream decode (str "data: [DONE]" ++ (10 ∷ (10 ∷ []))) ≡ []
  unfolding read_stream read_lines beyond_buffer byte_length split lead trim_space trim_prefix
      has_prefix is_empty str_eq
  read_done = refl

  -- What the chat prints of the mock backend's stream is each token with a space behind it, up to the
  -- token at which the stream breaks off if it does, if each token's chunk is one line that fits in the
  -- chat's buffer and its JSON holds the token.
  pub read-mock_stream :
      (fail_after : ℤ) (i : ℕ) (tokens : List Str)
      → All Sendable tokens
      → read_stream decode (mock_stream fail_after i tokens) ≡ spoken fail_after i tokens
  unfolding mock_stream spoken
  read-mock_stream fail_after i [] q = read_done
  read-mock_stream fail_after i (tok ∷ tokens) q =
      elim (Bool-cases (leb_ℤ (pos 0) fail_after && leb_ℤ fail_after (pos i))) [
        | inl e ↦ rw e read_nothing
        | inr e ↦ rw e (
            read_token tok _ q.0
            ∙ ap (λ t. tok ++ (32 ∷ t)) (read-mock_stream fail_after (suc i) tokens q.1))
      ]
