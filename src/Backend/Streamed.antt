-- ===== src/Backend/Streamed.antt =====
-- The chat prints what the model said.
use gpuswarm.Common.{
  byte_length, Bool, true, false, Option, none, some, Str, str, str_eq, is_empty, is_space,
  trim_space, trim_right_func, trim_right-append, has_prefix, trim_prefix, List, [], ◌∷◌, ◌++◌, All,
  if◌then◌else◌, ◌≡◌, refl, ap, ◌∙◌,
}
use gpuswarm.Common.Split.{split, lead, Lacks}
use gpuswarm.Backend.Payload.{IsPayload, read_payload}
use gpuswarm.Backend.{
  OllamaLine, chunk_json, chunk, beyond_buffer, write_stream, decoded_text, read_lines, read_stream,
}

-- What the model said, up to the line that ends the answer.
unfoldable pub said : List (Option OllamaLine) → Str
said [] = []
said (none ∷ lines) = said lines
said (some l ∷ lines) = let rest = said lines in l.content ++ (if l.done then [] else rest)

module _ (quote : Str → Str) (decode : Str → Option (List Str)) where
  -- Of a content: its quoted form has no line end and fits in the chat's buffer, and a chunk with it is read back as that content.
  pub record Quotable (content : Str) : Type 0 where
    pub one_line : Lacks 10 (chunk_json quote content)
    pub fits : beyond_buffer (str "data: " ++ chunk_json quote content) ≡ false
    pub reads_back : decode (chunk_json quote content) ≡ some (content ∷ [])

  abbrev tail : Str
  tail = str "},\"finish_reason\":null}]}"

  json_trimmed_right :
      (c : Str) → trim_right_func is_space (chunk_json quote c) ≡ chunk_json quote c
  unfolding chunk_json is_empty trim_right_func is_space
  json_trimmed_right c = rw (trim_right-append (quote c) tail refl refl).0 refl

  json_trimmed : (c : Str) → trim_space (chunk_json quote c) ≡ chunk_json quote c
  unfolding chunk_json trim_space is_empty
  json_trimmed c = rw (trim_right-append (quote c) tail refl refl).0 refl

  json-IsPayload : (c : Str) → Quotable c → IsPayload decode (chunk_json quote c) c
  json-IsPayload c q = record {
    one_line = q.one_line;
    not_empty = unfold chunk_json in unfold is_empty in refl;
    trimmed = json_trimmed c;
    trimmed_right = json_trimmed_right c;
    not_done = unfold chunk_json in unfold str_eq in refl;
    fits = q.fits;
    reads_back = q.reads_back;
  }

  read_written :
      (c rest : Str)
      → Quotable c
      → read_stream decode (chunk quote c rest) ≡ c ++ read_stream decode rest
  unfolding chunk is_empty
  read_written [] rest q = refl
  read_written (d ∷ c) rest q =
      read_payload decode (chunk_json quote (d ∷ c)) (d ∷ c) rest (json-IsPayload (d ∷ c) q)

  read_end : decode (str "[DONE]\\n\\n") ≡ none → read_stream decode (str "data: [DONE]\\n\\n") ≡ []
  unfolding read_stream read_lines beyond_buffer byte_length split lead trim_space trim_prefix
      has_prefix is_empty str_eq decoded_text
  read_end h = rw h refl

  abbrev pub QuotableLine : Option OllamaLine → Type 0
  QuotableLine none = Unit
  QuotableLine (some l) = Quotable l.content

  stream_end :
      (b : Bool) (rest text : Str)
      → decode (str "[DONE]\\n\\n") ≡ none
      → read_stream decode rest ≡ text
      → read_stream decode (if b then str "data: [DONE]\\n\\n" else rest) ≡ (if b then [] else text)
  stream_end true rest text h e = read_end h
  stream_end false rest text h e = e

  -- What the chat prints of an Ollama answer is what the model said, in order and up to the line that
  -- ends it, if each content's quoted form is one line that fits in the chat's buffer and reads back as the content, and if the
  -- payload of the mark at the end does not read as a chunk.
  pub read_stream-write_stream :
      (lines : List (Option OllamaLine))
      → All QuotableLine lines
      → decode (str "[DONE]\\n\\n") ≡ none
      → read_stream decode (write_stream quote lines) ≡ said lines
  unfolding write_stream said
  read_stream-write_stream [] q h =
      unfold read_stream in
      unfold read_lines in
      unfold beyond_buffer in
      unfold byte_length in unfold split in unfold trim_space in unfold has_prefix in refl
  read_stream-write_stream (none ∷ lines) q h = read_stream-write_stream lines q.1 h
  read_stream-write_stream (some l ∷ lines) q h =
      read_written l.content _ q.0
      ∙ ap (λ t. l.content ++ t)
          (stream_end l.done (write_stream quote lines) (said lines) h
            (read_stream-write_stream lines q.1 h))
