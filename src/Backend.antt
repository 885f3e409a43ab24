-- ===== src/Backend.antt =====
-- internal/backend/ollama_adapter.go: the stream that a backend's answer becomes, and its reader in
-- internal/cli/chat.go. `quote` is Go's %q, `decode` the contents that a chunk's JSON holds.
pub mod Payload
pub mod Streamed
pub mod Adapters
pub mod Mock
use gpuswarm.Common.{
  Bool, leb, byte_length, true, false, not, Option, none, some, Str, str, str_eq, is_empty,
  trim_space, has_prefix, trim_prefix, List, [], ◌∷◌, ◌++◌, if◌then◌else◌,
}
use gpuswarm.Common.Split.{split}

pub record OllamaLine : Type 0 where
  pub content : Str
  pub done : Bool

module _ (quote : Str → Str) where
  unfoldable pub chunk_json : Str → Str
  chunk_json content =
      str
        "{\"id\":\"chatcmpl-ollama\",\"object\":\"chat.completion.chunk\",\"choices\":[{\"index\":0,\"delta\":{\"content\":"
      ++ (quote content ++ str "},\"finish_reason\":null}]}")

  unfoldable pub chunk : Str → Str → Str
  chunk content rest =
      if is_empty content then rest else str "data: " ++ (chunk_json content ++ (10 ∷ (10 ∷ rest)))

  -- What the goroutine writes for the lines that it scans; one that is no JSON is `none`. The end
  -- has backslashes where the other chunks have line ends.
  unfoldable pub write_stream : List (Option OllamaLine) → Str
  write_stream [] = []
  write_stream (none ∷ lines) = write_stream lines
  write_stream (some l ∷ lines) =
      let rest = write_stream lines in
      chunk l.content (if l.done then str "data: [DONE]\\n\\n" else rest)

-- A line that the chat's scanner, whose buffer has 1 MiB, does not give.
unfoldable pub beyond_buffer : Str → Bool
beyond_buffer raw = leb 1_048_576 (byte_length raw)

module _ (decode : Str → Option (List Str)) where
  unfoldable pub texts : List Str → Str
  texts [] = []
  texts (t ∷ ts) = t ++ texts ts

  unfoldable pub decoded_text : Option (List Str) → Str
  decoded_text none = []
  decoded_text (some ts) = texts ts

  -- The loop of sendPromptWithStats over the lines of a response: the text that it prints, without
  -- the line end behind it. It breaks off at a line that does not fit in the scanner's buffer.
  unfoldable pub read_lines : List Str → Str
  read_lines [] = []
  read_lines (raw ∷ lines) =
      let rest = read_lines lines in
      let line = trim_space raw in
      let payload = trim_space (trim_prefix line (str "data:")) in
      if beyond_buffer raw
      then []
      else if not (has_prefix line (str "data:"))
      then rest
      else if is_empty payload
      then rest
      else if str_eq payload (str "[DONE]")
      then []
      else decoded_text (decode payload) ++ rest

  unfoldable pub read_stream : Str → Str
  read_stream body = read_lines (split 10 body)
