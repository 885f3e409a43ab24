-- ===== src/Examples/Stream.antt =====
-- An answer of one word through the streams.
use gpuswarm.Common.{
  byte_length, ◌≡◌, true, false, Option, some, none, Str, str, str_eq, is_empty, [], ◌∷◌, ◌++◌,
  List, map, refl, ok, All, if◌then◌else◌,
}
use gpuswarm.Common.Int.{pos}
use gpuswarm.Common.Split.{split, lead}
use gpuswarm.Model.{ChatCompletionRequest}
use gpuswarm.Backend.{OllamaLine, chunk_json, beyond_buffer, read_stream}
use gpuswarm.Backend.Streamed.{QuotableLine, said}
use gpuswarm.Backend.Adapters.{
  HttpClient, InferenceStream, scan_lines, scanned, too_long, without_cr, ollama_infer,
}
use gpuswarm.Backend.Adapters.Printed.{ollama_printed}
use gpuswarm.Examples.{request}

abbrev quote : Str → Str
quote s = str "\"" ++ (s ++ str "\"")

-- Reads the chunks of two texts only.
abbrev decode : Str → Option (List Str)
decode j =
    if str_eq j (chunk_json quote (str "hi"))
    then some (str "hi" ∷ [])
    else if str_eq j (chunk_json quote [])
    then some ([] ∷ [])
    else none

end_rejected : decode (str "[DONE]\\n\\n") ≡ none
unfolding chunk_json str_eq
end_rejected = refl

abbrev server_answer : Str
server_answer = str "hi" ++ (10 ∷ (str "end" ++ (10 ∷ [])))

abbrev server : HttpClient
server = record {
  marshal = λ req. ok req.model;
  marshal_ollama = λ req. ok req.model;
  request_error = λ url. none;
  post = λ url b. ok (record { status_code = pos 200; content_type = []; body = server_answer });
  first_64k = λ body. body;
}

abbrev decode_line : Str → Option OllamaLine
decode_line l =
    if str_eq l (str "hi")
    then some (record { content = str "hi"; done = false })
    else if str_eq l (str "end")
    then some (record { content = []; done = true })
    else none

quotable_lines : All (QuotableLine quote decode) (map decode_line (scan_lines server_answer))
unfolding chunk_json beyond_buffer byte_length str_eq scan_lines scanned too_long without_cr split
    lead is_empty
quotable_lines = (
  record { one_line = refl; fits = refl; reads_back = refl },
  (record { one_line = refl; fits = refl; reads_back = refl }, tt),
)

abbrev streamed : ChatCompletionRequest
streamed = record request { stream = true }

ollama_printed_example :
    (out : InferenceStream) × (ollama_infer server decode_line quote (str "http://box") streamed
      ≡ ok out)
    × (out.status_code ≡ pos 200)
    × (read_stream decode out.body ≡ said (map decode_line (scan_lines server_answer)))
ollama_printed_example =
    ollama_printed server decode_line quote decode (str "http://box") (str "llama3") streamed
      (record { status_code = pos 200; content_type = []; body = server_answer }) refl refl refl
      refl refl quotable_lines end_rejected
