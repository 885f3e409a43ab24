-- ===== src/Backend/Adapters/Printed.antt =====
-- From an Ollama server to the chat's screen.
use gpuswarm.Common.{
  true, false, Option, none, Str, str, List, map, All, ◌++◌, ok, ◌≡◌, refl, ap, ◌∙◌,
}
use gpuswarm.Common.Int.{pos, leb_ℤ}
use gpuswarm.Model.{ChatCompletionRequest}
use gpuswarm.Backend.{OllamaLine, write_stream, read_stream}
use gpuswarm.Backend.Streamed.{said, QuotableLine, read_stream-write_stream}
use gpuswarm.Backend.Adapters.{
  InferenceStream, HttpClient, scan_lines, accepted, posted, send, ollama_stream, ollama_infer,
}

module _ (client : HttpClient) (decode_line : Str → Option OllamaLine) (quote : Str → Str)
    (decode : Str → Option (List Str)) where
  open client use {marshal_ollama, request_error, post}

  -- A streamed request to an Ollama server that answers it with a status below 400 gives a stream of
  -- which the chat prints what the server said: the contents of the lines that are JSON, in order and
  -- up to the line that ends the answer or is longer than the scanner's buffer. Each content's quoted form must be one line that fits in the chat's buffer and reads back
  -- as the content, and the payload of the mark at the end must not read as a chunk.
  pub ollama_printed :
      (base b : Str) (req : ChatCompletionRequest) (resp : InferenceStream)
      → req.stream ≡ true
      → marshal_ollama (record { model = req.model; messages = req.messages; stream = req.stream })
        ≡ ok b
      → request_error (base ++ str "/api/chat") ≡ none
      → post (base ++ str "/api/chat") b ≡ ok resp
      → leb_ℤ (pos 400) resp.status_code ≡ false
      → All (QuotableLine quote decode) (map decode_line (scan_lines resp.body))
      → decode (str "[DONE]\\n\\n") ≡ none
      → (out : InferenceStream) × (ollama_infer client decode_line quote base req ≡ ok out)
        × (out.status_code ≡ pos 200)
        × (read_stream decode out.body ≡ said (map decode_line (scan_lines resp.body)))
  unfolding ollama_infer send posted accepted
  ollama_printed base b req resp s m r p below q e = (
    record {
      status_code = pos 200;
      content_type = str "text/event-stream";
      body = write_stream quote (map decode_line (scan_lines resp.body));
    },
    answered,
    refl,
    read_stream-write_stream quote decode (map decode_line (scan_lines resp.body)) q e,
  )
    where
      sent :
          send client (base ++ str "/api/chat") (
            marshal_ollama
              (record { model = req.model; messages = req.messages; stream = req.stream }))
          ≡ ok resp
      sent = rw (m, r, p, below) refl

      answered :
          ollama_infer client decode_line quote base req
          ≡ ok (record {
            status_code = pos 200;
            content_type = str "text/event-stream";
            body = write_stream quote (map decode_line (scan_lines resp.body));
          })
      answered =
          ap (ollama_stream client decode_line quote req.stream) sent
          ∙ ap (λ x. ollama_stream client decode_line quote x (ok resp)) s
          ∙ unfold ollama_stream in refl
