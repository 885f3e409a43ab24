-- ===== src/Backend/Adapters.antt =====
-- internal/backend/adapter.go and ollama_adapter.go: Infer of the two adapters. The HTTP client, JSON and
-- the first 64 KiB of a body are arguments.
pub mod Printed
use gpuswarm.Common.{
  ℕ, ◌+◌, Bool, true, false, ◌||◌, leb, byte_length, not, Option, none, some, Str, str, is_empty,
  trim_right_char, List, [], ◌∷◌, ◌++◌, map, if◌then◌else◌, Result, ok, err, ◌==◌,
}
use gpuswarm.Common.Int.{ℤ, pos, leb_ℤ}
use gpuswarm.Common.Split.{split}
use gpuswarm.Model.{ChatCompletionRequest, Message}
use gpuswarm.Backend.{OllamaLine, write_stream}

pub record InferenceStream : Type 0 where
  pub status_code : ℤ
  pub content_type : Str
  pub body : Str

pub data BackendError : Type 0 where
  marshal_failed build_failed request_failed : Str → BackendError
  backend_status : ℤ → Str → BackendError

pub record OllamaRequest : Type 0 where
  pub model : Str
  pub messages : List Message
  pub stream : Bool

-- json.Marshal, what NewRequestWithContext says of a URL, and Client.Do of a POST with a body.
pub record HttpClient : Type 0 where
  pub marshal : ChatCompletionRequest → Result Str Str
  pub marshal_ollama : OllamaRequest → Result Str Str
  pub request_error : Str → Option Str
  pub post : Str → Str → Result Str InferenceStream
  pub first_64k : Str → Str

-- NewHTTPAdapter and NewOllamaAdapter: the base URL.
unfoldable pub adapter_base : Str → Str
adapter_base base_url = trim_right_char b'/' base_url

-- The lines that a bufio.Scanner gives: without their ends, without an empty one at the end, and none
-- from the first on that does not fit in the scanner's buffer of 64 KiB with its end.
unfoldable pub without_cr : Str → Str
without_cr [] = []
without_cr (c ∷ []) = if c == 13 then [] else c ∷ []
without_cr (c ∷ (e ∷ s)) = c ∷ without_cr (e ∷ s)

unfoldable pub too_long : Str → Bool
too_long l = leb 65_536 (byte_length l)

unfoldable pub scanned : List Str → List Str
unfolding is_empty
scanned [] = []
scanned (l ∷ []) = if is_empty l || too_long l then [] else without_cr l ∷ []
scanned (l ∷ (k ∷ ls)) =
    let rest = scanned (k ∷ ls) in if too_long l then [] else without_cr l ∷ rest

unfoldable pub scan_lines : Str → List Str
scan_lines body = scanned (split 10 body)

module _ (client : HttpClient) where
  open client use {marshal, marshal_ollama, request_error, post, first_64k}

  unfoldable pub accepted : Result Str InferenceStream → Result BackendError InferenceStream
  accepted (err e) = err (request_failed e)
  accepted (ok resp) =
      if leb_ℤ (pos 400) resp.status_code
      then err (backend_status resp.status_code (first_64k resp.body))
      else ok resp

  unfoldable pub posted : Str → Str → Option Str → Result BackendError InferenceStream
  posted url b (some e) = err (build_failed e)
  posted url b none = accepted (post url b)

  -- What both adapters do: the request's JSON, sent to a URL.
  unfoldable pub send : Str → Result Str Str → Result BackendError InferenceStream
  send url (err e) = err (marshal_failed e)
  send url (ok b) = posted url b (request_error url)

  -- HTTPAdapter.Infer
  unfoldable pub http_infer : Str → ChatCompletionRequest → Result BackendError InferenceStream
  http_infer base req = send (base ++ str "/v1/chat/completions") (marshal req)

  module _ (decode_line : Str → Option OllamaLine) (quote : Str → Str) where
    unfoldable pub ollama_stream :
        Bool → Result BackendError InferenceStream → Result BackendError InferenceStream
    ollama_stream stream (err e) = err e
    ollama_stream false (ok resp) =
        ok (record {
          status_code = pos 200;
          content_type = str "application/json";
          body = resp.body;
        })
    ollama_stream true (ok resp) = ok (record {
      status_code = pos 200;
      content_type = str "text/event-stream";
      body = write_stream quote (map decode_line (scan_lines resp.body));
    })

    -- OllamaAdapter.Infer
    unfoldable pub ollama_infer : Str → ChatCompletionRequest → Result BackendError InferenceStream
    ollama_infer base req = ollama_stream req.stream (
        send (base ++ str "/api/chat") (
          marshal_ollama
            (record { model = req.model; messages = req.messages; stream = req.stream })))
