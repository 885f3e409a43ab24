-- ===== src/Backend/Mock.antt =====
-- cmd/mock-backend/main.go: the handler of its one path. The delay between chunks is left out, and the
-- body is decoded (`none` if it is no JSON).
pub mod Printed
use gpuswarm.Common.{
  ℕ, suc, ◌+◌, Bool, true, false, ◌&&◌, not, Option, none, some, Str, str, str_eq, is_empty,
  is_space, trim_space, trim_right_func, trim_right-append, List, [], ◌∷◌, ◌++◌, All, ltb, leb,
  if◌then◌else◌, ◌≡◌, refl, ap, ◌∙◌, ◌==◌, arith, Bool-cases, inl, inr,
}
use gpuswarm.Common.Int.{ℤ, pos, negsuc, leb_ℤ}
use gpuswarm.Common.Split.{fields, Lacks, split, lead}
use gpuswarm.Model.{ChatCompletionRequest, Message}

pub data MockReply : Type 0 where
  refused : ℤ → Str → MockReply
  -- The model and the content of the one choice.
  completion : Str → Str → MockReply
  event_stream : Str → MockReply

-- The content of the last message, or nothing.
unfoldable pub last_content : List Message → Str
last_content [] = []
last_content (m ∷ []) = m.content
last_content (m ∷ (n ∷ ms)) = last_content (n ∷ ms)

unfoldable pub generated : Str → Str
generated prompt =
    let text = str "mock:" ++ trim_space prompt in
    if str_eq text (str "mock:") then str "mock: hello" else text

-- The replacer's pairs: two backslashes by four, and a quotation mark by two backslashes and itself.
unfoldable pub escape : Str → Str
escape [] = []
escape (c ∷ []) = if c == b'"' then b'\\' ∷ (b'\\' ∷ (b'"' ∷ [])) else c ∷ []
escape (c ∷ (d ∷ s)) =
    let after_two = escape s in
    let after_one = escape (d ∷ s) in
    if c == b'\\' && d == b'\\'
    then b'\\' ∷ (b'\\' ∷ (b'\\' ∷ (b'\\' ∷ after_two)))
    else if c == b'"'
    then b'\\' ∷ (b'\\' ∷ (b'"' ∷ after_one))
    else c ∷ after_one

unfoldable pub mock_json : Str → Str
mock_json tok =
    str
      "{\"id\":\"chatcmpl-mock\",\"object\":\"chat.completion.chunk\",\"choices\":[{\"index\":0,\"delta\":{\"content\":\""
    ++ (escape tok ++ str " \"},\"finish_reason\":null}]}")

-- The loop over the tokens, from the i-th on; -1 for `fail_after` sends them all.
unfoldable pub mock_stream : ℤ → ℕ → List Str → Str
mock_stream fail_after i [] = str "data: [DONE]" ++ (10 ∷ (10 ∷ []))
mock_stream fail_after i (tok ∷ tokens) =
    let rest = mock_stream fail_after (suc i) tokens in
    if leb_ℤ (pos 0) fail_after && leb_ℤ fail_after (pos i)
    then []
    else str "data: " ++ (mock_json tok ++ (10 ∷ (10 ∷ rest)))

unfoldable pub mock_reply : ℤ → ChatCompletionRequest → MockReply
mock_reply fail_after req =
    let text = generated (last_content req.messages) in
    if req.stream
    then event_stream (mock_stream fail_after 0 (fields text))
    else completion req.model text

-- The handler; the writer can flush.
unfoldable pub handle_completion : ℤ → Str → Option ChatCompletionRequest → MockReply
handle_completion fail_after method body =
    let answer : MockReply = elim body [
      | none ↦ refused (pos 400) (str "invalid json")
      | some req ↦ mock_reply fail_after req
    ] in
    if str_eq method (str "POST") then answer else refused (pos 405) (str "method not allowed")
