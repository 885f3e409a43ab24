-- ===== src/P2p/Context/Carried.antt =====
-- The provider reads the context that the client sent.
use gpuswarm.Common.{
  ℕ, true, Bool, ◌==◌, ◌&&◌, ◌||◌, not, leb, Option, All, ◌^◌, ◌<◌, Str, str, str_eq, str_eq_iff,
  is_empty, [], ◌∷◌, some, if◌then◌else◌, ◌≡◌, refl, ap, sym, ◌∙◌, arith, Bool-cases, inl, inr,
}
use gpuswarm.Common.Numbers.{
  is_digit, digits_value, digits_value-cons, digits_value-format_uint, format_uint, parse_uint,
  parse_uint-format_uint,
}
use gpuswarm.Common.Maps.{GoMap, lookup, insert, insert-All, lookup-insert}
use gpuswarm.Model.{PeerContext, ChatCompletionRequest}
use gpuswarm.P2p.Context.{
  header_client_peer_id, header_pow_nonce, header_client_name, put_nonempty, put_context,
  http_headers, metadata_or_empty, with_metadata, value, read_nonce, header_context,
  metadata_context,
}

value-insert :
    (k j v : Str) (m : GoMap Str) → value j (insert k v m) ≡ (if str_eq k j then v else value j m)
unfolding value
value-insert k j v m = ground (arith, lookup-insert k j v m)

value-put_nonempty :
    (k j v : Str) (m : GoMap Str)
    → value k m ≡ []
    → value j (put_nonempty k v m) ≡ (if str_eq k j then v else value j m)
unfolding put_nonempty is_empty
value-put_nonempty k j [] m h = elim (Bool-cases (str_eq k j)) [
  | inl e ↦ rw e (ap (λ i. value i m) (sym ((str_eq_iff k j).0 e)) ∙ h)
  | inr e ↦ rw e refl
]
value-put_nonempty k j (c ∷ v) m h = value-insert k j (c ∷ v) m

-- The map has neither an ID nor a name.
pub record Anonymous (m : GoMap Str) : Type 0 where
  pub no_peer_id : value header_client_peer_id m ≡ []
  pub no_name : value header_client_name m ≡ []

read_nonce-format_uint : (n : ℕ) → n < 2 ^ 64 → read_nonce (format_uint n) ≡ n
unfolding read_nonce is_empty parse_uint
read_nonce-format_uint n h = written (format_uint n) (parse_uint-format_uint n h)
  where
    written : (t : Str) → parse_uint t ≡ some n → read_nonce t ≡ n
    written [] e = cc e
    written (c ∷ t) e = rw (e, read_nonce) refl

module _ (ctx : PeerContext) (m : GoMap Str) (a : Anonymous m) where
  no_name_yet :
      value header_client_name (put_nonempty header_client_peer_id ctx.client_peer_id m) ≡ []
  unfolding str_eq
  no_name_yet =
      value-put_nonempty header_client_peer_id header_client_name ctx.client_peer_id m a.no_peer_id
      ∙ a.no_name

  carried_id : value header_client_peer_id (put_context ctx m) ≡ ctx.client_peer_id
  unfolding put_context str_eq
  carried_id =
      value-insert header_pow_nonce header_client_peer_id _ _
      ∙ (value-put_nonempty header_client_name header_client_peer_id ctx.client_name _ no_name_yet
          ∙ value-put_nonempty header_client_peer_id header_client_peer_id ctx.client_peer_id m
              a.no_peer_id)

  carried_name : value header_client_name (put_context ctx m) ≡ ctx.client_name
  unfolding put_context str_eq
  carried_name =
      value-insert header_pow_nonce header_client_name _ _
      ∙ value-put_nonempty header_client_name header_client_name ctx.client_name _ no_name_yet

  carried_nonce : value header_pow_nonce (put_context ctx m) ≡ format_uint ctx.pow_nonce
  unfolding put_context str_eq
  carried_nonce = value-insert header_pow_nonce header_pow_nonce _ _

  -- What is put into a map that names no client is what is read from it, if the nonce fits in a
  -- uint64.
  pub header_context-put_context : ctx.pow_nonce < 2 ^ 64 → header_context (put_context ctx m) ≡ ctx
  unfolding header_context
  header_context-put_context h =
      rw (carried_id, carried_name, carried_nonce, read_nonce-format_uint ctx.pow_nonce h) refl

-- The rest of a header's value: no control characters but tabs, and no space at the end.
abbrev pub is_value_rest : Str → Bool
is_value_rest [] = true
is_value_rest (c ∷ []) = leb 33 c && not (c == 127)
is_value_rest (c ∷ (d ∷ s)) =
    let rest = is_value_rest (d ∷ s) in (c == 9 || leb 32 c) && not (c == 127) && rest

-- A text that HTTP carries unchanged as the value of a header.
abbrev pub is_header_value : Str → Bool
is_header_value [] = true
is_header_value (c ∷ s) = leb 33 c && is_value_rest (c ∷ s)

abbrev pub HeaderValues : GoMap Str → Type 0
HeaderValues m = All (λ (k, v). is_header_value v ≡ true) m

-- How the headers of a request reach the other end: `none` is a request that is refused. Values that
-- HTTP carries unchanged arrive, and none of these headers is added.
pub record Carries (transport : GoMap Str → Option (GoMap Str)) : Type 0 where
  pub carried :
      (m : GoMap Str)
      → HeaderValues m
      → (arrived : GoMap Str) × ((transport m ≡ some arrived)
          × ((value header_client_peer_id arrived ≡ value header_client_peer_id m)
              × ((value header_client_name arrived ≡ value header_client_name m)
                  × (value header_pow_nonce arrived ≡ value header_pow_nonce m))))

digits-is_value_rest : (s : Str) (acc n : ℕ) → digits_value acc s ≡ some n → is_value_rest s ≡ true
unfolding digits_value is_digit
digits-is_value_rest [] acc n h = refl
digits-is_value_rest (c ∷ []) acc n h = ground arith
digits-is_value_rest (c ∷ (d ∷ s)) acc n h =
    let (e, k) = digits_value-cons acc c (d ∷ s) n h in
    let r = digits-is_value_rest (d ∷ s) _ n k in ground arith

format_uint-is_header_value : (n : ℕ) → is_header_value (format_uint n) ≡ true
unfolding is_digit
format_uint-is_header_value n = of_digits (format_uint n) (digits_value-format_uint n)
  where
    of_digits : (s : Str) → digits_value 0 s ≡ some n → is_header_value s ≡ true
    of_digits [] h = refl
    of_digits (c ∷ s) h =
        let (e, k) = digits_value-cons 0 c s n h in
        let r = digits-is_value_rest (c ∷ s) 0 n h in ground arith

put_nonempty-HeaderValues :
    (k v : Str) (m : GoMap Str)
    → is_header_value v ≡ true
    → HeaderValues m
    → HeaderValues (put_nonempty k v m)
unfolding put_nonempty
put_nonempty-HeaderValues k v m e h = elim (Bool-cases (is_empty v)) [
  | inl q ↦ rw q h
  | inr q ↦ rw q (insert-All (λ (j, x). is_header_value x ≡ true) k v m e h)
]

headers-HeaderValues :
    (ctx : PeerContext)
    → is_header_value ctx.client_peer_id ≡ true
    → is_header_value ctx.client_name ≡ true
    → HeaderValues (http_headers ctx)
unfolding http_headers put_context
headers-HeaderValues ctx i n =
    insert-All (λ (j, x). is_header_value x ≡ true) header_pow_nonce (format_uint ctx.pow_nonce) _
      (format_uint-is_header_value ctx.pow_nonce)
      (put_nonempty-HeaderValues header_client_name ctx.client_name _ n
        (put_nonempty-HeaderValues header_client_peer_id ctx.client_peer_id _ i (refl, tt)))

headers-Anonymous : Anonymous ((str "Content-Type", str "application/json") ∷ [])
unfolding value lookup str_eq
headers-Anonymous = record { no_peer_id = refl; no_name = refl }

pub headers_arrive :
    (ctx : PeerContext) → ctx.pow_nonce < 2 ^ 64 → header_context (http_headers ctx) ≡ ctx
unfolding http_headers
headers_arrive ctx h = header_context-put_context ctx _ headers-Anonymous h

pub metadata_arrives :
    (ctx : PeerContext) (req : ChatCompletionRequest)
    → ctx.pow_nonce < 2 ^ 64
    → Anonymous (metadata_or_empty req.metadata)
    → metadata_context (with_metadata ctx req) ≡ ctx
unfolding metadata_context with_metadata metadata_or_empty
metadata_arrives ctx req h a = header_context-put_context ctx _ a h

same_values-header_context :
    (m n : GoMap Str)
    → value header_client_peer_id m ≡ value header_client_peer_id n
    → value header_client_name m ≡ value header_client_name n
    → value header_pow_nonce m ≡ value header_pow_nonce n
    → header_context m ≡ header_context n
unfolding header_context
same_values-header_context m n i j k = rw (i, j, k) refl

-- The provider sees the context that the client sent, over HTTP and, if the request's own metadata
-- names no client, over libp2p. The nonce must fit in a uint64; and over HTTP, which is assumed to
-- carry them then, the ID and the name must have no control characters and no space around them.
pub contexts_arrive :
    (transport : GoMap Str → Option (GoMap Str)) (ctx : PeerContext) (req : ChatCompletionRequest)
    → Carries transport
    → ctx.pow_nonce < 2 ^ 64
    → is_header_value ctx.client_peer_id ≡ true
    → is_header_value ctx.client_name ≡ true
    → Anonymous (metadata_or_empty req.metadata)
    → ((arrived : GoMap Str) × ((transport (http_headers ctx) ≡ some arrived)
          × (header_context arrived ≡ ctx)))
      × (metadata_context (with_metadata ctx req) ≡ ctx)
contexts_arrive transport ctx req t h i n a =
    let (arrived, (e, (v, (w, x)))) = t.carried (http_headers ctx) (headers-HeaderValues ctx i n) in
    (
      (arrived, (e, same_values-header_context arrived _ v w x ∙ headers_arrive ctx h)),
      metadata_arrives ctx req h a,
    )
