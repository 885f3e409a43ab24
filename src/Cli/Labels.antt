-- ===== src/Cli/Labels.antt =====
-- internal/cli/chat.go: the options of a chat, the answers of the daemon, and the names that are shown.
-- The length of a text is that of a text in ASCII.
use gpuswarm.Common.{
  ℕ, zero, suc, ◌-◌, ◌≤◌, Bool, false, Option, none, some, Str, str, str_eq, str_lt, is_empty,
  trim_space, trim_right_char, equal_fold, List, [], ◌∷◌, ◌++◌, find, length, leb, length-append,
  if◌then◌else◌, Result, ok, err, ◌≡◌, refl, arith, Bool-cases, inl, inr,
}
use gpuswarm.Common.Int.{pos, quot_ℤ, eqb_ℤ}
use gpuswarm.Common.Numbers.{format_uint}
use gpuswarm.Common.Floats.{Float64}
use gpuswarm.Common.Sorting.{SortSlice}
use gpuswarm.Common.Split.{join}
use gpuswarm.Model.{CapabilityDocument, ModelSpec}
use gpuswarm.Cli.Selection.{best_provider_for_current_model}

pub record ChatOptions : Type 0 where
  pub base_url : Str
  pub model : Str

-- The options that NewChatRunner keeps.
unfoldable pub or_else : Str → Str → Str
or_else text d = if is_empty text then d else text

unfoldable pub chat_options : ChatOptions → ChatOptions
chat_options opts = record {
  base_url =
      or_else (trim_right_char b'/' (trim_space opts.base_url)) (str "http://127.0.0.1:5555");
  model = or_else (trim_space opts.model) (str "llama3-8b");
}

-- What runChatCommand does, once its flags are parsed: one prompt, or a loop.
pub data ChatRun : Type 0 where
  one_prompt : Str → ChatRun
  interactive_loop repl_loop : ChatRun

unfoldable pub chat_run : Bool → Str → ChatRun
chat_run interactive prompt =
    if is_empty (trim_space prompt)
    then (if interactive then interactive_loop else repl_loop)
    else one_prompt (trim_space prompt)

-- A response of the daemon, whose status is a natural number; `what` is the start of the error's text.
pub record Response : Type 0 where
  pub status_code : ℕ
  pub body : Str

unfoldable pub response_error : Str → Response → Option Str
response_error what resp =
    if eqb_ℤ (quot_ℤ (pos resp.status_code) 100) (pos 2)
    then none
    else some (
        what
        ++ (str " failed: status="
            ++ (format_uint resp.status_code ++ (str " body=" ++ trim_space resp.body))))

-- selectPeer and setRouting, on the client's answer.
unfoldable pub update_error : Str → Result Str Response → Option Str
update_error what (err e) = some e
update_error what (ok resp) = response_error what resp

-- fetchPeers and fetchRoutingSettings; `decode` is the JSON decoder.
unfoldable pub decoded : {A : Type 0} → Option Str → Result Str A → Result Str A
decoded (some e) r = err e
decoded none r = r

unfoldable pub fetched :
    {A : Type 0} → (Str → Result Str A) → Str → Result Str Response → Result Str A
fetched decode what (err e) = err e
fetched decode what (ok resp) = decoded (response_error what resp) (decode resp.body)

unfoldable pub take : ℕ → Str → Str
take zero s = []
take (suc n) [] = []
take (suc n) (c ∷ s) = c ∷ take n s

unfoldable pub drop : ℕ → Str → Str
drop zero s = s
drop (suc n) [] = []
drop (suc n) (c ∷ s) = drop n s

unfoldable pub short_peer_id : Str → Str
short_peer_id peer_id = if leb (length peer_id) 12 then peer_id else take 12 peer_id

unfoldable pub compact_peer_id : Str → Str
compact_peer_id peer_id =
    if leb (length peer_id) 7
    then peer_id
    else take 3 peer_id ++ (str "..." ++ drop (length peer_id - 3) peer_id)

-- The names of a peer's models that are not blank.
unfoldable pub shown_names : List ModelSpec → List Str
shown_names [] = []
shown_names (m ∷ models) =
    let rest = shown_names models in
    if is_empty (trim_space m.name) then rest else trim_space m.name ∷ rest

unfoldable pub joined_or_dash : SortSlice → List Str → Str
joined_or_dash sorting [] = str "-"
joined_or_dash sorting (n ∷ names) = join b',' (sorting.sort Str str_lt (n ∷ names))

unfoldable pub join_model_names : SortSlice → List ModelSpec → Str
join_model_names sorting models = joined_or_dash sorting (shown_names models)

pub record RoutingStatus : Type 0 where
  pub routing_policy : Str
  pub allowed_peers : List Str

module _ (fl : Float64) where
  open fl use {F}

  unfoldable pub label_of : Str → Option (CapabilityDocument F) → Str
  label_of peer_id none = compact_peer_id peer_id
  label_of peer_id (some p) =
      let name = trim_space p.node_name in
      if is_empty name
      then compact_peer_id peer_id
      else name ++ (str " (" ++ (compact_peer_id peer_id ++ str ")"))

  unfoldable pub peer_label : Str → List (CapabilityDocument F) → Str
  peer_label peer_id peers = label_of peer_id (find (λ p. str_eq p.peer_id peer_id) peers)

  unfoldable pub best_label : Option (CapabilityDocument F) → List (CapabilityDocument F) → Str
  best_label none peers = str "<auto>"
  best_label (some best) peers = peer_label best.peer_id peers

  -- The peer that printStatus shows: the pinned one, or the best for the model.
  unfoldable pub manual_peer : RoutingStatus → Option Str
  manual_peer rs = elim (rs.allowed_peers) [
    | [] ↦ none
    | p ∷ ps ↦ if equal_fold (trim_space rs.routing_policy) (str "manual") then some p else none
  ]

  unfoldable pub status_peer : Str → RoutingStatus → List (CapabilityDocument F) → Str
  status_peer model rs peers = elim (manual_peer rs) [
    | some p ↦ peer_label p peers
    | none ↦ best_label (best_provider_for_current_model fl model peers) peers
  ]

length-take-le : (n : ℕ) (s : Str) → length (take n s) ≤ n
unfolding take
length-take-le zero s = omega arith
length-take-le (suc n) [] = omega arith
length-take-le (suc n) (c ∷ s) = omega (arith, length-take-le n s)

length-drop : (n : ℕ) (s : Str) → length (drop n s) ≤ length s - n
unfolding drop
length-drop zero s = omega arith
length-drop (suc n) [] = omega arith
length-drop (suc n) (c ∷ s) = omega (arith, length-drop n s)

-- A compact ID has at most nine characters, and is the ID itself if that has at most seven.
pub compact_peer_id_bounds :
    (peer_id : Str)
    → (length (compact_peer_id peer_id) ≤ 9)
      × (length peer_id ≤ 7 → compact_peer_id peer_id ≡ peer_id)
unfolding compact_peer_id
compact_peer_id_bounds peer_id = elim (Bool-cases (leb (length peer_id) 7)) [
  | inl e ↦ rw e (ground arith, λ h. refl)
  | inr e ↦ rw e (
    omega (
      arith,
      length-append (take 3 peer_id) (str "..." ++ drop (length peer_id - 3) peer_id),
      length-take-le 3 peer_id,
      dropped e,
    ),
    λ h. absurd (long e h),
  )
]
  where
    long : leb (length peer_id) 7 ≡ false → length peer_id ≤ 7 → ⊥
    long e h = ground arith

    dropped : leb (length peer_id) 7 ≡ false → length (drop (length peer_id - 3) peer_id) ≤ 3
    dropped e = ground (arith, length-drop (length peer_id - 3) peer_id)
