-- ===== src/Cli.antt =====
-- internal/cli/chat.go: how the chat chooses models and providers. The client's API is an interface,
-- the documents that fetchPeers gets are an argument, and what is printed is left out.
pub mod Commands
pub mod Selection
pub mod Startup
pub mod Repl
pub mod Labels
pub mod Choices
pub mod Groups
pub mod Complete
pub mod Order
pub mod Best
pub mod Pinned
pub mod Chosen
use gpuswarm.Common.{
  ℕ, zero, suc, ◌-◌, Bool, true, false, ◌&&◌, not, Option, none, some, Str, str, str_eq, str_lt,
  is_empty, trim_space, equal_fold, List, [], ◌∷◌, ◌++◌, map, find, length, get_elem?,
  if◌then◌else◌, Result, ok, err,
}
use gpuswarm.Common.Int.{ℤ, pos, leb_ℤ, ltb_ℤ, eqb_ℤ, pos_part}
use gpuswarm.Common.Numbers.{atoi}
use gpuswarm.Common.Floats.{Float64}
use gpuswarm.Common.Sorting.{SortSlice}
use gpuswarm.Common.Maps.{GoMap, MapRange, lookup, insert}
use gpuswarm.Common.Split.{fields}
use gpuswarm.Model.{CapabilityDocument, ModelSpec, supports_model}

pub record ModelChoice (F : Type 0) : Type 0 where
  pub name : Str
  pub providers : List (CapabilityDocument F)

-- The routing calls of a client's API, on the state M of the client; `some` is an error.
pub record Mesh : Type 1 where
  pub M : Type 0
  pub set_routing : M → Str → M × Option Str
  pub select_peer : M → Str → M × Option Str

-- The answers to a menu: the lines that are typed, or the entry that the arrow keys choose, if any.
pub data Pick : Type 0 where
  typed : List Str → Pick
  arrows : Option ℕ → Pick

-- Which provider of several is wanted: none, the best, or the one at an index.
pub data ProviderChoice : Type 0 where
  keep best : ProviderChoice
  at : ℕ → ProviderChoice

unfoldable pub by_index : ℕ → Option ℤ → ProviderChoice
by_index n none = keep
by_index n (some i) = if leb_ℤ (pos 1) i && leb_ℤ i (pos n) then at (pos_part i - 1) else keep

-- For `n` providers.
unfoldable pub provider_choice : ℕ → Pick → ProviderChoice
provider_choice n (arrows none) = keep
provider_choice n (arrows (some zero)) = best
provider_choice n (arrows (some (suc i))) = at i
provider_choice n (typed []) = keep
provider_choice n (typed (l ∷ ls)) =
    let choice = trim_space l in
    if is_empty choice
    then keep
    else if equal_fold choice (str "a")
    then best
    else by_index n (atoi choice)

module _ (fl : Float64) where
  open fl use {F, lt, eq, milli}

  unfoldable pub better_provider : CapabilityDocument F → CapabilityDocument F → Bool
  better_provider a b =
      if not (eq a.reliability b.reliability)
      then lt b.reliability a.reliability
      else if not (eqb_ℤ a.queue_depth b.queue_depth)
      then ltb_ℤ a.queue_depth b.queue_depth
      else if not (eqb_ℤ a.avg_latency_ms b.avg_latency_ms)
      then ltb_ℤ a.avg_latency_ms b.avg_latency_ms
      else str_lt a.peer_id b.peer_id

  -- The loop of bestProviderForModel.
  unfoldable pub best_from :
      CapabilityDocument F → List (CapabilityDocument F) → CapabilityDocument F
  best_from top [] = top
  best_from top (p ∷ ps) = best_from (if better_provider p top then p else top) ps

  -- `none` stands for the document without fields.
  unfoldable pub best_provider_for_model :
      List (CapabilityDocument F) → Option (CapabilityDocument F)
  best_provider_for_model [] = none
  best_provider_for_model (p ∷ ps) = some (best_from p ps)

  -- Append to the entry of a model.
  unfoldable pub add_provider :
      GoMap (List (CapabilityDocument F))
      → Str
      → CapabilityDocument F
      → GoMap (List (CapabilityDocument F))
  add_provider m name p =
      insert name ((elim (lookup name m) [ none ↦ [] | some ps ↦ ps ]) ++ (p ∷ [])) m

  unfoldable pub add_models :
      GoMap (List (CapabilityDocument F))
      → CapabilityDocument F
      → List ModelSpec
      → GoMap (List (CapabilityDocument F))
  add_models m p [] = m
  add_models m p (s ∷ specs) =
      let name = trim_space s.name in
      add_models (if is_empty name then m else add_provider m name p) p specs

  unfoldable pub by_model :
      GoMap (List (CapabilityDocument F))
      → List (CapabilityDocument F)
      → GoMap (List (CapabilityDocument F))
  by_model m [] = m
  by_model m (p ∷ peers) = by_model (if p.is_self then m else add_models m p p.models) peers

  unfoldable pub lower_name : ModelChoice F → ModelChoice F → Bool
  lower_name a b = str_lt a.name b.name

  unfoldable pub choice_of : Str × List (CapabilityDocument F) → ModelChoice F
  choice_of (name, ps) = record { name = name; providers = ps }
