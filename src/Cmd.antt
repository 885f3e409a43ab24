-- ===== src/Cmd.antt =====
-- cmd/infermeshd/main.go: how the command reads its arguments and the answers of the setup wizard.
-- The input is the list of its lines, each without its end; past the last a line reads as empty. What
-- is written to the terminal is left out.
pub mod Wizard
pub mod Flags
pub mod Wiring
pub mod Lists
pub mod Setup
use gpuswarm.Common.{
  ℕ, zero, suc, ◌-◌, Bool, true, false, ◌&&◌, ◌||◌, not, Option, none, some, Str, str, str_eq,
  is_empty, trim_space, to_lower, trim_right_char, has_prefix, trim_prefix, equal_fold, List, [],
  ◌∷◌, ◌++◌, map, find, length, get_elem?, filter, if◌then◌else◌,
}
use gpuswarm.Common.Int.{ℤ, pos, leb_ℤ, pos_part}
use gpuswarm.Common.Numbers.{atoi}
use gpuswarm.Common.Split.{split, join}
use gpuswarm.Common.Floats.{Float64}
use gpuswarm.Model.{ModelSpec}
use gpuswarm.Config.{Config, no_items, serves, asks, fill_list, fill_blank}

-- splitCSV
unfoldable pub keep_trimmed : List Str → List Str
keep_trimmed [] = []
keep_trimmed (p ∷ ps) =
    let rest = keep_trimmed ps in if is_empty (trim_space p) then rest else trim_space p ∷ rest

unfoldable pub split_csv : Str → List Str
split_csv v = keep_trimmed (split b',' v)

unfoldable pub join_csv : List Str → Str
join_csv v = join b',' v

-- `if len(parts) > i { field = parts[i] }` for a field that is empty before.
unfoldable pub part : List Str → ℕ → Str
part parts i = elim (get_elem? parts i) [ none ↦ [] | some p ↦ p ]

unfoldable pub max_ctx_of : Str → ℤ
max_ctx_of raw = elim (atoi raw) [ none ↦ pos 0 | some v ↦ v ]

unfoldable pub encoded_spec : List Str → ModelSpec
encoded_spec parts = record {
  name = part parts 0;
  sha256 = part parts 1;
  tokenizer = part parts 2;
  quant = part parts 3;
  backend = part parts 4;
  max_ctx = max_ctx_of (part parts 5);
}

unfoldable pub encoded_specs : List Str → List ModelSpec
encoded_specs [] = []
encoded_specs (raw ∷ encoded) =
    let parts = split b':' raw in
    let rest = encoded_specs encoded in
    if is_empty (part parts 0) then rest else encoded_spec parts ∷ rest

unfoldable pub named_spec : Str → ModelSpec
named_spec m = record {
  name = m;
  sha256 = [];
  tokenizer = [];
  quant = [];
  backend = str "openai-compatible";
  max_ctx = pos 0;
}

unfoldable pub parse_model_specs : List Str → List Str → List ModelSpec
parse_model_specs base_names encoded = map named_spec base_names ++ encoded_specs encoded

-- buildAdvertiseURL; `split_host_port` and `join_host_port` are net.SplitHostPort and
-- net.JoinHostPort.
module _ (split_host_port : Str → Option (Str × Str)) (join_host_port : Str → Str → Str) where
  unfoldable pub local_host : Str → Str
  local_host host =
      if is_empty host || str_eq host (str "0.0.0.0") || str_eq host (str "::")
      then str "127.0.0.1"
      else host

  unfoldable pub build_advertise_url : Str → Str → Str
  build_advertise_url advertise_url provider_addr =
      if not (is_empty advertise_url)
      then trim_right_char b'/' advertise_url
      else elim (split_host_port provider_addr) [
        | none ↦ str "http://127.0.0.1:7777"
        | some (host, port) ↦
            str "http://"
            ++ join_host_port (local_host host) (if is_empty port then str "7777" else port)
      ]

-- The loop of shouldRunSetupWizard: only the -config flag may stand there.
unfoldable pub only_config : List Str → Bool
only_config [] = true
only_config (a ∷ []) = if str_eq a (str "-config") then true else has_prefix a (str "-config=")
only_config (a ∷ (b ∷ args)) =
    let after_value = only_config args in
    let after_flag = only_config (b ∷ args) in
    if str_eq a (str "-config")
    then after_value
    else if has_prefix a (str "-config=")
    then after_flag
    else false

unfoldable pub without_daemon : List Str → List Str
without_daemon [] = []
without_daemon (a ∷ args) = if str_eq a (str "daemon") then args else a ∷ args

-- shouldRunSetupWizard; `interactive` says that the input is a terminal.
unfoldable pub should_run_setup_wizard : Bool → List Str → Bool
should_run_setup_wizard interactive args = interactive && only_config (without_daemon args)

-- findArgValue
unfoldable pub find_arg_value : List Str → Str → Str
find_arg_value [] name = []
find_arg_value (a ∷ []) name =
    if has_prefix a (name ++ str "=") then trim_prefix a (name ++ str "=") else []
find_arg_value (a ∷ (b ∷ args)) name =
    let rest = find_arg_value (b ∷ args) name in
    if str_eq a name
    then b
    else if has_prefix a (name ++ str "=")
    then trim_prefix a (name ++ str "=")
    else rest
