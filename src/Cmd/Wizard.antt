-- ===== src/Cmd/Wizard.antt =====
-- The prompts of the setup wizard, and the wizard.
use gpuswarm.Common.{
  ◌-◌, Bool, true, false, ◌&&◌, ◌||◌, Option, none, some, Str, str, str_eq, is_empty, trim_space,
  to_lower, equal_fold, List, [], ◌∷◌, ◌++◌, map, find, length, get_elem?, if◌then◌else◌,
}
use gpuswarm.Common.Int.{ℤ, pos, leb_ℤ, pos_part}
use gpuswarm.Common.Numbers.{atoi}
use gpuswarm.Config.{Config, no_items, serves, asks, fill_list, fill_blank}
use gpuswarm.Cmd.{keep_trimmed, split_csv, join_csv}

-- The next line, and the input behind it.
unfoldable pub read_line : List Str → Str × List Str
read_line [] = ([], [])
read_line (l ∷ ls) = (trim_space l, ls)

-- What a line chooses: an option by its name in any case, an option by its number, or the default.
unfoldable pub numbered : List Str → Option ℤ → Str → Str
numbered options none default_value = default_value
numbered options (some idx) default_value =
    if leb_ℤ (pos 1) idx && leb_ℤ idx (pos (length options))
    then (elim (get_elem? options (pos_part idx - 1)) [ none ↦ default_value | some o ↦ o ])
    else default_value

unfoldable pub chosen_option : List Str → Str → Str → Str
chosen_option options default_value line =
    if is_empty line then default_value else elim (find (equal_fold line) options) [
      | some o ↦ o
      | none ↦ numbered options (atoi line) default_value
    ]

unfoldable pub prompt_choice : List Str → List Str → Str → Str × List Str
prompt_choice input options default_value =
    let (line, rest) = read_line input in (chosen_option options default_value line, rest)

unfoldable pub prompt_default : List Str → Str → Str × List Str
prompt_default input default_value =
    let (line, rest) = read_line input in (if is_empty line then default_value else line, rest)

unfoldable pub prompt_yes_no : List Str → Bool → Bool × List Str
prompt_yes_no input default_yes =
    let (raw, rest) = read_line input in
    let line = to_lower raw in
    (if is_empty line then default_yes else str_eq line (str "y") || str_eq line (str "yes"), rest)

pub record BackendDetection : Type 0 where
  pub label : Str
  pub kind : Str
  pub url : Str
  pub models : List Str

unfoldable pub manual_backend : Str → BackendDetection
manual_backend choice =
    if str_eq choice (str "LM Studio")
    then record {
      label = str "LM Studio";
      kind = str "openai";
      url = str "http://127.0.0.1:1234";
      models = [];
    }
    else if str_eq choice (str "OpenAI Compatible")
    then record {
      label = str "OpenAI Compatible";
      kind = str "openai";
      url = str "http://127.0.0.1:9000";
      models = [];
    }
    else record {
      label = str "Ollama";
      kind = str "ollama";
      url = str "http://127.0.0.1:11434";
      models = [];
    }

unfoldable pub prompt_manual_backend : List Str → BackendDetection × List Str
prompt_manual_backend input =
    let (choice, rest) =
      prompt_choice input (str "Ollama" ∷ str "LM Studio" ∷ str "OpenAI Compatible" ∷ [])
        (str "Ollama") in
    (manual_backend choice, rest)

-- detectBackends, on what the two local servers list.
unfoldable pub detected_ollama : Option (List Str) → List BackendDetection
detected_ollama none = []
detected_ollama (some models) =
    record {
      label = str "Ollama";
      kind = str "ollama";
      url = str "http://127.0.0.1:11434";
      models = models;
    }
    ∷ []

unfoldable pub detected_lm_studio : Option (List Str) → List BackendDetection
detected_lm_studio none = []
detected_lm_studio (some models) =
    record {
      label = str "LM Studio";
      kind = str "openai";
      url = str "http://127.0.0.1:1234";
      models = models;
    }
    ∷ []

unfoldable pub detect_backends : Option (List Str) → Option (List Str) → List BackendDetection
detect_backends ollama lm_studio = detected_ollama ollama ++ detected_lm_studio lm_studio

-- The names of a server's list of models that are not blank.
unfoldable pub listed_models : List Str → List Str
listed_models names = keep_trimmed names

-- The first detected backend with the label, or Ollama.
unfoldable pub labelled : List BackendDetection → Str → BackendDetection
labelled detected label = elim (find (λ d. str_eq d.label label) detected) [
  | none ↦ manual_backend (str "Ollama")
  | some d ↦ d
]

unfoldable pub select_backend : List BackendDetection → List Str → BackendDetection × List Str
select_backend [] input = prompt_manual_backend input
select_backend (d ∷ ds) input =
    let (chosen, rest) =
      prompt_choice input (map (λ e. e.label) (d ∷ ds) ++ (str "Manual" ∷ [])) d.label in
    if str_eq chosen (str "Manual")
    then prompt_manual_backend rest
    else (labelled (d ∷ ds) chosen, rest)

-- The models to expose, from the default list on.
unfoldable pub choose_models : List Str → List Str → List Str × List Str
choose_models models_default input =
    let (expose_all, after_yes_no) =
      if no_items models_default then (false, input) else prompt_yes_no input true in
    let (line, rest) = prompt_default after_yes_no (join_csv models_default) in
    if expose_all
    then (models_default, after_yes_no)
    else (fill_list (split_csv line) models_default, rest)

module _ {F : Type 0} where
  unfoldable pub configure_provider_backend :
      Config F → List BackendDetection → List Str → Config F × List Str
  configure_provider_backend cfg detected input =
      let (selected, a) = select_backend detected input in
      let (url, b) = prompt_default a selected.url in
      let (models, rest) = choose_models (fill_list selected.models cfg.models) b in
      (record cfg { backend_kind = selected.kind; backend_url = url; models = models }, rest)

  unfoldable pub ask_client : Config F → List Str → Config F × List Str
  ask_client cfg input =
      let (name, rest) = prompt_default input cfg.client_name in
      if asks cfg.mode then (record cfg { client_name = name }, rest) else (cfg, input)

  unfoldable pub ask_provider : Config F → List BackendDetection → List Str → Config F × List Str
  ask_provider cfg detected input =
      let (name, rest) = prompt_default input cfg.provider_name in
      if serves cfg.mode
      then configure_provider_backend (record cfg { provider_name = name }) detected rest
      else (cfg, input)

  -- runSetupWizard, with the default configuration as an argument.
  unfoldable pub run_setup_wizard :
      Config F → Config F → List BackendDetection → List Str → Config F × List Str
  run_setup_wizard def cfg detected input =
      let (mode, a) =
        prompt_choice input (str "client" ∷ str "provider" ∷ str "both" ∷ []) cfg.mode in
      let (with_client, b) = ask_client (record cfg { transport = str "libp2p"; mode = mode }) a in
      let (with_provider, rest) = ask_provider with_client detected b in
      (
        record with_provider {
          libp2p_bootstrap = fill_list with_provider.libp2p_bootstrap def.libp2p_bootstrap;
          libp2p_rendezvous = fill_blank with_provider.libp2p_rendezvous def.libp2p_rendezvous;
          libp2p_auto_relay = true;
          libp2p_nat_port_map = true;
          libp2p_hole_punching = true;
        },
        rest,
      )
