-- ===== src/Examples/Command.antt =====
-- A configuration, a list of flags, the wizard and the chat on small inputs.
use mathlib.Core.List.{Mem}
use gpuswarm.Common.{
  none, some, any, ◌≡◌, ◌⊎◌, true, false, Str, str, str_eq, is_empty, trim_space, to_lower, [], ◌∷◌,
  ◌++◌, refl, ok, All,
}
use gpuswarm.Common.Floats.{thousandths}
use gpuswarm.Common.Maps.{in_order}
use gpuswarm.Common.Sorting.{insertion}
use gpuswarm.Model.{CapabilityDocument, ModelSpec}
use gpuswarm.Config.{
  Config, default_config, resolve_and_validate, filled, valid_mode, valid_policy, normal, fill,
  fill_blank, checked, valid_transport, serves, asks,
}
use gpuswarm.Config.Resolved.{resolve_idem}
use gpuswarm.Cmd.Wizard.{run_setup_wizard}
use gpuswarm.Cmd.Setup.{wizard_resolves}
use gpuswarm.Cli.{ModelChoice, better_provider, best_provider_for_model}
use gpuswarm.Cli.Selection.{build_model_choices}
use gpuswarm.Cli.Groups.{has_provider}
use gpuswarm.Cli.Choices.{Provides}
use gpuswarm.Cli.Complete.{offers, models_listed}
use gpuswarm.Cli.Order.{Rated}
use gpuswarm.Cli.Best.{best_provider_best}
use gpuswarm.Cli.Pinned.{Requests}
use gpuswarm.Examples.{slow, fast}

abbrev in_home : Str → Str
in_home name = str "/home/" ++ name

abbrev pub defaults : Config thousandths.F
defaults = default_config thousandths (str "host") in_home

default_mode : valid_mode defaults.mode ≡ true
unfolding default_config valid_mode str_eq
default_mode = refl

default_policy :
    valid_policy (normal (fill_blank defaults.routing_policy defaults.routing_policy)) ≡ true
unfolding default_config valid_policy normal fill_blank is_empty trim_space to_lower str_eq
default_policy = refl

default_backend : is_empty defaults.backend_url ≡ false
unfolding default_config is_empty
default_backend = refl

wizard_resolves_example :
    (d : Config thousandths.F) × (resolve_and_validate thousandths defaults
        (run_setup_wizard defaults defaults [] (str "2" ∷ str "box" ∷ [])).0
      ≡ ok d)
wizard_resolves_example =
    wizard_resolves thousandths defaults defaults [] (str "2" ∷ str "box" ∷ []) default_mode
      default_policy default_backend

abbrev pub resolved : Config thousandths.F
resolved = filled thousandths defaults defaults (str "both") (str "libp2p")

pub defaults_resolve : resolve_and_validate thousandths defaults defaults ≡ ok resolved
unfolding default_config resolve_and_validate filled checked valid_mode valid_transport valid_policy
    normal fill fill_blank is_empty trim_space to_lower str_eq serves asks
defaults_resolve = refl

resolve_idem_example : resolve_and_validate thousandths defaults resolved ≡ ok resolved
resolve_idem_example = resolve_idem thousandths defaults defaults resolved defaults_resolve

models_listed_example :
    All
      (λ c. has_provider thousandths c.providers ≡ true)
      (build_model_choices thousandths insertion in_order (slow ∷ fast ∷ []))
    × All
        (λ c. All (Provides thousandths c.name) c.providers)
        (build_model_choices thousandths insertion in_order (slow ∷ fast ∷ []))
    × ((p : CapabilityDocument thousandths.F) (s : ModelSpec)
        → Mem p (slow ∷ fast ∷ [])
        → p.is_self ≡ false
        → Mem s p.models
        → is_empty (trim_space s.name) ≡ false
        → any
            (offers thousandths (trim_space s.name) p.peer_id)
            (build_model_choices thousandths insertion in_order (slow ∷ fast ∷ []))
          ≡ true)
models_listed_example = models_listed thousandths insertion in_order (slow ∷ fast ∷ [])

both-Rated : All (Rated thousandths) (slow ∷ fast ∷ [])
unfolding thousandths
both-Rated = (refl, (refl, tt))

best_provider_best_example :
    ((slow ∷ fast ∷ [] ≡ []) × (best_provider_for_model thousandths (slow ∷ fast ∷ []) ≡ none))
    ⊎ ((best : CapabilityDocument thousandths.F) × ((best_provider_for_model thousandths
              (slow ∷ fast ∷ [])
            ≡ some best)
          × (Mem best (slow ∷ fast ∷ [])
              × All (λ p. better_provider thousandths p best ≡ false) (slow ∷ fast ∷ []))))
best_provider_best_example = best_provider_best thousandths (slow ∷ fast ∷ []) both-Rated

abbrev pub requests : Requests
requests = record { put_routing = λ policy. none; post_select = λ id. ok id }

abbrev llama3 : ModelChoice thousandths.F
llama3 = record { name = str "llama3"; providers = slow ∷ (fast ∷ []) }
