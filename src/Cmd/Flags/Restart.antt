-- ===== src/Cmd/Flags/Restart.antt =====
-- A node that is started again.
use gpuswarm.Common.{
  Bool, true, false, ◌⊎◌, inl, inr, Option, none, some, Str, List, All, Result, ok, ◌≡◌, refl,
}
use gpuswarm.Common.Floats.{Float64}
use gpuswarm.Config.{Config, resolve_and_validate}
use gpuswarm.Common.Files.{FileSystem}
use gpuswarm.Config.File.{Format, format_of, save, saved_config, saved_config-save}
use gpuswarm.Config.Resolved.{resolve_idem}
use gpuswarm.Cmd.{should_run_setup_wizard}
use gpuswarm.Cmd.Lists.{PlainItem, split_csv-join_csv}
use gpuswarm.Cmd.Wizard.{BackendDetection, prompt_yes_no}
use gpuswarm.Cmd.Flags.{
  Given, given_or, text_flag, int_flag, float_flag, bool_flag, list_flag, with_flags, daemon_args,
  config_path, start_config, resolve_start, resolved_or_invalid, runtime_config,
}

-- No flag is given.
abbrev pub no_flags : {F : Type 0} → Given F
no_flags = record {
  texts = λ name. none;
  ints = λ name. none;
  floats = λ name. none;
  bools = λ name. none;
}

-- The flags can hold the items of every list of a configuration.
pub record PlainLists {F : Type 0} (c : Config F) : Type 0 where
  pub provider_peer_urls : All PlainItem c.provider_peer_urls
  pub models : All PlainItem c.models
  pub model_specs : All PlainItem c.model_specs
  pub favorite_peers : All PlainItem c.favorite_peers
  pub blocked_peers : All PlainItem c.blocked_peers
  pub allowed_peers : All PlainItem c.allowed_peers
  pub libp2p_listen_addrs : All PlainItem c.libp2p_listen_addrs
  pub libp2p_bootstrap : All PlainItem c.libp2p_bootstrap

module _ {F : Type 0} where
  with_no_flags : (c : Config F) → PlainLists c → with_flags no_flags c ≡ c
  unfolding with_flags text_flag int_flag float_flag bool_flag list_flag given_or
  with_no_flags c p =
      rw
        (
          split_csv-join_csv c.provider_peer_urls p.provider_peer_urls,
          split_csv-join_csv c.models p.models,
          split_csv-join_csv c.model_specs p.model_specs,
          split_csv-join_csv c.favorite_peers p.favorite_peers,
          split_csv-join_csv c.blocked_peers p.blocked_peers,
          split_csv-join_csv c.allowed_peers p.allowed_peers,
          split_csv-join_csv c.libp2p_listen_addrs p.libp2p_listen_addrs,
          split_csv-join_csv c.libp2p_bootstrap p.libp2p_bootstrap,
        )
        refl

module _ (fl : Float64) where
  open fl use {F}

  kept_or_asked :
      (def c : Config F) (simple : Bool) (detected : List BackendDetection) (input : List Str)
      → (simple ≡ false) ⊎ ((prompt_yes_no input true).0 ≡ true)
      → start_config def (some (ok c)) simple detected input ≡ ok c
  unfolding start_config
  kept_or_asked def c simple detected input (inl e) = rw e refl
  kept_or_asked def c false detected input (inr e) = refl
  kept_or_asked def c true detected input (inr e) = rw e refl

  -- A node that finds the configuration which it resolved and saved runs with the same configuration
  -- again, if it is started without flags, if the wizard's question whether to use what is saved is not
  -- asked or is answered by yes, and if the flags can hold every item of the configuration's lists.
  pub restart_keeps :
      (def cfg c : Config F) (files : Str → Option (Result Str (Config F))) (default_path : Str)
      (interactive : Bool) (detected : List BackendDetection) (input args : List Str)
      → resolve_and_validate fl def cfg ≡ ok c
      → PlainLists c
      → files (config_path default_path (daemon_args args)) ≡ some (ok c)
      → (should_run_setup_wizard interactive (daemon_args args) ≡ false)
        ⊎ ((prompt_yes_no input true).0 ≡ true)
      → runtime_config fl def files default_path interactive detected input no_flags args ≡ ok c
  unfolding runtime_config resolve_start resolved_or_invalid
  restart_keeps def cfg c files default_path interactive detected input args h p f s =
      rw
        (
          f,
          kept_or_asked def c (should_run_setup_wizard interactive (daemon_args args)) detected
              input s,
          with_no_flags c p,
          resolve_idem fl def cfg c h,
        )
        refl

  -- What a node resolved and saved without an error is what it runs with when it is started again with
  -- the same path, without flags, if the wizard's question whether to use what is saved is not asked or
  -- is answered by yes, if what is written to the path is there and read, if the path's format reads
  -- back what it wrote of the configuration, and if the flags can hold every item of its lists.
  pub saved_restart :
      (fs : FileSystem) (json yaml : Format F) (def cfg c : Config F) (disk : fs.Disk)
      (default_path : Str) (interactive : Bool) (detected : List BackendDetection)
      (input args : List Str)
      → resolve_and_validate fl def cfg ≡ ok c
      → PlainLists c
      → ((d : fs.Disk) (text : Str)
          → (fs.write d (config_path default_path (daemon_args args)) text).1 ≡ none
          → (fs.read
                (fs.write d (config_path default_path (daemon_args args)) text).0
                (config_path default_path (daemon_args args))
              ≡ some text)
            × (fs.stat
                  (fs.write d (config_path default_path (daemon_args args)) text).0
                  (config_path default_path (daemon_args args))
                ≡ true))
      → ((text : Str)
          → (format_of fs json yaml (config_path default_path (daemon_args args))).marshal c
            ≡ ok text
          → (format_of fs json yaml (config_path default_path (daemon_args args))).unmarshal def
              text
            ≡ ok c)
      → (save fs json yaml disk (config_path default_path (daemon_args args)) c).1 ≡ none
      → (should_run_setup_wizard interactive (daemon_args args) ≡ false)
        ⊎ ((prompt_yes_no input true).0 ≡ true)
      → runtime_config fl def
          (saved_config fs json yaml def
            (save fs json yaml disk (config_path default_path (daemon_args args)) c).0)
          default_path
          interactive
          detected
          input
          no_flags
          args
        ≡ ok c
  saved_restart fs json yaml def cfg c disk default_path interactive detected input args h p reads
        back s w =
      restart_keeps def cfg c _ default_path interactive detected input args h p
        (saved_config-save fs json yaml def c disk (config_path default_path (daemon_args args))
          reads back s)
        w
