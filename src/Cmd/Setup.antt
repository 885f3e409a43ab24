-- ===== src/Cmd/Setup.antt =====
-- What the setup wizard leaves, whatever is typed.
use mathlib.Core.List.{Mem, mem-cons_self, mem-cons_of_mem, eq-or-mem_of_mem-cons, not-mem-nil}
use mathlib.Core.Logic.Or
use gpuswarm.Common.Members.{true-prop}
use gpuswarm.Common.{
  ℕ, zero, suc, ◌-◌, Bool, true, false, ◌&&◌, Option, none, some, Str, str, str_eq, is_empty,
  equal_fold, List, [], ◌∷◌, find, get_elem?, length, ok, ◌≡◌, refl, ap, ◌∙◌, ◌⊎◌, inl, inr, arith,
  Bool-cases, Option-cases,
}
use gpuswarm.Common.Int.{ℤ, pos, leb_ℤ, pos_part}
use gpuswarm.Common.Numbers.{atoi}
use gpuswarm.Common.Floats.{Float64}
use gpuswarm.Config.{
  Config, fill, fill_blank, normal, valid_mode, valid_transport, valid_policy, filled, checked,
  resolve_and_validate, serves,
}
use gpuswarm.Config.Resolved.{mode_settled, transport_settled}
use gpuswarm.Cmd.Wizard.{
  BackendDetection, numbered, chosen_option, prompt_choice, ask_client, ask_provider,
  configure_provider_backend, run_setup_wizard, read_line,
}

find-Mem : (t : Str → Bool) (xs : List Str) (x : Str) → find t xs ≡ some x → Mem x xs
find-Mem t [] x h = cc
find-Mem t (y ∷ ys) x h = elim (Bool-cases (t y)) [
  | inl e ↦ let q : y ≡ x = ground arith in rw q mem-cons_self
  | inr e ↦ mem-cons_of_mem y (find-Mem t ys x (rw e at h))
]

get_elem?-Mem : (xs : List Str) (i : ℕ) (x : Str) → get_elem? xs i ≡ some x → Mem x xs
get_elem?-Mem [] i x h = cc
get_elem?-Mem (y ∷ ys) zero x h = let q : y ≡ x = ground arith in rw q mem-cons_self
get_elem?-Mem (y ∷ ys) (suc i) x h = mem-cons_of_mem y (get_elem?-Mem ys i x h)

picked-Mem :
    (options : List Str) (i : ℕ) (d : Str)
    → let r = elim (get_elem? options i) as (λ _. Str) [ none ↦ d | some o ↦ o ] in
      (r ≡ d) ⊎ Mem r options
picked-Mem options i d = elim (Option-cases (get_elem? options i)) [
  | inl e ↦ rw e (inl refl)
  | inr (o, e) ↦ rw e (inr (get_elem?-Mem options i o e))
]

numbered-Mem :
    (options : List Str) (n : Option ℤ) (d : Str)
    → (numbered options n d ≡ d) ⊎ Mem (numbered options n d) options
unfolding numbered
numbered-Mem options none d = inl refl
numbered-Mem options (some i) d =
    elim (Bool-cases (leb_ℤ (pos 1) i && leb_ℤ i (pos (length options)))) [
      | inl e ↦ rw e (picked-Mem options (pos_part i - 1) d)
      | inr e ↦ rw e (inl refl)
    ]

found-Mem :
    (options : List Str) (d line : Str) (o : Option Str)
    → find (equal_fold line) options ≡ o
    → let r = elim o as (λ _. Str) [ some x ↦ x | none ↦ numbered options (atoi line) d ] in
      (r ≡ d) ⊎ Mem r options
found-Mem options d line none e = numbered-Mem options (atoi line) d
found-Mem options d line (some x) e = inr (find-Mem (equal_fold line) options x e)

-- Whatever is typed, a prompt answers with its default or with one of its options.
pub prompt_choice-Mem :
    (input options : List Str) (d : Str)
    → ((prompt_choice input options d).0 ≡ d) ⊎ Mem (prompt_choice input options d).0 options
unfolding prompt_choice chosen_option
prompt_choice-Mem input options d = elim (Bool-cases (is_empty (read_line input).0)) [
  | inl e ↦ rw e (inl refl)
  | inr e ↦ rw e (found-Mem options d (read_line input).0 _ refl)
]

module _ (fl : Float64) where
  open fl use {F}

  -- The fields that no question after the mode's touches.
  record Same (c d : Config F) : Type 0 where
    mode : d.mode ≡ c.mode
    transport : d.transport ≡ c.transport
    policy : d.routing_policy ≡ c.routing_policy

  ask_client-Same : (c : Config F) (input : List Str) → Same c (ask_client c input).0
  unfolding ask_client
  ask_client-Same c input = ground arith

  ask_provider-Same :
      (c : Config F) (detected : List BackendDetection) (input : List Str)
      → Same c (ask_provider c detected input).0
  unfolding ask_provider configure_provider_backend
  ask_provider-Same c detected input = elim (Bool-cases (serves c.mode)) [
    | inl e ↦ rw e (record { mode = refl; transport = refl; policy = refl })
    | inr e ↦ rw e (record { mode = refl; transport = refl; policy = refl })
  ]

  mode_option-valid :
      (m : Str) → Mem m (str "client" ∷ str "provider" ∷ str "both" ∷ []) → valid_mode m ≡ true
  unfolding valid_mode str_eq
  mode_option-valid m h =
      Or.elim (true-prop _ _) (eq-or-mem_of_mem-cons h) (λ e. rw e refl)
        (λ h1.
          Or.elim (true-prop _ _) (eq-or-mem_of_mem-cons h1) (λ e. rw e refl)
            (λ h2.
              Or.elim (true-prop _ _) (eq-or-mem_of_mem-cons h2) (λ e. rw e refl)
                (λ h3. absurd (not-mem-nil h3))))

  chosen_mode-valid :
      (input : List Str) (d : Str)
      → valid_mode d ≡ true
      → valid_mode (prompt_choice input (str "client" ∷ str "provider" ∷ str "both" ∷ []) d).0
        ≡ true
  chosen_mode-valid input d h =
      elim (prompt_choice-Mem input (str "client" ∷ str "provider" ∷ str "both" ∷ []) d) [
        | inl e ↦ ap valid_mode e ∙ h
        | inr m ↦ mode_option-valid _ m
      ]

  -- What the wizard has made sure of.
  record Ready (cfg c : Config F) : Type 0 where
    mode : valid_mode c.mode ≡ true
    transport : c.transport ≡ str "libp2p"
    policy : c.routing_policy ≡ cfg.routing_policy

  wizard-Ready :
      (def cfg : Config F) (detected : List BackendDetection) (input : List Str)
      → valid_mode cfg.mode ≡ true
      → Ready cfg (run_setup_wizard def cfg detected input).0
  unfolding run_setup_wizard
  wizard-Ready def cfg detected input h =
      let (mode, a) =
        prompt_choice input (str "client" ∷ str "provider" ∷ str "both" ∷ []) cfg.mode in
      let c0 : Config F = record cfg { transport = str "libp2p"; mode = mode } in
      let one = ask_client-Same c0 a in
      let (c1, b) = ask_client c0 a in
      let two = ask_provider-Same c1 detected b in
      record {
        mode = ap valid_mode (two.mode ∙ one.mode) ∙ chosen_mode-valid input cfg.mode h;
        transport = two.transport ∙ one.transport;
        policy = two.policy ∙ one.policy;
      }

  fill_backend : (x d : Str) → is_empty d ≡ false → is_empty (fill x d) ≡ false
  unfolding fill
  fill_backend x d h = ground arith

  libp2p_settled : (d : Str) → fill (normal (str "libp2p")) d ≡ str "libp2p"
  unfolding valid_transport str_eq
  libp2p_settled d = transport_settled (str "libp2p") d refl

  resolves_with :
      (def c : Config F)
      → fill (normal c.mode) def.mode ≡ c.mode
      → fill (normal c.transport) def.transport ≡ str "libp2p"
      → valid_mode c.mode ≡ true
      → valid_policy (normal (fill_blank c.routing_policy def.routing_policy)) ≡ true
      → is_empty (fill c.backend_url def.backend_url) ≡ false
      → resolve_and_validate fl def c ≡ ok (filled fl def c c.mode (str "libp2p"))
  unfolding resolve_and_validate filled checked valid_transport str_eq
  resolves_with def c m t v p b = rw (m, t, v, p, b) (ground arith)

  Ready-resolves :
      (def cfg c : Config F)
      → Ready cfg c
      → valid_policy (normal (fill_blank cfg.routing_policy def.routing_policy)) ≡ true
      → is_empty def.backend_url ≡ false
      → (d : Config F) × (resolve_and_validate fl def c ≡ ok d)
  Ready-resolves def cfg c r p b = (
    filled fl def c c.mode (str "libp2p"),
    resolves_with def c (mode_settled c.mode def.mode r.mode)
        (ap (λ t. fill (normal t) def.transport) r.transport ∙ libp2p_settled def.transport) r.mode
        (ap (λ x. valid_policy (normal (fill_blank x def.routing_policy))) r.policy ∙ p)
        (fill_backend c.backend_url def.backend_url b),
  )

  -- Whatever is typed into the wizard, and whatever backends were detected, the configuration that it
  -- leaves passes ResolveAndValidate, if the mode and the routing policy were valid before and the
  -- default names a backend.
  pub wizard_resolves :
      (def cfg : Config F) (detected : List BackendDetection) (input : List Str)
      → valid_mode cfg.mode ≡ true
      → valid_policy (normal (fill_blank cfg.routing_policy def.routing_policy)) ≡ true
      → is_empty def.backend_url ≡ false
      → (d : Config F) × (resolve_and_validate fl def (run_setup_wizard def cfg detected input).0
          ≡ ok d)
  wizard_resolves def cfg detected input m p b =
      Ready-resolves def cfg _ (wizard-Ready def cfg detected input m) p b
