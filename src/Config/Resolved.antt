-- ===== src/Config/Resolved.antt =====
-- What a configuration that passes ResolveAndValidate is like.
use gpuswarm.Common.{
  Bool, true, false, ◌&&◌, not, Str, str, str_eq, str_eq_iff, is_empty, trim_space, to_lower, List,
  if◌then◌else◌, ok, ◌≡◌, refl, sym, ap, subst, ◌∙◌, arith, inl, inr, ◌⊎◌,
}
use gpuswarm.Common.Int.{ℤ, pos, eqb_ℤ}
use gpuswarm.Common.Floats.{Float64}
use gpuswarm.Config.{
  Config, fill, fill_blank, fill_int, fill_list, fill_float, no_items, valid_mode, valid_transport,
  valid_policy, normal, serves, asks, filled, checked, resolve_and_validate,
}

fill_idem : (x d : Str) → fill (fill x d) d ≡ fill x d
unfolding fill
fill_idem x d = ground arith

fill_blank_idem : (x d : Str) → fill_blank (fill_blank x d) d ≡ fill_blank x d
unfolding fill_blank
fill_blank_idem x d = ground arith

fill_int_idem : (x d : ℤ) → fill_int (fill_int x d) d ≡ fill_int x d
unfolding fill_int
fill_int_idem x d = ground arith

fill_list_idem : (x d : List Str) → fill_list (fill_list x d) d ≡ fill_list x d
unfolding fill_list
fill_list_idem x d = ground arith

valid_policy-cases :
    (p : Str)
    → valid_policy p ≡ true
    → (p ≡ str "auto")
      ⊎ (p ≡ str "prefer_known")
      ⊎ (p ≡ str "prefer_favorites")
      ⊎ (p ≡ str "manual")
unfolding valid_policy
valid_policy-cases p h = ground (
  arith,
  str_eq_iff p (str "auto"),
  str_eq_iff p (str "prefer_known"),
  str_eq_iff p (str "prefer_favorites"),
  str_eq_iff p (str "manual"),
)

pub valid_mode-cases :
    (m : Str) → valid_mode m ≡ true → (m ≡ str "client") ⊎ (m ≡ str "provider") ⊎ (m ≡ str "both")
unfolding valid_mode
valid_mode-cases m h =
    ground
      (arith, str_eq_iff m (str "client"), str_eq_iff m (str "provider"), str_eq_iff m (str "both"))

valid_transport-cases : (t : Str) → valid_transport t ≡ true → (t ≡ str "http") ⊎ (t ≡ str "libp2p")
unfolding valid_transport
valid_transport-cases t h = ground (arith, str_eq_iff t (str "http"), str_eq_iff t (str "libp2p"))

-- A valid word is not empty, and is already in its normal form.
pub mode_settled : (m d : Str) → valid_mode m ≡ true → fill (normal m) d ≡ m
unfolding fill normal trim_space to_lower is_empty
mode_settled m d h = elim (valid_mode-cases m h) [
  | inl e ↦ rw e refl
  | inr (inl e) ↦ rw e refl
  | inr (inr e) ↦ rw e refl
]

pub transport_settled : (t d : Str) → valid_transport t ≡ true → fill (normal t) d ≡ t
unfolding fill normal trim_space to_lower is_empty
transport_settled t d h = elim (valid_transport-cases t h) [ inl e ↦ rw e refl | inr e ↦ rw e refl ]

policy_settled : (p d : Str) → valid_policy p ≡ true → normal (fill_blank p d) ≡ p
unfolding fill_blank normal trim_space to_lower is_empty
policy_settled p d h = elim (valid_policy-cases p h) [
  | inl e ↦ rw e refl
  | inr (inl e) ↦ rw e refl
  | inr (inr (inl e)) ↦ rw e refl
  | inr (inr (inr e)) ↦ rw e refl
]

module _ (fl : Float64) where
  open fl use {F, eq, milli}

  fill_float_idem : (x d : F) → fill_float fl (fill_float fl x d) d ≡ fill_float fl x d
  unfolding fill_float
  fill_float_idem x d = ground arith

  -- What ResolveAndValidate requires of a configuration.
  pub record Usable (c : Config F) : Type 0 where
    pub mode : valid_mode c.mode ≡ true
    pub transport : valid_transport c.transport ≡ true
    pub policy : valid_policy c.routing_policy ≡ true
    pub backend : serves c.mode ≡ true → is_empty c.backend_url ≡ false
    pub peers :
        c.transport ≡ str "http"
        → asks c.mode ≡ true
        → (no_items c.provider_peer_urls ≡ false) ⊎ (c.lan_discovery ≡ true)

  checked-ok :
      (c d : Config F)
      → checked fl c ≡ ok d
      → (d ≡ c)
        × (serves c.mode && is_empty c.backend_url ≡ false)
        × (str_eq c.transport (str "http")
              && asks c.mode
              && no_items c.provider_peer_urls
              && not c.lan_discovery
            ≡ false)
  unfolding checked
  checked-ok c d h = ground arith

  checked-Usable :
      (c d : Config F)
      → valid_mode c.mode ≡ true
      → valid_transport c.transport ≡ true
      → valid_policy c.routing_policy ≡ true
      → checked fl c ≡ ok d
      → Usable c
  unfolding checked
  checked-Usable c d m t p h = record {
    mode = m;
    transport = t;
    policy = p;
    backend = λ s. ground arith;
    peers = λ e a. let k = (str_eq_iff c.transport (str "http")).1 e in ground arith;
  }

  start_idem :
      (a b x y : ℤ)
      → let both = eqb_ℤ a (pos 0) && eqb_ℤ b (pos 0) in
        let a' = if both then x else a in
        let b' = if both then y else b in
        (if eqb_ℤ a' (pos 0) && eqb_ℤ b' (pos 0) then x else a') ≡ a'
  start_idem a b x y = ground arith

  end_idem :
      (a b x y : ℤ)
      → let both = eqb_ℤ a (pos 0) && eqb_ℤ b (pos 0) in
        let a' = if both then x else a in
        let b' = if both then y else b in
        (if eqb_ℤ a' (pos 0) && eqb_ℤ b' (pos 0) then y else b') ≡ b'
  end_idem a b x y = ground arith

  bootstrap_idem :
      (t : Bool) (x d : List Str)
      → (if t
          then fill_list (if t then fill_list x d else x) d
          else (if t then fill_list x d else x))
        ≡ (if t then fill_list x d else x)
  bootstrap_idem true x d = fill_list_idem x d
  bootstrap_idem false x d = refl

  filled_idem :
      (def cfg : Config F) (mode transport : Str)
      → valid_policy (filled fl def cfg mode transport).routing_policy ≡ true
      → filled fl def (filled fl def cfg mode transport) mode transport
        ≡ filled fl def cfg mode transport
  unfolding filled
  filled_idem def cfg mode transport p = simp (
    fill_idem,
    fill_blank_idem,
    fill_int_idem,
    fill_float_idem,
    fill_list_idem,
    bootstrap_idem,
    policy_settled _ def.routing_policy p,
    start_idem cfg.night_start_hour cfg.night_end_hour def.night_start_hour def.night_end_hour,
    end_idem cfg.night_start_hour cfg.night_end_hour def.night_start_hour def.night_end_hour,
  )

  -- What ResolveAndValidate has established when it succeeds.
  record Passed (def cfg c : Config F) : Type 0 where
    shape : c ≡ filled fl def cfg c.mode c.transport
    mode : valid_mode c.mode ≡ true
    transport : valid_transport c.transport ≡ true
    policy : valid_policy c.routing_policy ≡ true
    checks : checked fl c ≡ ok c

  filled-Passed :
      (def cfg c : Config F) (mode transport : Str)
      → valid_mode mode ≡ true
      → valid_transport transport ≡ true
      → valid_policy (filled fl def cfg mode transport).routing_policy ≡ true
      → checked fl (filled fl def cfg mode transport) ≡ ok c
      → Passed def cfg c
  filled-Passed def cfg c mode transport m t p h =
      let same : c ≡ filled fl def cfg mode transport = (checked-ok _ c h).0 in
      subst (Passed def cfg) (sym same) (record {
        shape = unfold filled in refl;
        mode = unfold filled in m;
        transport = unfold filled in t;
        policy = p;
        checks = h ∙ ap ok same;
      })

  resolve-Passed :
      (def cfg c : Config F) → resolve_and_validate fl def cfg ≡ ok c → Passed def cfg c
  unfolding resolve_and_validate
  resolve-Passed def cfg c h =
      filled-Passed def cfg c (fill (normal cfg.mode) def.mode)
        (fill (normal cfg.transport) def.transport) (ground arith) (ground arith) (ground arith)
        (ground arith)

  -- A configuration that ResolveAndValidate returns has a known mode, transport and routing policy,
  -- names a backend if it serves, and peers or LAN discovery if it asks over HTTP; whatever was
  -- given, and whatever the defaults are.
  pub resolve-Usable : (def cfg c : Config F) → resolve_and_validate fl def cfg ≡ ok c → Usable c
  resolve-Usable def cfg c h =
      let q = resolve-Passed def cfg c h in checked-Usable c c q.mode q.transport q.policy q.checks

  -- To resolve a resolved configuration again, as happens to one that was saved, changes nothing.
  pub resolve_idem :
      (def cfg c : Config F)
      → resolve_and_validate fl def cfg ≡ ok c
      → resolve_and_validate fl def c ≡ ok c
  unfolding resolve_and_validate
  resolve_idem def cfg c h =
      let q = resolve-Passed def cfg c h in
      let settled : filled fl def c c.mode c.transport ≡ c =
        subst (λ d. filled fl def d c.mode c.transport ≡ d) (sym q.shape)
          (filled_idem def cfg c.mode c.transport
            (ap (λ d. valid_policy d.routing_policy) (sym q.shape) ∙ q.policy)) in
      rw
        (
          mode_settled c.mode def.mode q.mode,
          transport_settled c.transport def.transport q.transport,
          settled,
          q.mode,
          q.transport,
          q.policy,
        )
        q.checks
