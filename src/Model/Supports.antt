-- ===== src/Model/Supports.antt =====
-- What SupportsRequirements and SupportsModel decide.
use gpuswarm.Common.{
  true, false, List, [], ◌∷◌, Str, ◌≡◌, refl, ◌↔◌, ◌⊎◌, inl, inr, str_eq_iff, is_empty, any, arith,
  Bool-cases,
}
use gpuswarm.Model.{
  ModelSpec, ModelRequirements, CapabilityDocument, requires, spec_satisfies, supports_requirements,
}

-- A requirement is met by an equal value, and by any value if it is empty.
abbrev pub Meets : Str → Str → Type 0
Meets wanted actual = (wanted ≡ []) ⊎ (actual ≡ wanted)

-- The spec answers the request, said without the order of the tests.
pub record Satisfies (model : Str) (r : ModelRequirements) (m : ModelSpec) : Type 0 where
  pub named : m.name ≡ model
  pub sha256 : Meets r.sha256 m.sha256
  pub tokenizer : Meets r.tokenizer m.tokenizer
  pub quant : Meets r.quant m.quant
  pub backend : Meets r.backend m.backend

requires-Meets : (w a : Str) → requires w a ≡ false → Meets w a
unfolding requires is_empty
requires-Meets [] a h = inl refl
requires-Meets (c ∷ w) a h = ground (arith, str_eq_iff a (c ∷ w))

Meets-requires : (w a : Str) → Meets w a → requires w a ≡ false
unfolding requires is_empty
Meets-requires [] a h = refl
Meets-requires (c ∷ w) a h = ground (arith, str_eq_iff a (c ∷ w))

spec_satisfies-Satisfies :
    (model : Str) (r : ModelRequirements) (m : ModelSpec)
    → spec_satisfies model r m ≡ true
    → Satisfies model r m
unfolding spec_satisfies
spec_satisfies-Satisfies model r m h = ground (
  arith,
  str_eq_iff m.name model,
  requires-Meets r.sha256 m.sha256,
  requires-Meets r.tokenizer m.tokenizer,
  requires-Meets r.quant m.quant,
  requires-Meets r.backend m.backend,
)

Satisfies-spec_satisfies :
    (model : Str) (r : ModelRequirements) (m : ModelSpec)
    → Satisfies model r m
    → spec_satisfies model r m ≡ true
unfolding spec_satisfies
Satisfies-spec_satisfies model r m h =
    rw
      (
        (str_eq_iff m.name model).1 h.named,
        Meets-requires r.sha256 m.sha256 h.sha256,
        Meets-requires r.tokenizer m.tokenizer h.tokenizer,
        Meets-requires r.quant m.quant h.quant,
        Meets-requires r.backend m.backend h.backend,
      )
      refl

-- Some entry of the list satisfies the request, with its place in the list.
pub data Offers (model : Str) (r : ModelRequirements) : List ModelSpec → Type 0 where
  here : {m : ModelSpec} {ms : List ModelSpec} → Satisfies model r m → Offers model r (m ∷ ms)
  there : {m : ModelSpec} {ms : List ModelSpec} → Offers model r ms → Offers model r (m ∷ ms)

any-Offers :
    (model : Str) (r : ModelRequirements) (ms : List ModelSpec)
    → any (spec_satisfies model r) ms ≡ true
    → Offers model r ms
any-Offers model r [] h = cc
any-Offers model r (m ∷ ms) h = elim (Bool-cases (spec_satisfies model r m)) [
  | inl e ↦ here (spec_satisfies-Satisfies model r m e)
  | inr e ↦ there (any-Offers model r ms (rw e at h))
]

Offers-any :
    (model : Str) (r : ModelRequirements) (ms : List ModelSpec)
    → Offers model r ms
    → any (spec_satisfies model r) ms ≡ true
Offers-any model r [] o = elim o [ ]
Offers-any model r (m ∷ ms) (here s) = rw (Satisfies-spec_satisfies model r m s) refl
Offers-any model r (m ∷ ms) (there o) = let k = Offers-any model r ms o in ground arith

-- A document supports a request exactly when one of its models has the requested name and meets
-- each requirement that is not empty.
pub supports_requirements_iff :
    {F : Type 0} (c : CapabilityDocument F) (model : Str) (r : ModelRequirements)
    → (supports_requirements c model r ≡ true) ↔ Offers model r c.models
unfolding supports_requirements
supports_requirements_iff c model r = (any-Offers model r c.models, Offers-any model r c.models)
