-- ===== src/Cli/Order.antt =====
-- betterProvider orders the providers whose reliability is a number.
use gpuswarm.Common.{
  Bool, true, false, not, ◌&&◌, str_lt, str_lt-asym, str_lt-neg_trans, if◌then◌else◌, ◌≡◌, refl,
  arith, Bool-cases, inl, inr,
}
use gpuswarm.Common.Int.{ℤ, ltb_ℤ, eqb_ℤ}
use gpuswarm.Common.Floats.{Float64}
use gpuswarm.Common.Sorting.{StrictWeak}
use gpuswarm.Model.{CapabilityDocument}
use gpuswarm.Cli.{better_provider}

-- A comparison by `l`, and by `r` where `l` finds two equal.
lex : Bool → Bool → Bool → Bool
lex e l r = if not e then l else r

-- `lab` says whether a is less than b, and `eab` whether neither is less.
lex-neg_trans :
    (lab lba lbc lcb lac lca eab ebc eac rab rbc rac : Bool)
    → eab ≡ (not lab && not lba)
    → ebc ≡ (not lbc && not lcb)
    → eac ≡ (not lac && not lca)
    → (lab ≡ false → lbc ≡ false → lac ≡ false)
    → (lbc ≡ false → lca ≡ false → lba ≡ false)
    → (lca ≡ false → lab ≡ false → lcb ≡ false)
    → (rab ≡ false → rbc ≡ false → rac ≡ false)
    → lex eab lab rab ≡ false
    → lex ebc lbc rbc ≡ false
    → lex eac lac rac ≡ false
unfolding lex
lex-neg_trans lab lba lbc lcb lac lca eab ebc eac rab rbc rac x y z h k j r p q = ground arith

eqb-ltb : (m n : ℤ) → eqb_ℤ m n ≡ (not (ltb_ℤ m n) && not (ltb_ℤ n m))
eqb-ltb m n = ground arith

ltb-neg_trans : (k m n : ℤ) → ltb_ℤ k m ≡ false → ltb_ℤ m n ≡ false → ltb_ℤ k n ≡ false
ltb-neg_trans k m n h j = ground arith

int-neg_trans :
    (k m n : ℤ) (rab rbc rac : Bool)
    → (rab ≡ false → rbc ≡ false → rac ≡ false)
    → lex (eqb_ℤ k m) (ltb_ℤ k m) rab ≡ false
    → lex (eqb_ℤ m n) (ltb_ℤ m n) rbc ≡ false
    → lex (eqb_ℤ k n) (ltb_ℤ k n) rac ≡ false
int-neg_trans k m n rab rbc rac r =
    lex-neg_trans (ltb_ℤ k m) (ltb_ℤ m k) (ltb_ℤ m n) (ltb_ℤ n m) (ltb_ℤ k n) (ltb_ℤ n k) _ _ _ rab
      rbc rac (eqb-ltb k m) (eqb-ltb m n) (eqb-ltb k n) (ltb-neg_trans k m n) (ltb-neg_trans m n k)
      (ltb-neg_trans n k m) r

module _ (fl : Float64) where
  open fl use {F, lt, eq}

  -- The reliability is a number.
  abbrev pub Rated : CapabilityDocument F → Type 0
  Rated p = eq p.reliability p.reliability ≡ true

  by_latency : CapabilityDocument F → CapabilityDocument F → Bool
  by_latency a b =
      lex (eqb_ℤ a.avg_latency_ms b.avg_latency_ms) (ltb_ℤ a.avg_latency_ms b.avg_latency_ms)
        (str_lt a.peer_id b.peer_id)

  by_queue : CapabilityDocument F → CapabilityDocument F → Bool
  by_queue a b =
      lex (eqb_ℤ a.queue_depth b.queue_depth) (ltb_ℤ a.queue_depth b.queue_depth) (by_latency a b)

  better-lex :
      (a b : CapabilityDocument F)
      → better_provider fl a b
        ≡ lex (eq a.reliability b.reliability) (lt b.reliability a.reliability) (by_queue a b)
  unfolding better_provider by_queue by_latency lex
  better-lex a b = refl

  eq_swapped :
      (a b : CapabilityDocument F)
      → Rated a
      → Rated b
      → eq a.reliability b.reliability
        ≡ (not (lt b.reliability a.reliability) && not (lt a.reliability b.reliability))
  eq_swapped a b p q = ground (arith, fl.eq_not_lt a.reliability b.reliability p q)

  pub better_provider-neg_trans :
      (a b c : CapabilityDocument F)
      → Rated a
      → Rated b
      → Rated c
      → better_provider fl a b ≡ false
      → better_provider fl b c ≡ false
      → better_provider fl a c ≡ false
  unfolding by_queue by_latency
  better_provider-neg_trans a b c p q r =
      let down : (x y z : CapabilityDocument F)
          → Rated y
          → lt y.reliability x.reliability ≡ false
          → lt z.reliability y.reliability ≡ false
          → lt z.reliability x.reliability ≡ false =
        λ x y z s h k. fl.lt_neg_trans z.reliability y.reliability x.reliability s k h in
      rw (better-lex a b, better-lex b c, better-lex a c)
        (lex-neg_trans (lt b.reliability a.reliability) (lt a.reliability b.reliability)
          (lt c.reliability b.reliability) (lt b.reliability c.reliability)
          (lt c.reliability a.reliability) (lt a.reliability c.reliability) _ _ _ _ _ _
          (eq_swapped a b p q) (eq_swapped b c q r) (eq_swapped a c p r) (down a b c q)
          (down b c a r) (down c a b p)
          (int-neg_trans a.queue_depth b.queue_depth c.queue_depth _ _ _ (
            int-neg_trans a.avg_latency_ms b.avg_latency_ms c.avg_latency_ms _ _ _
              (str_lt-neg_trans a.peer_id b.peer_id c.peer_id))))

  pub better_provider-StrictWeak : StrictWeak Rated (better_provider fl)
  unfolding better_provider
  better_provider-StrictWeak = record {
    asym = λ a b p q. ground (
      arith,
      fl.eq_not_lt a.reliability b.reliability,
      fl.eq_not_lt b.reliability a.reliability,
      fl.lt_asym a.reliability b.reliability,
      fl.lt_asym b.reliability a.reliability,
      str_lt-asym a.peer_id b.peer_id,
    );
    neg_trans = better_provider-neg_trans;
  }

  pub better_irrefl : (p : CapabilityDocument F) → Rated p → better_provider fl p p ≡ false
  better_irrefl p r = elim (Bool-cases (better_provider fl p p)) [
    | inl e ↦ better_provider-StrictWeak.asym p p r r e
    | inr e ↦ e
  ]
