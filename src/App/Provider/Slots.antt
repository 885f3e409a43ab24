-- ===== src/App/Provider/Slots.antt =====
-- Requests of many goroutines, step by step: no slot is lost, and none is given twice.
use gpuswarm.Common.{
  ℕ, ◌+◌, none, some, Str, ◌≡◌, refl, sym, ap, ◌∙◌, arith, Option-cases, inl, inr, ◌⊎◌,
}
use gpuswarm.Common.Int.{ℤ, pos, negsuc, ◌+ℤ◌, wrap64, of_bits64, -ℤ_parts}
use gpuswarm.Common.Floats.{Float64}
use gpuswarm.Model.{ChatCompletionRequest, PeerContext}
use gpuswarm.Control.{Error}
use gpuswarm.Control.Limiter.{Limiter, acquire, release}
use gpuswarm.Control.Limiter.Bounds.{
  Slots, acquire_takes_slot, acquire_refused, acquire-Slots, release-Slots, release_slot_lem,
}
use gpuswarm.Control.Policy.{validate}
use gpuswarm.App.Provider.{
  ProviderService, Surroundings, admit, admit_valid, acquire_slot, count_up, count_down,
  release_slot, publish_depth, after_failure, after_success, penalize_client, reward_client,
  note_outcome, pay,
}

wrap64_up : (n : ℕ) → wrap64 (wrap64 (pos n) +ℤ pos 1) ≡ wrap64 (pos (n + 1))
unfolding wrap64 of_bits64 ◌+ℤ◌
wrap64_up n = ground arith

wrap64_down : (n : ℕ) → wrap64 (wrap64 (pos (n + 1)) +ℤ negsuc 0) ≡ wrap64 (pos n)
unfolding wrap64 of_bits64 ◌+ℤ◌
wrap64_down n = ground arith

-- The service, and the requests that hold a slot and are not counted yet, that are counted and hold
-- a slot, and that have given up their slot and are still counted.
pub record System (F : Type 0) : Type 0 where
  pub service : ProviderService F
  pub acquired : ℕ
  pub running : ℕ
  pub released : ℕ

module _ (fl : Float64) (hex_sha256 : Str → Str) where
  open fl use {F}

  -- One step of one request; the steps of different requests mix in any order.
  pub data Step (y : System F) : System F → Type 0 where
    admits :
        (req : ChatCompletionRequest) (peer : PeerContext) (w : Surroundings F)
        → (admit fl hex_sha256 y.service req peer w).1 ≡ none
        → Step y (record y {
          service = (admit fl hex_sha256 y.service req peer w).0;
          acquired = y.acquired + 1;
        })
    refuses :
        (req : ChatCompletionRequest) (peer : PeerContext) (w : Surroundings F) (e : Error)
        → (admit fl hex_sha256 y.service req peer w).1 ≡ some e
        → Step y (record y { service = (admit fl hex_sha256 y.service req peer w).0 })
    counts :
        (n : ℕ)
        → y.acquired ≡ n + 1
        → Step y
            (record y { service = count_up fl y.service; acquired = n; running = y.running + 1 })
    answers : (now : ℕ) → Step y (record y { service = publish_depth fl y.service now })
    releases :
        (n : ℕ)
        → y.running ≡ n + 1
        → Step y (record y {
          service = release_slot fl y.service;
          running = n;
          released = y.released + 1;
        })
    discounts :
        (n : ℕ)
        → y.released ≡ n + 1
        → Step y (record y { service = count_down fl y.service; released = n })
    fails :
        (peer : PeerContext) (elapsed : ℤ) (now : ℕ)
        → Step y (record y { service = after_failure fl y.service peer elapsed now })
    succeeds :
        (peer : PeerContext) (elapsed : ℤ) (now : ℕ)
        → Step y (record y { service = after_success fl y.service peer elapsed now })

  pub data Reach (y : System F) : System F → Type 0 where
    here : Reach y y
    next : {t u : System F} → Reach y t → Step t u → Reach y u

  pub record Inv (y : System F) : Type 0 where
    pub slots : Slots fl y.service.limiter
    pub held : y.service.limiter.in_flight ≡ pos (y.acquired + y.running)
    pub counted : y.service.in_flight_count ≡ wrap64 (pos (y.running + y.released))

  -- Nothing but Acquire in `admit` touches the limiter or the count.
  admit_valid_limiter :
      (s : ProviderService F) (req : ChatCompletionRequest) (peer : PeerContext)
      (w : Surroundings F)
      → (((admit_valid fl hex_sha256 s req peer w).0.limiter
            ≡ (acquire fl s.limiter w.done w.now).0)
          × ((admit_valid fl hex_sha256 s req peer w).1 ≡ (acquire fl s.limiter w.done w.now).1))
        ⊎ (((admit_valid fl hex_sha256 s req peer w).0.limiter ≡ s.limiter)
            × ((e : Error) × ((admit_valid fl hex_sha256 s req peer w).1 ≡ some e)))
  unfolding admit_valid acquire_slot penalize_client
  admit_valid_limiter s req peer w = ground arith

  admit_limiter :
      (s : ProviderService F) (req : ChatCompletionRequest) (peer : PeerContext)
      (w : Surroundings F)
      → (((admit fl hex_sha256 s req peer w).0.limiter ≡ (acquire fl s.limiter w.done w.now).0)
          × ((admit fl hex_sha256 s req peer w).1 ≡ (acquire fl s.limiter w.done w.now).1))
        ⊎ (((admit fl hex_sha256 s req peer w).0.limiter ≡ s.limiter)
            × ((e : Error) × ((admit fl hex_sha256 s req peer w).1 ≡ some e)))
  unfolding admit penalize_client
  admit_limiter s req peer w = elim (Option-cases (validate fl s.policy req w.hour w.load)) [
    | inl e ↦ rw (e, admit) (admit_valid_limiter s req peer w)
    | inr (x, e) ↦ rw (e, admit) (inr (refl, (x, refl)))
  ]

  pub admit_count :
      (s : ProviderService F) (req : ChatCompletionRequest) (peer : PeerContext)
      (w : Surroundings F)
      → (admit fl hex_sha256 s req peer w).0.in_flight_count ≡ s.in_flight_count
  unfolding admit admit_valid acquire_slot penalize_client
  admit_count s req peer w = elim (Option-cases (validate fl s.policy req w.hour w.load)) [
    | inl e ↦ rw (e, admit) (ground arith)
    | inr (x, e) ↦ rw (e, admit) refl
  ]

  pub admit-Slots :
      (s : ProviderService F) (req : ChatCompletionRequest) (peer : PeerContext)
      (w : Surroundings F)
      → Slots fl s.limiter
      → Slots fl (admit fl hex_sha256 s req peer w).0.limiter
  admit-Slots s req peer w v = elim (admit_limiter s req peer w) [
    | inl (e, f) ↦ rw e (acquire-Slots fl s.limiter w.done w.now v)
    | inr (e, f) ↦ rw e v
  ]

  pub admitted_takes_slot :
      (s : ProviderService F) (req : ChatCompletionRequest) (peer : PeerContext)
      (w : Surroundings F)
      → Slots fl s.limiter
      → (admit fl hex_sha256 s req peer w).1 ≡ none
      → (admit fl hex_sha256 s req peer w).0.limiter.in_flight ≡ s.limiter.in_flight +ℤ pos 1
  admitted_takes_slot s req peer w v h = elim (admit_limiter s req peer w) [
    | inl (e, f) ↦ rw e (acquire_takes_slot fl s.limiter w.done w.now v (sym f ∙ h)).0
    | inr (e, (x, f)) ↦ ground (arith, h, f)
  ]

  pub refused_keeps_slots :
      (s : ProviderService F) (req : ChatCompletionRequest) (peer : PeerContext)
      (w : Surroundings F) (x : Error)
      → (admit fl hex_sha256 s req peer w).1 ≡ some x
      → (admit fl hex_sha256 s req peer w).0.limiter.in_flight ≡ s.limiter.in_flight
  refused_keeps_slots s req peer w x h = elim (admit_limiter s req peer w) [
    | inl (e, f) ↦ rw e (acquire_refused fl s.limiter w.done w.now x (sym f ∙ h))
    | inr (e, (y, f)) ↦ ap (λ l. l.in_flight) e
  ]

  one_more : (n m : ℕ) → pos (n + m) +ℤ pos 1 ≡ pos (n + 1 + m)
  unfolding ◌+ℤ◌
  one_more n m = ground arith

  release_one :
      (l : Limiter F) (n m : ℕ)
      → Slots fl l
      → l.in_flight ≡ pos (n + (m + 1))
      → (release fl l).in_flight ≡ pos (n + m)
  release_one l n m v h = ground (arith, release_slot_lem fl l v, -ℤ_parts l.in_flight (pos 1))

  Step-Inv : {y z : System F} → Step y z → Inv y → Inv z
  unfolding count_up count_down release_slot publish_depth after_failure after_success
      penalize_client reward_client note_outcome pay
  Step-Inv {y} (admits req peer w h) v = record {
    slots = admit-Slots y.service req peer w v.slots;
    held =
        admitted_takes_slot y.service req peer w v.slots h
        ∙ (ap (λ i. i +ℤ pos 1) v.held ∙ one_more y.acquired y.running);
    counted = admit_count y.service req peer w ∙ v.counted;
  }
  Step-Inv {y} (refuses req peer w e h) v = record {
    slots = admit-Slots y.service req peer w v.slots;
    held = refused_keeps_slots y.service req peer w e h ∙ v.held;
    counted = admit_count y.service req peer w ∙ v.counted;
  }
  Step-Inv {y} (counts n h) v = record {
    slots = v.slots;
    held = v.held ∙ ap pos (omega arith);
    counted =
        ap (λ i. wrap64 (i +ℤ pos 1)) v.counted
        ∙ (wrap64_up (y.running + y.released) ∙ ap (λ k. wrap64 (pos k)) (omega arith));
  }
  Step-Inv (answers now) v = record { slots = v.slots; held = v.held; counted = v.counted }
  Step-Inv {y} (releases n h) v = record {
    slots = release-Slots fl y.service.limiter v.slots;
    held = release_one y.service.limiter y.acquired n v.slots (v.held ∙ ap pos (omega arith));
    counted = v.counted ∙ ap (λ k. wrap64 (pos k)) (omega arith);
  }
  Step-Inv {y} (discounts n h) v = record {
    slots = v.slots;
    held = v.held;
    counted =
        ap (λ i. wrap64 (i +ℤ negsuc 0)) (v.counted ∙ ap (λ k. wrap64 (pos k)) (omega arith))
        ∙ wrap64_down (y.running + n);
  }
  Step-Inv (fails peer elapsed now) v = record {
    slots = v.slots;
    held = v.held;
    counted = v.counted;
  }
  Step-Inv (succeeds peer elapsed now) v = record {
    slots = v.slots;
    held = v.held;
    counted = v.counted;
  }

  -- Whatever the interleaving, from a state that keeps the invariant on: the limiter's count is
  -- between 0 and its limit and is the number of the requests that were admitted and have not given
  -- up their slot; the queue depth's counter is the number, in 64 bits, of those that are counted.
  pub Reach-Inv : {y z : System F} → Inv y → Reach y z → Inv z
  Reach-Inv v here = v
  Reach-Inv v (next r t) = Step-Inv t (Reach-Inv v r)
