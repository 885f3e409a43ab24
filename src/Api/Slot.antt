-- ===== src/Api/Slot.antt =====
-- A request over HTTP to a provider that serves nothing else meanwhile.
use gpuswarm.Common.{
  ℕ, none, Str, Result, ok, err, Result-cases, Option-cases, ◌≡◌, refl, ap, sym, subst, ◌∙◌, inl,
  inr, arith,
}
use gpuswarm.Common.Int.{ℤ, pos, negsuc, ◌+ℤ◌, ◌-ℤ◌, wrap64, of_bits64, IsInt64}
use gpuswarm.Common.Floats.{Float64}
use gpuswarm.Model.{ChatCompletionRequest, PeerContext}
use gpuswarm.Control.{Error}
use gpuswarm.Control.Limiter.{Limiter, release}
use gpuswarm.Control.Limiter.Bounds.{Slots, release_slot_lem}
use gpuswarm.App.Client.{InferenceResult}
use gpuswarm.App.Provider.{
  ProviderService, Surroundings, admit, count_up, count_down, release_slot, publish_depth,
  after_failure, after_success, penalize_client, reward_client, note_outcome, pay, fail, cleanup,
  infer,
}
use gpuswarm.App.Provider.Slots.{admit_count, admit-Slots, admitted_takes_slot, refused_keeps_slots}
use gpuswarm.Api.{HttpRequest, accepted, provider_reply, handle_provider_inference}

there_and_back : (c : ℤ) → IsInt64 c → wrap64 (wrap64 (c +ℤ pos 1) +ℤ negsuc 0) ≡ c
unfolding wrap64 of_bits64 ◌+ℤ◌
there_and_back (pos n) h = ground arith
there_and_back (negsuc n) h = ground arith

module _ (fl : Float64) (hex_sha256 : Str → Str) where
  open fl use {F}

  -- Nothing is held in s' that was not held in s.
  pub record Restored (s s' : ProviderService F) : Type 0 where
    pub slots : s'.limiter.in_flight ≡ s.limiter.in_flight
    pub count : s'.in_flight_count ≡ s.in_flight_count

  Restored-refl : (s : ProviderService F) → Restored s s
  Restored-refl s = record { slots = refl; count = refl }

  given_back :
      (l m : Limiter F)
      → Slots fl l
      → Slots fl m
      → m.in_flight ≡ l.in_flight +ℤ pos 1
      → (release fl m).in_flight ≡ l.in_flight
  unfolding ◌+ℤ◌ ◌-ℤ◌
  given_back l m v w h = ground (arith, release_slot_lem fl m w, v.not_negative)

  module _ (w : Surroundings F) (elapsed : ℤ) (later end : ℕ) where
    after : {A : Type 0} → PeerContext → ProviderService F × Result Error A → ProviderService F
    unfolding cleanup
    after peer (s, err e) = s
    after peer (s, ok a) = cleanup fl s peer elapsed end

    admitted-Restored :
        {A : Type 0} (s : ProviderService F) (req : ChatCompletionRequest) (peer : PeerContext)
        (answer : Result Error A)
        → Slots fl s.limiter
        → IsInt64 s.in_flight_count
        → (admit fl hex_sha256 s req peer w).1 ≡ none
        → Restored s (after peer (infer fl hex_sha256 s req peer w answer elapsed later))
    unfolding after infer cleanup fail after_success after_failure count_up count_down release_slot
        publish_depth penalize_client reward_client note_outcome pay
    admitted-Restored s req peer (err x) v c e =
        rw (e, infer)
          (record {
            slots =
                given_back s.limiter (admit fl hex_sha256 s req peer w).0.limiter v
                  (admit-Slots fl hex_sha256 s req peer w v)
                  (admitted_takes_slot fl hex_sha256 s req peer w v e);
            count =
                ap (λ k. wrap64 (wrap64 (k +ℤ pos 1) +ℤ negsuc 0))
                  (admit_count fl hex_sha256 s req peer w)
                ∙ there_and_back s.in_flight_count c;
          })
    admitted-Restored s req peer (ok a) v c e =
        rw (e, infer)
          (record {
            slots =
                given_back s.limiter (admit fl hex_sha256 s req peer w).0.limiter v
                  (admit-Slots fl hex_sha256 s req peer w v)
                  (admitted_takes_slot fl hex_sha256 s req peer w v e);
            count =
                ap (λ k. wrap64 (wrap64 (k +ℤ pos 1) +ℤ negsuc 0))
                  (admit_count fl hex_sha256 s req peer w)
                ∙ there_and_back s.in_flight_count c;
          })

    infer-Restored :
        {A : Type 0} (s : ProviderService F) (req : ChatCompletionRequest) (peer : PeerContext)
        (answer : Result Error A)
        → Slots fl s.limiter
        → IsInt64 s.in_flight_count
        → Restored s (after peer (infer fl hex_sha256 s req peer w answer elapsed later))
    unfolding after infer
    infer-Restored s req peer answer v c =
        elim (Option-cases (admit fl hex_sha256 s req peer w).1) [
          | inl e ↦ admitted-Restored s req peer answer v c e
          | inr (x, e) ↦
              rw (e, infer)
                (record {
                  slots = refused_keeps_slots fl hex_sha256 s req peer w x e;
                  count = admit_count fl hex_sha256 s req peer w;
                })
        ]

    reply-after :
        (peer : PeerContext) (r : ProviderService F × Result Error InferenceResult)
        → (provider_reply {F = F} (λ s. cleanup fl s peer elapsed end) r.0 r.1).0 ≡ after peer r
    unfolding provider_reply after
    reply-after peer (s, err e) = refl
    reply-after peer (s, ok a) = refl

    -- However a request ends, whether it is malformed, refused, failed by the backend or answered, a
    -- provider that serves nothing else meanwhile holds afterwards the slots, and counts the requests,
    -- that it did before; if its slots were within the limit, and its counter an int64.
    pub handle-Restored :
        (s : ProviderService F) (answer : ChatCompletionRequest → Result Error InferenceResult)
        (r : HttpRequest ChatCompletionRequest)
        → Slots fl s.limiter
        → IsInt64 s.in_flight_count
        → Restored s
            (handle_provider_inference {F = F}
              (λ s req peer. infer fl hex_sha256 s req peer w (answer req) elapsed later)
              (λ peer s. cleanup fl s peer elapsed end)
              s
              r).0
    unfolding handle_provider_inference
    handle-Restored s answer r v c = elim (Result-cases (accepted {F = F} r)) [
      | inl (req, e) ↦
          rw (e, handle_provider_inference)
            (subst (Restored s) (sym (reply-after _ _)) (infer-Restored s req _ (answer req) v c))
      | inr (reply, e) ↦ rw (e, handle_provider_inference) (Restored-refl s)
    ]
