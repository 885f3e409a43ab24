-- ===== src/App/Provider.antt =====
-- internal/app/services.go, ProviderService. Infer is cut where other goroutines can run between its
-- parts: the checks and Acquire, the count, the adapter's call, and the cleanup. The pointed-to ledger
-- and tracker are fields, `none` where the pointer is nil.
pub mod Slots
use gpuswarm.Common.{
  ℕ, Bool, true, false, ◌&&◌, not, Option, none, some, Str, is_empty, List, [], ◌∷◌, if◌then◌else◌,
  Result, ok, err,
}
use gpuswarm.Common.Int.{ℤ, pos, negsuc, ltb_ℤ, ◌+ℤ◌, ◌-ℤ◌, wrap64}
use gpuswarm.Common.Floats.{Float64}
use gpuswarm.Model.{ChatCompletionRequest, PeerContext}
use gpuswarm.Control.{Error, invalid_pow, peer_reputation_low}
use gpuswarm.Control.Credits.{CreditLedger, earn}
use gpuswarm.Control.Reputation.{ReputationTracker, score, reward, penalize}
use gpuswarm.Control.Limiter.{Limiter, acquire, release}
use gpuswarm.Control.Policy.{ProviderPolicy, validate}
use gpuswarm.Control.Pow.{validate_pow}
use gpuswarm.App.Capability.{CapabilityState, set_queue_depth, update_latency, record_outcome}

pub record ProviderService (F : Type 0) : Type 0 where
  pub limiter : Limiter F
  pub capability : CapabilityState F
  pub policy : ProviderPolicy F
  pub credit_ledger : Option CreditLedger
  pub peer_reputation : Option (ReputationTracker F)
  pub in_flight_count : ℤ

unfoldable pub new_provider_service :
    {F : Type 0}
    → Limiter F
    → CapabilityState F
    → ProviderPolicy F
    → Option CreditLedger
    → Option (ReputationTracker F)
    → ProviderService F
new_provider_service limiter capability policy ledger reputation = record {
  limiter = limiter;
  capability = capability;
  policy = policy;
  credit_ledger = ledger;
  peer_reputation = reputation;
  in_flight_count = pos 0;
}

-- What Infer reads of the world before the adapter's call: the hour, the load probe, whether the
-- context has ended, and the time at Acquire.
pub record Surroundings (F : Type 0) : Type 0 where
  pub hour : ℤ
  pub load : Option (Option F)
  pub done : Bool
  pub now : ℕ

module _ (fl : Float64) where
  open fl use {F, lt, milli}

  -- `if s.peerReputation != nil && peerCtx.ClientPeerID != "" { … }`
  unfoldable pub penalized : Option (ReputationTracker F) → Str → F → Option (ReputationTracker F)
  penalized none id delta = none
  penalized (some t) id delta = if is_empty id then some t else some (penalize fl t id delta)

  unfoldable pub rewarded : Option (ReputationTracker F) → Str → F → Option (ReputationTracker F)
  rewarded none id delta = none
  rewarded (some t) id delta = if is_empty id then some t else some (reward fl t id delta)

  unfoldable pub penalize_client : ProviderService F → Str → F → ProviderService F
  penalize_client s id delta = record s { peer_reputation = penalized s.peer_reputation id delta }

  unfoldable pub reward_client : ProviderService F → Str → F → ProviderService F
  reward_client s id delta = record s { peer_reputation = rewarded s.peer_reputation id delta }

  -- Is the client's score below the least that the policy accepts?
  unfoldable pub low_reputation : Option (ReputationTracker F) → Str → F → Bool
  low_reputation none id least = false
  low_reputation (some t) id least =
      lt (milli 0) least && not (is_empty id) && lt (score fl t id) least

  unfoldable pub acquire_slot :
      ProviderService F → Surroundings F → ProviderService F × Option Error
  acquire_slot s w =
      let (limiter, e) = acquire fl s.limiter w.done w.now in (record s { limiter = limiter }, e)

  module _ (hex_sha256 : Str → Str) where
    -- The checks of proof of work and reputation, and Acquire.
    unfoldable pub admit_valid :
        ProviderService F
        → ChatCompletionRequest
        → PeerContext
        → Surroundings F
        → ProviderService F × Option Error
    admit_valid s req peer w =
        if ltb_ℤ (pos 0) s.policy.pow_difficulty
          && not (
              validate_pow hex_sha256 peer.client_peer_id peer.pow_nonce req.model
                s.policy.pow_difficulty)
        then (penalize_client s peer.client_peer_id (milli 200), some invalid_pow)
        else if low_reputation s.peer_reputation peer.client_peer_id s.policy.min_peer_reputation
        then (s, some peer_reputation_low)
        else acquire_slot s w

    -- Infer up to Acquire; `none` lets the request go on.
    unfoldable pub admit :
        ProviderService F
        → ChatCompletionRequest
        → PeerContext
        → Surroundings F
        → ProviderService F × Option Error
    admit s req peer w = elim (validate fl s.policy req w.hour w.load) [
      | some e ↦ (penalize_client s peer.client_peer_id (milli 20), some e)
      | none ↦ admit_valid s req peer w
    ]

  -- atomic.AddInt64(&s.inFlightCount, 1)
  unfoldable pub count_up : ProviderService F → ProviderService F
  count_up s = record s { in_flight_count = wrap64 (s.in_flight_count +ℤ pos 1) }

  -- atomic.AddInt64(&s.inFlightCount, -1)
  unfoldable pub count_down : ProviderService F → ProviderService F
  count_down s = record s { in_flight_count = wrap64 (s.in_flight_count +ℤ negsuc 0) }

  unfoldable pub release_slot : ProviderService F → ProviderService F
  release_slot s = record s { limiter = release fl s.limiter }

  -- s.capability.SetQueueDepth(int(atomic.LoadInt64(&s.inFlightCount)))
  unfoldable pub publish_depth : ProviderService F → ℕ → ProviderService F
  publish_depth s now = record s {
    capability = set_queue_depth fl s.capability s.in_flight_count now;
  }

  unfoldable pub note_outcome : ProviderService F → Bool → ℤ → ℕ → ProviderService F
  note_outcome s success elapsed now = record s {
    capability = record_outcome fl (update_latency fl s.capability elapsed now) success now;
  }

  unfoldable pub pay : ProviderService F → ProviderService F
  pay s = record s {
    credit_ledger = elim s.credit_ledger [ none ↦ none | some l ↦ some (earn l (pos 1)) ];
  }

  -- After Release and the decrement: the rest of the branch for an adapter's error.
  unfoldable pub after_failure : ProviderService F → PeerContext → ℤ → ℕ → ProviderService F
  after_failure s peer elapsed now =
      penalize_client (note_outcome s false elapsed now) peer.client_peer_id (milli 50)

  -- After Release and the decrement: the rest of the cleanup function.
  unfoldable pub after_success : ProviderService F → PeerContext → ℤ → ℕ → ProviderService F
  after_success s peer elapsed now =
      reward_client (pay (note_outcome (publish_depth s now) true elapsed now)) peer.client_peer_id
        (milli 10)

  -- The branch for an adapter's error, and the cleanup, when nothing runs in between.
  unfoldable pub fail : ProviderService F → PeerContext → ℤ → ℕ → ProviderService F
  fail s peer elapsed now = after_failure (count_down (release_slot s)) peer elapsed now

  unfoldable pub cleanup : ProviderService F → PeerContext → ℤ → ℕ → ProviderService F
  cleanup s peer elapsed now = after_success (count_down (release_slot s)) peer elapsed now

  -- The whole of Infer, alone: `answer` is what the adapter returns, `elapsed` and `later` the time
  -- since the start and the clock after it.
  unfoldable pub infer :
      {A : Type 0}
      → (Str → Str)
      → ProviderService F
      → ChatCompletionRequest
      → PeerContext
      → Surroundings F
      → Result Error A
      → ℤ
      → ℕ
      → ProviderService F × Result Error A
  infer hex_sha256 s req peer w answer elapsed later =
      let (s', refused) = admit hex_sha256 s req peer w in
      elim refused [
        | some e ↦ (s', err e)
        | none ↦ elim answer [
          | err e ↦ (fail (count_up s') peer elapsed later, err e)
          | ok a ↦ (publish_depth (count_up s') later, ok a)
        ]
      ]
