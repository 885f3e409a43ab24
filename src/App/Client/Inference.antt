-- ===== src/App/Client/Inference.antt =====
-- ClientService.Infer: the charge, discovery, ranking, proof of work and the loop over the candidates.
use gpuswarm.Common.{
  ℕ, suc, Option, none, some, Str, is_empty, List, [], ◌∷◌, map, if◌then◌else◌, Result, ok, err,
}
use gpuswarm.Common.Int.{pos, ltb_ℤ}
use gpuswarm.Common.Floats.{Float64}
use gpuswarm.Common.Sorting.{SortSlice}
use gpuswarm.Model.{CapabilityDocument, ChatCompletionRequest, PeerContext}
use gpuswarm.Routing.{PeerScore, Preferences, rank_with_preferences}
use gpuswarm.Control.Reputation.{ReputationTracker, score, reward, penalize}
use gpuswarm.Control.Pow.{solve_pow}
use gpuswarm.App.Client.{
  ClientOptions, InferenceResult, ClientError, ClientService, Gateway, to_set, mark_known,
  update_sticky, apply_sticky_priority, charge, insufficient_credits, no_peers, pow_without_peer_id,
  discover_peers, all_peers_failed,
}

module _ (hex_sha256 : Str → Str) where
  -- The nonce for a request; `none` where proof of work is on and the client has no ID.
  unfoldable pub pow_nonce : ClientOptions → Str → Option ℕ
  pow_nonce o model =
      if ltb_ℤ (pos 0) o.pow_difficulty
      then (if is_empty o.peer_id
          then none
          else some (solve_pow hex_sha256 o.peer_id model o.pow_difficulty o.pow_max_iters).0)
      else some 0

unfoldable pub peer_context : ClientOptions → ℕ → PeerContext
peer_context o nonce = record {
  client_peer_id = o.peer_id;
  client_name = o.peer_name;
  pow_nonce = nonce;
}

module _ (fl : Float64) where
  open fl use {F, lt, milli}

  -- The reliability of a document is held down to the local reputation of the peer.
  unfoldable pub lower_reliability :
      ReputationTracker F → CapabilityDocument F → CapabilityDocument F
  lower_reliability t c =
      let local = score fl t c.peer_id in
      if lt local c.reliability then record c { reliability = local } else c

  unfoldable pub apply_reputation :
      Option (ReputationTracker F) → List (CapabilityDocument F) → List (CapabilityDocument F)
  apply_reputation none caps = caps
  apply_reputation (some t) caps = map (lower_reliability t) caps

  unfoldable pub preferences : ClientService F → Preferences
  preferences s = record {
    policy = s.opts.routing_policy;
    favorites = to_set s.opts.favorite_peers;
    known = s.known;
    allowed = to_set s.opts.allowed_peers;
    blocked = to_set s.opts.blocked_peers;
  }

  unfoldable pub penalize_peer : ClientService F → Str → F → ClientService F
  penalize_peer s peer_id delta = record s {
    reputation = elim s.reputation [ none ↦ none | some t ↦ some (penalize fl t peer_id delta) ];
  }

  unfoldable pub reward_peer : ClientService F → Str → F → ClientService F
  reward_peer s peer_id delta = record s {
    reputation = elim s.reputation [ none ↦ none | some t ↦ some (reward fl t peer_id delta) ];
  }

  -- What Infer does after a peer has answered.
  unfoldable pub succeed : ClientService F → Str → Str → ℕ → ClientService F
  succeed s model peer_id now =
      update_sticky (mark_known (reward_peer s peer_id (milli 20)) peer_id) model peer_id now

  -- The loop over the ranked candidates, at attempt `i`, with the error of the last attempt.
  unfoldable pub try_peers :
      ClientService F
      → Gateway
      → ChatCompletionRequest
      → PeerContext
      → ℕ
      → List (PeerScore F)
      → ℕ
      → Option Str
      → ClientService F × Result ClientError InferenceResult
  try_peers s gateway req ctx now [] i last = (s, err (all_peers_failed last))
  try_peers s gateway req ctx now (c ∷ cs) i last =
      elim (gateway i c.capability.gateway_url req ctx) [
        | err e ↦
            try_peers (penalize_peer s c.capability.peer_id (milli 100)) gateway req ctx now cs
              (suc i) (some e)
        | ok res ↦ (succeed s req.model c.capability.peer_id now, ok res)
      ]

  module _ (sorting : SortSlice) (hex_sha256 : Str → Str) where
    -- From the ranked candidates on; `now` is the time at the sticky check, `later` at the success.
    unfoldable pub infer_ranked :
        ClientService F
        → Gateway
        → ChatCompletionRequest
        → ℕ
        → ℕ
        → List (PeerScore F)
        → ClientService F × Result ClientError InferenceResult
    infer_ranked s gateway req now later [] = (s, err no_peers)
    infer_ranked s gateway req now later (c ∷ cs) =
        let (s', ranked) = apply_sticky_priority s req.model now (c ∷ cs) in
        elim (pow_nonce hex_sha256 s.opts req.model) [
          | none ↦ (s', err pow_without_peer_id)
          | some nonce ↦ try_peers s' gateway req (peer_context s.opts nonce) later ranked 0 none
        ]

    unfoldable pub infer_discovered :
        ClientService F
        → Gateway
        → ChatCompletionRequest
        → ℕ
        → ℕ
        → Result Str (List (CapabilityDocument F))
        → ClientService F × Result ClientError InferenceResult
    infer_discovered s gateway req now later (err e) = (s, err (discover_peers e))
    infer_discovered s gateway req now later (ok caps) = infer_ranked s gateway req now later (
        rank_with_preferences fl sorting s.router (apply_reputation s.reputation caps) req
          (preferences s))

    unfoldable pub infer :
        ClientService F
        → Result Str (List (CapabilityDocument F))
        → Gateway
        → ChatCompletionRequest
        → ℕ
        → ℕ
        → ClientService F × Result ClientError InferenceResult
    infer s discovered gateway req now later =
        let (s', paid) = charge s in
        if paid
        then infer_discovered s' gateway req now later discovered
        else (s', err insufficient_credits)
