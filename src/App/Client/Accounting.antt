-- ===== src/App/Client/Accounting.antt =====
-- What a call of Infer leaves behind: the credits, the scores and the settings.
use gpuswarm.Common.{
  ℕ, suc, false, Option, none, some, Str, List, [], ◌∷◌, ◌≡◌, refl, ◌∙◌, Bool-cases, Option-cases,
  Result-cases, inl, inr, Result, ok, err, ◌||◌, length, ltb,
}
use gpuswarm.Common.Int.{pos, leb_ℤ}
use gpuswarm.Common.Clock.{time_after}
use gpuswarm.Common.Floats.{Float64}
use gpuswarm.Common.Sorting.{SortSlice}
use gpuswarm.Common.Maps.{lookup}
use gpuswarm.Model.{CapabilityDocument, ChatCompletionRequest, PeerContext}
use gpuswarm.Routing.{PeerScore}
use gpuswarm.Control.Credits.{CreditLedger, spend}
use gpuswarm.Control.Reputation.{ReputationTracker, InBounds, reward, penalize, adjust-InBounds}
use gpuswarm.App.Client.{
  ClientService, Gateway, StickyChoice, insufficient_credits, charge, charged,
  apply_sticky_priority, sticky_choice, mark_known, update_sticky,
}
use gpuswarm.App.Client.Inference.{
  try_peers, infer, infer_ranked, infer_discovered, pow_nonce, peer_context, penalize_peer,
  reward_peer, succeed,
}

module _ (fl : Float64) where
  open fl use {F, milli, neg}

  abbrev pub ScoresInBounds : Option (ReputationTracker F) → Type 0
  ScoresInBounds none = Unit {0}
  ScoresInBounds (some t) = InBounds fl t

  -- What no step of Infer after the charge touches, and what each keeps.
  pub record Keeps (s s' : ClientService F) : Type 0 where
    pub ledger : s'.credit_ledger ≡ s.credit_ledger
    pub opts : s'.opts ≡ s.opts
    pub scores : ScoresInBounds s.reputation → ScoresInBounds s'.reputation

  Keeps-refl : (s : ClientService F) → Keeps s s
  Keeps-refl s = record { ledger = refl; opts = refl; scores = λ h. h }

  Keeps-trans : (s t u : ClientService F) → Keeps s t → Keeps t u → Keeps s u
  Keeps-trans s t u a b = record {
    ledger = b.ledger ∙ a.ledger;
    opts = b.opts ∙ a.opts;
    scores = λ h. b.scores (a.scores h);
  }

  penalized_scores :
      (o : Option (ReputationTracker F)) (peer : Str) (delta : F)
      → ScoresInBounds o
      → ScoresInBounds (elim o as (λ _. Option (ReputationTracker F)) [
        | none ↦ none
        | some t ↦ some (penalize fl t peer delta)
      ])
  unfolding penalize
  penalized_scores none peer delta h = tt
  penalized_scores (some t) peer delta h = adjust-InBounds fl t peer (neg delta) h

  rewarded_scores :
      (o : Option (ReputationTracker F)) (peer : Str) (delta : F)
      → ScoresInBounds o
      → ScoresInBounds (elim o as (λ _. Option (ReputationTracker F)) [
        | none ↦ none
        | some t ↦ some (reward fl t peer delta)
      ])
  unfolding reward
  rewarded_scores none peer delta h = tt
  rewarded_scores (some t) peer delta h = adjust-InBounds fl t peer delta h

  penalize_peer-Keeps :
      (s : ClientService F) (peer : Str) (delta : F) → Keeps s (penalize_peer fl s peer delta)
  unfolding penalize_peer
  penalize_peer-Keeps s peer delta = record {
    ledger = refl;
    opts = refl;
    scores = penalized_scores s.reputation peer delta;
  }

  reward_peer-Keeps :
      (s : ClientService F) (peer : Str) (delta : F) → Keeps s (reward_peer fl s peer delta)
  unfolding reward_peer
  reward_peer-Keeps s peer delta = record {
    ledger = refl;
    opts = refl;
    scores = rewarded_scores s.reputation peer delta;
  }

  mark_known-Keeps : (s : ClientService F) (peer : Str) → Keeps s (mark_known s peer)
  unfolding mark_known
  mark_known-Keeps s peer = record { ledger = refl; opts = refl; scores = λ h. h }

  update_sticky-Keeps :
      (s : ClientService F) (model peer : Str) (now : ℕ) → Keeps s (update_sticky s model peer now)
  unfolding update_sticky
  update_sticky-Keeps s model peer now = elim (Bool-cases (leb_ℤ s.opts.sticky_peer_ttl (pos 0))) [
    | inl e ↦ rw e (Keeps-refl s)
    | inr e ↦ rw e (record { ledger = refl; opts = refl; scores = λ h. h })
  ]

  succeed-Keeps :
      (s : ClientService F) (model peer : Str) (now : ℕ) → Keeps s (succeed fl s model peer now)
  unfolding succeed
  succeed-Keeps s model peer now =
      let a = reward_peer fl s peer (milli 20) in
      let b = mark_known a peer in
      Keeps-trans s a _ (reward_peer-Keeps s peer (milli 20))
        (Keeps-trans a b _ (mark_known-Keeps a peer) (update_sticky-Keeps b model peer now))

  try_peers-Keeps :
      (gateway : Gateway) (req : ChatCompletionRequest) (ctx : PeerContext) (now : ℕ)
      (cs : List (PeerScore F)) (s : ClientService F) (i : ℕ) (last : Option Str)
      → Keeps s (try_peers fl s gateway req ctx now cs i last).0
  unfolding try_peers
  try_peers-Keeps gateway req ctx now [] s i last = Keeps-refl s
  try_peers-Keeps gateway req ctx now (c ∷ cs) s i last =
      elim (Result-cases (gateway i c.capability.gateway_url req ctx)) [
        | inl (res, e) ↦ rw (e, try_peers) (succeed-Keeps s req.model c.capability.peer_id now)
        | inr (x, e) ↦
            let p = penalize_peer fl s c.capability.peer_id (milli 100) in
            rw (e, try_peers)
              (Keeps-trans s p _ (penalize_peer-Keeps s c.capability.peer_id (milli 100))
                (try_peers-Keeps gateway req ctx now cs p (suc i) (some x)))
      ]

  sticky_choice-Keeps :
      (s : ClientService F) (model : Str) (now : ℕ) (o : Option StickyChoice)
      (ranked : List (PeerScore F))
      → Keeps s (sticky_choice s model now o ranked).0
  unfolding sticky_choice
  sticky_choice-Keeps s model now none ranked = Keeps-refl s
  sticky_choice-Keeps s model now (some ch) ranked = elim (Bool-cases (time_after now ch.expires)) [
    | inl e ↦ rw e (record { ledger = refl; opts = refl; scores = λ h. h })
    | inr e ↦ rw e (Keeps-refl s)
  ]

  apply_sticky-Keeps :
      (s : ClientService F) (model : Str) (now : ℕ) (ranked : List (PeerScore F))
      → Keeps s (apply_sticky_priority s model now ranked).0
  unfolding apply_sticky_priority
  apply_sticky-Keeps s model now ranked =
      elim (Bool-cases (leb_ℤ s.opts.sticky_peer_ttl (pos 0) || ltb (length ranked) 2)) [
        | inl e ↦ rw e (Keeps-refl s)
        | inr e ↦ rw e (sticky_choice-Keeps s model now (lookup model s.sticky) ranked)
      ]

  module _ (sorting : SortSlice) (hex_sha256 : Str → Str) (gateway : Gateway)
      (req : ChatCompletionRequest) (now later : ℕ) where
    infer_ranked-Keeps :
        (s : ClientService F) (ranked : List (PeerScore F))
        → Keeps s (infer_ranked fl sorting hex_sha256 s gateway req now later ranked).0
    unfolding infer_ranked
    infer_ranked-Keeps s [] = Keeps-refl s
    infer_ranked-Keeps s (c ∷ cs) =
        let candidates = apply_sticky_priority s req.model now (c ∷ cs) in
        let first = apply_sticky-Keeps s req.model now (c ∷ cs) in
        elim (Option-cases (pow_nonce hex_sha256 s.opts req.model)) [
          | inl e ↦ rw (e, infer_ranked) first
          | inr (nonce, e) ↦
              rw (e, infer_ranked)
                (Keeps-trans s candidates.0 _ first (
                  try_peers-Keeps gateway req (peer_context s.opts nonce) later candidates.1
                    candidates.0 0 none))
        ]

    infer_discovered-Keeps :
        (s : ClientService F) (discovered : Result Str (List (CapabilityDocument F)))
        → Keeps s (infer_discovered fl sorting hex_sha256 s gateway req now later discovered).0
    unfolding infer_discovered
    infer_discovered-Keeps s (err e) = Keeps-refl s
    infer_discovered-Keeps s (ok caps) = infer_ranked-Keeps s _

    infer-Keeps :
        (s : ClientService F) (discovered : Result Str (List (CapabilityDocument F)))
        → Keeps (charge s).0 (infer fl sorting hex_sha256 s discovered gateway req now later).0
    unfolding infer
    infer-Keeps s discovered = elim (Bool-cases (charge s).1) [
      | inl e ↦ rw e (infer_discovered-Keeps (charge s).0 discovered)
      | inr e ↦ rw e (Keeps-refl (charge s).0)
    ]

    -- A call of Infer charges the ledger once, whatever comes of it: the balance afterwards is that
    -- after one Spend of the credit cost, also where discovery fails or no peer answers. The settings
    -- stay as they were, and scores that lay within bounds still do.
    pub infer_charges_once :
        (s : ClientService F) (l : CreditLedger)
        (discovered : Result Str (List (CapabilityDocument F)))
        → s.credit_ledger ≡ some l
        → let s' = (infer fl sorting hex_sha256 s discovered gateway req now later).0 in
          (s'.credit_ledger ≡ some (spend l s.opts.credit_cost).0)
          × (s'.opts ≡ s.opts)
          × (ScoresInBounds s.reputation → ScoresInBounds s'.reputation)
    unfolding charge charged
    infer_charges_once s l discovered e =
        let k = infer-Keeps s discovered in (k.ledger ∙ rw e refl, k.opts, k.scores)

    -- A client that cannot pay gets the error, and nothing but the ledger is touched.
    pub infer_unpaid :
        (s : ClientService F) (discovered : Result Str (List (CapabilityDocument F)))
        → (charge s).1 ≡ false
        → infer fl sorting hex_sha256 s discovered gateway req now later
          ≡ ((charge s).0, err insufficient_credits)
    unfolding infer
    infer_unpaid s discovered e = rw e refl
