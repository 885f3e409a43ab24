-- ===== src/App/Client/Candidates.antt =====
-- Infer as a whole: whom it asks, and what makes it fail.
use mathlib.Core.List.{Mem}
use mathlib.Core.List.Perm
use mathlib.Core.Logic.{∥∥₁_prop}
use gpuswarm.Common.{
  ℕ, suc, false, none, some, Str, List, [], ◌∷◌, ◌≡◌, refl, Bool-cases, Option-cases, inl, inr, All,
  Result, ok, err,
}
use gpuswarm.Common.Floats.{Float64}
use gpuswarm.Common.Sorting.{SortSlice}
use gpuswarm.Common.Members.{All-mem, All-of_mem, All-perm, true-prop}
use gpuswarm.Model.{CapabilityDocument, ChatCompletionRequest, PeerContext}
use gpuswarm.Routing.{PeerScore, has_fav_candidates, rank_with_preferences, skips}
use gpuswarm.Routing.Eligibility.{Eligible, skips_iff}
use gpuswarm.Routing.Ranking.{rank_kept, rank_listed}
use gpuswarm.App.Client.{ClientService, InferenceResult, Gateway, charge, apply_sticky_priority}
use gpuswarm.App.Client.Inference.{
  try_peers, infer, infer_ranked, infer_discovered, apply_reputation, preferences, pow_nonce,
  peer_context,
}
use gpuswarm.App.Client.Sticky.{apply_sticky_priority-perm}
use gpuswarm.App.Client.Failover.{Answers, answered, next, try_peers_first}

module _ (fl : Float64) (gateway : Gateway) (req : ChatCompletionRequest) where
  open fl use {F}

  -- A candidate with the property P answered, under the context ctx.
  abbrev pub AnsweredBy : (PeerScore F → Type 0) → PeerContext → InferenceResult → Type 0
  AnsweredBy P ctx res =
      (d : PeerScore F) × (i : ℕ) × P d × (gateway i d.capability.gateway_url req ctx ≡ ok res)

  Answers-All :
      (P : PeerScore F → Type 0) (ctx : PeerContext) (i : ℕ) (cs : List (PeerScore F))
      (d : PeerScore F) (res : InferenceResult)
      → Answers fl gateway req ctx i cs d res
      → All P cs
      → AnsweredBy P ctx res
  Answers-All P ctx i (c ∷ cs) d res (answered e) a = (c, i, a.0, e)
  Answers-All P ctx i (c ∷ cs) d res (next e r) a = Answers-All P ctx (suc i) cs d res r a.1
  Answers-All P ctx i [] d res r a = elim r [ ]

  try_peers_answered :
      (P : PeerScore F → Type 0) (s : ClientService F) (ctx : PeerContext) (now : ℕ)
      (cs : List (PeerScore F)) (res : InferenceResult)
      → All P cs
      → (try_peers fl s gateway req ctx now cs 0 none).1 ≡ ok res
      → AnsweredBy P ctx res
  try_peers_answered P s ctx now cs res a h =
      elim (try_peers_first fl gateway req ctx now cs s 0 none) [
        | inl (d, r, w, q) ↦
            let e : r ≡ res = cc in let b = Answers-All P ctx 0 cs d r w a in rw e at b
        | inr (x, w, q) ↦ cc
      ]

  module _ (sorting : SortSlice) (hex_sha256 : Str → Str) where
    infer_ranked_answered :
        (P : PeerScore F → Type 0) (prop : (c : PeerScore F) → IsProp (P c)) (s : ClientService F)
        (now later : ℕ) (ranked : List (PeerScore F)) (res : InferenceResult)
        → All P ranked
        → (infer_ranked fl sorting hex_sha256 s gateway req now later ranked).1 ≡ ok res
        → (nonce : ℕ) × (pow_nonce hex_sha256 s.opts req.model ≡ some nonce)
          × AnsweredBy P (peer_context s.opts nonce) res
    unfolding infer_ranked
    infer_ranked_answered P prop s now later [] res a h = cc
    infer_ranked_answered P prop s now later (c ∷ cs) res a h =
        elim (Option-cases (pow_nonce hex_sha256 s.opts req.model)) [
          | inl e ↦ let k = rw (e, infer_ranked) at h in cc
          | inr (nonce, e) ↦
              let candidates = apply_sticky_priority s req.model now (c ∷ cs) in
              (
                nonce,
                e,
                try_peers_answered P candidates.0 (peer_context s.opts nonce) later candidates.1 res
                    (All-perm _ prop
                      (Perm.symm (apply_sticky_priority-perm s req.model now (c ∷ cs))) a)
                    (rw (e, infer_ranked) at h),
              )
        ]

    -- What is known of the peer that gave an answer at an attempt.
    pub record Chosen (s : ClientService F) (discovered : Result Str (List (CapabilityDocument F)))
        (res : InferenceResult) : Type 0 where
      pub caps : List (CapabilityDocument F)
      pub nonce : ℕ
      pub peer : PeerScore F
      pub attempt : ℕ
      pub found : discovered ≡ ok caps
      pub nonce_ready : pow_nonce hex_sha256 s.opts req.model ≡ some nonce
      pub listed : Mem peer.capability (apply_reputation fl s.reputation caps)
      pub ranked : Mem peer (
          rank_with_preferences fl sorting s.router
            (apply_reputation fl s.reputation caps)
            req
            (preferences fl s))
      pub eligible :
          Eligible req
            (preferences fl s)
            (has_fav_candidates (apply_reputation fl s.reputation caps) req (preferences fl s))
            peer.capability
      pub answer :
          gateway attempt peer.capability.gateway_url req (peer_context s.opts nonce) ≡ ok res

    infer_discovered-Chosen :
        (s : ClientService F) (discovered : Result Str (List (CapabilityDocument F)))
        (now later : ℕ) (res : InferenceResult)
        → (infer_discovered fl sorting hex_sha256 s gateway req now later discovered).1 ≡ ok res
        → Chosen s discovered res
    unfolding infer_discovered
    infer_discovered-Chosen s (err e) now later res h = cc
    infer_discovered-Chosen s (ok caps) now later res h =
        let peers = apply_reputation fl s.reputation caps in
        let ranking = rank_with_preferences fl sorting s.router peers req (preferences fl s) in
        let has_fav = has_fav_candidates peers req (preferences fl s) in
        let (nonce, e, w) =
          infer_ranked_answered (λ c. Mem c ranking) (λ c. ∥∥₁_prop) s now later ranking res
            (All-of_mem (λ c. Mem c ranking) ranking (λ c m. m)) h in
        let (d, i, m, answer) = w in
        record {
          caps = caps;
          nonce = nonce;
          peer = d;
          attempt = i;
          found = refl;
          nonce_ready = e;
          listed =
              All-mem (λ c. Mem c.capability peers) (λ c. ∥∥₁_prop) ranking
                (rank_listed fl sorting s.router peers req (preferences fl s)) d m;
          ranked = m;
          eligible = (skips_iff req (preferences fl s) has_fav d.capability).0 (
              All-mem (λ c. skips req (preferences fl s) has_fav c.capability ≡ false)
                (λ c. true-prop _ _) ranking
                (rank_kept fl sorting s.router peers req (preferences fl s)) d m);
          answer = answer;
        }

    charge-Chosen :
        (s : ClientService F) (discovered : Result Str (List (CapabilityDocument F)))
        (res : InferenceResult)
        → Chosen (charge s).0 discovered res
        → Chosen s discovered res
    unfolding charge preferences
    charge-Chosen s discovered res c = record {
      caps = c.caps;
      nonce = c.nonce;
      peer = c.peer;
      attempt = c.attempt;
      found = c.found;
      nonce_ready = c.nonce_ready;
      listed = c.listed;
      ranked = c.ranked;
      eligible = c.eligible;
      answer = c.answer;
    }

    -- A request that Infer answers was answered by a peer of its ranking of the documents that discovery
    -- gave, their reliability held down to the peers' reputation; the peer's document is one of them, and
    -- it is eligible under the preferences of the service: so never a blocked peer, nor under the manual
    -- policy one that is not allowed, nor one that does not offer the model. The gateway was asked at the
    -- document's URL, under the client's own name and the nonce of its search.
    pub infer-Chosen :
        (s : ClientService F) (discovered : Result Str (List (CapabilityDocument F)))
        (now later : ℕ) (res : InferenceResult)
        → (infer fl sorting hex_sha256 s discovered gateway req now later).1 ≡ ok res
        → Chosen s discovered res
    unfolding infer
    infer-Chosen s discovered now later res h = elim (Bool-cases (charge s).1) [
      | inl e ↦
          charge-Chosen s discovered res
            (infer_discovered-Chosen (charge s).0 discovered now later res (rw e at h))
      | inr e ↦ let k = rw e at h in cc
    ]
