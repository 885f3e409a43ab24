-- ===== src/App/Client/Failover.antt =====
-- The loop of Infer asks the candidates in order until one answers.
use gpuswarm.Common.{
  ℕ, suc, Option, some, Str, List, [], ◌∷◌, ◌≡◌, refl, Result-cases, inl, inr, ◌⊎◌, ok, err,
}
use gpuswarm.Common.Floats.{Float64}
use gpuswarm.Model.{ChatCompletionRequest, PeerContext}
use gpuswarm.Routing.{PeerScore}
use gpuswarm.App.Client.{ClientService, InferenceResult, Gateway, all_peers_failed}
use gpuswarm.App.Client.Inference.{try_peers, penalize_peer}

module _ (fl : Float64) (gateway : Gateway) (req : ChatCompletionRequest) (ctx : PeerContext) where
  open fl use {F}

  -- Attempts i, i + 1, … at the candidates in turn all fail, and `last` is the error that is then
  -- reported: that of the last attempt, or the one from before if there is none.
  pub data AllFail : ℕ → Option Str → List (PeerScore F) → Option Str → Type 0 where
    nobody : {i : ℕ} {last : Option Str} → AllFail i last [] last
    failed :
        {i : ℕ} {before last : Option Str} {e : Str} {c : PeerScore F} {cs : List (PeerScore F)}
        → gateway i c.capability.gateway_url req ctx ≡ err e
        → AllFail (suc i) (some e) cs last
        → AllFail i before (c ∷ cs) last

  -- The candidates before the chosen one fail, and the chosen one answers.
  pub data Answers : ℕ → List (PeerScore F) → PeerScore F → InferenceResult → Type 0 where
    answered :
        {i : ℕ} {c : PeerScore F} {cs : List (PeerScore F)} {res : InferenceResult}
        → gateway i c.capability.gateway_url req ctx ≡ ok res
        → Answers i (c ∷ cs) c res
    next :
        {i : ℕ} {e : Str} {c d : PeerScore F} {cs : List (PeerScore F)} {res : InferenceResult}
        → gateway i c.capability.gateway_url req ctx ≡ err e
        → Answers (suc i) cs d res
        → Answers i (c ∷ cs) d res

  -- The loop returns the answer of the first candidate that gives one; it fails exactly when all
  -- fail, with the error of the last.
  pub try_peers_first :
      (now : ℕ) (cs : List (PeerScore F)) (s : ClientService F) (i : ℕ) (last : Option Str)
      → ((d : PeerScore F) × (res : InferenceResult) × Answers i cs d res
          × ((try_peers fl s gateway req ctx now cs i last).1 ≡ ok res))
        ⊎ ((e : Option Str) × AllFail i last cs e
            × ((try_peers fl s gateway req ctx now cs i last).1 ≡ err (all_peers_failed e)))
  unfolding try_peers
  try_peers_first now [] s i last = inr (last, nobody, refl)
  try_peers_first now (c ∷ cs) s i last =
      elim (Result-cases (gateway i c.capability.gateway_url req ctx)) [
        | inl (res, e) ↦ inl (c, res, answered e, rw (e, try_peers) refl)
        | inr (x, e) ↦
            rw (e, try_peers)
              (later x e (
                try_peers_first now cs (penalize_peer fl s c.capability.peer_id (fl.milli 100))
                  (suc i) (some x)))
      ]
    where
      later :
          (x : Str)
          → gateway i c.capability.gateway_url req ctx ≡ err x
          → let r =
              (try_peers fl
                (penalize_peer fl s c.capability.peer_id (fl.milli 100))
                gateway
                req
                ctx
                now
                cs
                (suc i)
                (some x)).1 in
            ((d : PeerScore F) × (res : InferenceResult) × Answers (suc i) cs d res × (r ≡ ok res))
              ⊎ ((e : Option Str) × AllFail (suc i) (some x) cs e × (r ≡ err (all_peers_failed e)))
            → ((d : PeerScore F) × (res : InferenceResult) × Answers i (c ∷ cs) d res
                × (r ≡ ok res))
              ⊎ ((e : Option Str) × AllFail i last (c ∷ cs) e × (r ≡ err (all_peers_failed e)))
      later x e (inl (d, res, a, q)) = inl (d, res, next e a, q)
      later x e (inr (y, a, q)) = inr (y, failed e a, q)
