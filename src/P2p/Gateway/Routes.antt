-- ===== src/P2p/Gateway/Routes.antt =====
-- How an answer was reached, and what the cache says of it.
use mathlib.Core.List.{Mem, mem-cons_self, mem-cons_of_mem}
use gpuswarm.Common.{
  ℕ, suc, false, ◌||◌, Option, none, some, Str, str, str_eq, str_eq_iff, str_eq_refl, is_empty,
  has_prefix, trim_prefix, List, [], ◌∷◌, Result, ok, err, Result-cases, Option-cases, Bool-cases,
  ◌≡◌, ◌≢◌, refl, ap, ◌∙◌, ◌⊎◌, inl, inr, arith,
}
use gpuswarm.Common.Maps.{GoMap, lookup, insert, lookup-insert}
use gpuswarm.Model.{ChatCompletionRequest}
use gpuswarm.P2p.Gateway.{
  answer_of, by_proxy_route, try_cached, try_bootstrap, try_anew, reach, proxy_route,
}

module _ {A : Type 0} (decode : Str → Result Str Str)
    (direct : ℕ → Str → ChatCompletionRequest → Result Str A)
    (proxy : ℕ → Str → Str → ChatCompletionRequest → Result Str A) where
  -- The peer pid answered with res, and `routes` is what the cache `before` has become.
  pub data Reached (before : GoMap Str) (self pid : Str) (req : ChatCompletionRequest)
      (bps : List Str) (res : A) : GoMap Str → Type 0 where
    cached :
        (route : Str)
        → lookup pid before ≡ some route
        → try_cached decode direct proxy (some route) pid req ≡ some res
        → Reached before self pid req bps res before
    directly :
        direct 1 pid req ≡ ok res
        → Reached before self pid req bps res (insert pid (str "direct") before)
    through :
        (bp : Str) (i : ℕ)
        → Mem bp bps
        → bp ≢ []
        → bp ≢ self
        → bp ≢ pid
        → proxy i bp pid req ≡ ok res
        → Reached before self pid req bps res (insert pid (proxy_route bp) before)

  further :
      {before : GoMap Str} {self pid : Str} {req : ChatCompletionRequest} {bps : List Str} {res : A}
      {after : GoMap Str} (bp : Str)
      → Reached before self pid req bps res after
      → Reached before self pid req (bp ∷ bps) res after
  further bp (cached route e f) = cached route e f
  further bp (directly e) = directly e
  further bp (through b i m a s p e) = through b i (mem-cons_of_mem bp m) a s p e

  tried :
      (bp self pid : Str)
      → (is_empty bp || str_eq bp self || str_eq bp pid) ≡ false
      → (bp ≢ []) × (bp ≢ self) × (bp ≢ pid)
  unfolding is_empty
  tried bp self pid h = (
    λ e. ground (arith, e),
    λ e. ground (arith, (str_eq_iff bp self).1 e),
    λ e. ground (arith, (str_eq_iff bp pid).1 e),
  )

  try_bootstrap-Reached :
      (routes : GoMap Str) (self pid : Str) (req : ChatCompletionRequest) (bps : List Str) (i : ℕ)
      (last_err : Option Str) (res : A)
      → (try_bootstrap decode direct proxy routes self pid req bps i last_err).1 ≡ ok res
      → Reached routes self pid req bps res
          (try_bootstrap decode direct proxy routes self pid req bps i last_err).0
  unfolding try_bootstrap
  try_bootstrap-Reached routes self pid req [] i none res h = cc
  try_bootstrap-Reached routes self pid req [] i (some e) res h = cc
  try_bootstrap-Reached routes self pid req (bp ∷ bps) i last_err res h =
      elim (Bool-cases (is_empty bp || str_eq bp self || str_eq bp pid)) [
        | inl s ↦
            rw (s, try_bootstrap)
              (further bp (
                try_bootstrap-Reached routes self pid req bps i last_err res
                  (rw (s, try_bootstrap) at h)))
        | inr s ↦ elim (Result-cases (proxy i bp pid req)) [
          | inl (r, e) ↦
              let h' = rw (s, e, try_bootstrap) at h in
              let q : r ≡ res = cc h' in
              let (a, b, c) = tried bp self pid s in
              rw (s, e, try_bootstrap) (through bp i mem-cons_self a b c (rw q at e))
          | inr (x, e) ↦
              rw (s, e, try_bootstrap)
                (further bp (
                  try_bootstrap-Reached routes self pid req bps (suc i) (some x) res
                    (rw (s, e, try_bootstrap) at h)))
        ]
      ]

  try_bootstrap_failed :
      (routes : GoMap Str) (self pid : Str) (req : ChatCompletionRequest) (bps : List Str) (i : ℕ)
      (last_err : Option Str) (x : Str)
      → (try_bootstrap decode direct proxy routes self pid req bps i last_err).1 ≡ err x
      → (try_bootstrap decode direct proxy routes self pid req bps i last_err).0 ≡ routes
  unfolding try_bootstrap
  try_bootstrap_failed routes self pid req [] i none x h = refl
  try_bootstrap_failed routes self pid req [] i (some e) x h = refl
  try_bootstrap_failed routes self pid req (bp ∷ bps) i last_err x h =
      elim (Bool-cases (is_empty bp || str_eq bp self || str_eq bp pid)) [
        | inl s ↦
            rw (s, try_bootstrap)
              (try_bootstrap_failed routes self pid req bps i last_err x
                (rw (s, try_bootstrap) at h))
        | inr s ↦ elim (Result-cases (proxy i bp pid req)) [
          | inl (r, e) ↦ let h' = rw (s, e, try_bootstrap) at h in cc h'
          | inr (y, e) ↦
              rw (s, e, try_bootstrap)
                (try_bootstrap_failed routes self pid req bps (suc i) (some y) x
                  (rw (s, e, try_bootstrap) at h))
        ]
      ]

  -- What a call leaves: an error and the cache as it was, or an answer and how it was reached.
  abbrev pub Settled :
      (before : GoMap Str) (self pid : Str) (req : ChatCompletionRequest) (bps : List Str)
      → GoMap Str × Result Str A
      → Type 0
  Settled before self pid req bps r =
      ((x : Str) × (r.1 ≡ err x) × (r.0 ≡ before))
      ⊎ ((res : A) × (r.1 ≡ ok res) × Reached before self pid req bps res r.0)

  anew-Settled :
      (routes : GoMap Str) (self pid : Str) (req : ChatCompletionRequest) (bps : List Str)
      → Settled routes self pid req bps (try_anew decode direct proxy routes self pid req bps)
  unfolding try_anew
  anew-Settled routes self pid req bps = elim (Result-cases (direct 1 pid req)) [
    | inl (r, e) ↦ rw (e, try_anew) (inr (r, refl, directly e))
    | inr (y, e) ↦
        rw (e, try_anew)
          (elim (Result-cases
            (try_bootstrap decode direct proxy routes self pid req bps 2 none).1) [
              | inl (r, f) ↦ inr (r, f, try_bootstrap-Reached routes self pid req bps 2 none r f)
              | inr (x, f) ↦ inl (x, f, try_bootstrap_failed routes self pid req bps 2 none x f)
            ])
  ]

  cached-Settled :
      (routes : GoMap Str) (self pid : Str) (req : ChatCompletionRequest) (bps : List Str)
      (o : Option Str) (res : A)
      → lookup pid routes ≡ o
      → try_cached decode direct proxy o pid req ≡ some res
      → Settled routes self pid req bps (routes, ok res)
  unfolding try_cached
  cached-Settled routes self pid req bps none res e h = cc
  cached-Settled routes self pid req bps (some route) res e h = inr (res, refl, cached route e h)

  -- A call that fails leaves the cache as it was. A call that succeeds was answered over the route in
  -- the cache, which stays; or directly, or through a bootstrap peer that is neither this node nor the
  -- peer itself, and then the cache has that route for the peer, and is otherwise as it was.
  pub reach-Settled :
      (routes : GoMap Str) (self pid : Str) (req : ChatCompletionRequest) (bps : List Str)
      → Settled routes self pid req bps (reach decode direct proxy routes self pid req bps)
  unfolding reach
  reach-Settled routes self pid req bps =
      elim (Option-cases (try_cached decode direct proxy (lookup pid routes) pid req)) [
        | inl e ↦ rw (e, reach) (anew-Settled routes self pid req bps)
        | inr (res, e) ↦ rw (e, reach) (cached-Settled routes self pid req bps _ res refl e)
      ]

  cached_wins :
      (routes : GoMap Str) (self pid route : Str) (req : ChatCompletionRequest) (bps : List Str)
      (res : A)
      → lookup pid routes ≡ some route
      → try_cached decode direct proxy (some route) pid req ≡ some res
      → reach decode direct proxy routes self pid req bps ≡ (routes, ok res)
  unfolding reach
  cached_wins routes self pid route req bps res e f =
      let g : try_cached decode direct proxy (lookup pid routes) pid req ≡ some res =
        ap (λ o. try_cached decode direct proxy o pid req) e ∙ f in
      rw (g, reach) refl

  remembered :
      (pid route : Str) (routes : GoMap Str) → lookup pid (insert pid route routes) ≡ some route
  remembered pid route routes = rw (lookup-insert pid pid route routes, str_eq_refl pid) refl

  -- The route that a call remembered is the one that the next call for the peer takes, while it
  -- answers: a proxy if peer.Decode reads the peer ID back.
  pub remembered_route :
      (routes : GoMap Str) (self pid bp : Str) (req : ChatCompletionRequest) (bps : List Str)
      (res res' : A)
      → direct 0 pid req ≡ ok res
      → decode bp ≡ ok bp
      → proxy 0 bp pid req ≡ ok res'
      → let near = insert pid (str "direct") routes in
        let far = insert pid (proxy_route bp) routes in
        (reach decode direct proxy near self pid req bps ≡ (near, ok res))
        × (reach decode direct proxy far self pid req bps ≡ (far, ok res'))
  unfolding try_cached by_proxy_route answer_of str_eq has_prefix trim_prefix
  remembered_route routes self pid bp req bps res res' d c p = (
    cached_wins (insert pid (str "direct") routes) self pid (str "direct") req bps res
        (remembered pid (str "direct") routes) (ap answer_of d),
    cached_wins (insert pid (proxy_route bp) routes) self pid (proxy_route bp) req bps res'
        (remembered pid (proxy_route bp) routes) (rw c (ap answer_of p)),
  )
