-- ===== src/P2p/Sources/Retries.antt =====
-- When a peer that did not answer is asked again, and which addresses are tried.
use gpuswarm.Common.{
  ℕ, ◌+◌, true, false, not, Str, str_eq, str_eq_refl, List, [], ◌∷◌, filter, filter-All, All,
  length, ltb, ◌≡◌, refl, ◌⊎◌, inl, inr, arith, Bool-cases,
}
use gpuswarm.Common.Maps.{lookup-insert, lookup-delete}
use gpuswarm.P2p.Sources.{
  RetryAfter, due, should_query, mark_query_failure, mark_query_success, is_relay,
  prioritize_relay_addrs,
}

-- A peer that failed at the time t is asked again from t plus 30 seconds on, and from the next answer
-- on; and neither changes when another peer is asked.
pub retry_rule :
    (r : RetryAfter) (pid other : Str) (t now : ℕ)
    → (should_query (mark_query_failure r pid t) pid now ≡ not (ltb now (t + 30_000_000_000)))
      × (should_query (mark_query_success r pid) pid now ≡ true)
      × ((str_eq pid other ≡ true)
          ⊎ ((should_query (mark_query_failure r pid t) other now ≡ should_query r other now)
              × (should_query (mark_query_success r pid) other now ≡ should_query r other now)))
unfolding should_query due mark_query_failure mark_query_success
retry_rule r pid other t now = (
  ground (arith, lookup-insert pid pid (t + 30_000_000_000) r, str_eq_refl pid),
  ground (arith, lookup-delete pid pid r, str_eq_refl pid),
  elim (Bool-cases (str_eq pid other)) [
    | inl e ↦ inl e
    | inr e ↦ inr (
      ground (arith, lookup-insert pid other (t + 30_000_000_000) r, e),
      ground (arith, lookup-delete pid other r, e),
    )
  ],
)

no_relays :
    (xs : List Str)
    → ltb 0 (length (filter is_relay xs)) ≡ false
    → filter (λ a. not (is_relay a)) xs ≡ xs
no_relays [] h = refl
no_relays (x ∷ xs) h = elim (Bool-cases (is_relay x)) [
  | inl e ↦ let k = rw e at h in absurd (ground arith)
  | inr e ↦ let k = rw e at h in rw (e, no_relays xs k) refl
]

-- If one address goes through a relay, those that do are left, and no other; if none does, all are.
pub prioritize-All :
    (addrs : List Str)
    → ((ltb 0 (length (prioritize_relay_addrs addrs)) ≡ true)
        × All (λ a. is_relay a ≡ true) (prioritize_relay_addrs addrs))
      ⊎ ((prioritize_relay_addrs addrs ≡ addrs) × All (λ a. is_relay a ≡ false) addrs)
unfolding prioritize_relay_addrs
prioritize-All addrs = elim (Bool-cases (ltb 0 (length (filter is_relay addrs)))) [
  | inl e ↦ rw e (inl (e, filter-All is_relay addrs))
  | inr e ↦ rw e (inr (no_relays addrs e, none_relay addrs e))
]
  where
    none_relay :
        (xs : List Str)
        → ltb 0 (length (filter is_relay xs)) ≡ false
        → All (λ a. is_relay a ≡ false) xs
    none_relay [] h = tt
    none_relay (x ∷ xs) h = elim (Bool-cases (is_relay x)) [
      | inl e ↦ let k = rw e at h in absurd (ground arith)
      | inr e ↦ let k = rw e at h in (e, none_relay xs k)
    ]
