-- ===== src/Control/Pow/Search.antt =====
-- What ValidatePoW accepts and what SolvePoW finds.
use gpuswarm.Common.{
  ℕ, zero, suc, ◌+◌, ◌≤◌, ◌<◌, Bool, true, false, Str, [], ◌∷◌, ◌==◌, length, ◌≡◌, refl, ap, arith,
  Bool-cases, inl, inr, ◌⊎◌, ◌↔◌,
}
use gpuswarm.Common.Int.{ℤ, pos, negsuc}
use gpuswarm.Control.Pow.{zeros, pow_hash, validate_pow, solve_from, solve_pow}

-- n zero characters in front of a text.
abbrev pub zero_run : ℕ → Str → Str
zero_run zero s = s
zero_run (suc n) s = b'0' ∷ zero_run n s

zeros-zero_run : (n : ℕ) (s : Str) → zeros n s ≡ true → (t : Str) × (s ≡ zero_run n t)
unfolding zeros
zeros-zero_run zero s h = (s, refl)
zeros-zero_run (suc n) [] h = cc
zeros-zero_run (suc n) (c ∷ s) h =
    let (t, e) = zeros-zero_run n s (ground arith) in (t, ground arith)

zero_run-zeros : (n : ℕ) (t : Str) → zeros n (zero_run n t) ≡ true
unfolding zeros
zero_run-zeros zero t = refl
zero_run-zeros (suc n) t = rw (zero_run-zeros n t) refl

length-zero_run : (n : ℕ) (t : Str) → length (zero_run n t) ≡ n + length t
length-zero_run zero t = omega arith
length-zero_run (suc n) t = omega (arith, length-zero_run n t)

module _ (hex_sha256 : Str → Str) (client_id model : Str) where
  valid_zero_run :
      (nonce n : ℕ)
      → validate_pow hex_sha256 client_id nonce model (pos (suc n)) ≡ true
      → (t : Str) × (pow_hash hex_sha256 client_id nonce model ≡ zero_run (suc n) t)
  unfolding validate_pow
  valid_zero_run nonce n h = zeros-zero_run (suc n) _ (ground arith)

  zero_run_valid :
      (nonce n : ℕ) (t : Str)
      → pow_hash hex_sha256 client_id nonce model ≡ zero_run (suc n) t
      → validate_pow hex_sha256 client_id nonce model (pos (suc n)) ≡ true
  unfolding validate_pow
  zero_run_valid nonce n t e = ground (
    arith,
    ap length e,
    ap (zeros (suc n)) e,
    length-zero_run (suc n) t,
    zero_run-zeros (suc n) t,
  )

  -- A nonce is valid at a difficulty of n + 1 exactly when the hash begins with n + 1 zeros; at a
  -- difficulty of 0 or less every nonce is.
  pub validate_pow_iff :
      (nonce n : ℕ)
      → ((validate_pow hex_sha256 client_id nonce model (pos (suc n)) ≡ true)
          ↔ ((t : Str) × (pow_hash hex_sha256 client_id nonce model ≡ zero_run (suc n) t)))
        × (validate_pow hex_sha256 client_id nonce model (pos 0) ≡ true)
        × (validate_pow hex_sha256 client_id nonce model (negsuc n) ≡ true)
  unfolding validate_pow
  validate_pow_iff nonce n =
      ((valid_zero_run nonce n, λ (t, e). zero_run_valid nonce n t e), refl, ground arith)

  -- What a search of the nonces below `top` may answer.
  abbrev pub Least : ℤ → ℕ → ℕ → ℕ × Bool → Type 0
  Least difficulty from top r =
      ((r.1 ≡ true)
        × (from ≤ r.0)
        × (r.0 < top)
        × (validate_pow hex_sha256 client_id r.0 model difficulty ≡ true)
        × ((k : ℕ)
            → from ≤ k
            → k < r.0
            → validate_pow hex_sha256 client_id k model difficulty ≡ false))
      ⊎ ((r ≡ (0, false))
          × ((k : ℕ)
              → from ≤ k
              → k < top
              → validate_pow hex_sha256 client_id k model difficulty ≡ false))

  solve_from-Least :
      (difficulty : ℤ) (rounds i : ℕ)
      → Least difficulty i (i + rounds) (solve_from hex_sha256 client_id model difficulty rounds i)
  unfolding solve_from
  solve_from-Least difficulty zero i = inr (refl, λ k h g. absurd (omega arith))
  solve_from-Least difficulty (suc rounds) i =
      elim (Bool-cases (validate_pow hex_sha256 client_id i model difficulty)) [
        | inl e ↦
            rw (e, solve_from)
              (inl (refl, omega arith, omega arith, e, λ k h g. absurd (omega arith)))
        | inr e ↦ rw (e, solve_from) (later e (solve_from-Least difficulty rounds (suc i)))
      ]
    where
      extend :
          validate_pow hex_sha256 client_id i model difficulty ≡ false
          → (top : ℕ)
          → ((k : ℕ)
              → suc i ≤ k
              → k < top
              → validate_pow hex_sha256 client_id k model difficulty ≡ false)
          → (k : ℕ) → i ≤ k
          → k < top
          → validate_pow hex_sha256 client_id k model difficulty ≡ false
      extend e top f k h g = elim (Bool-cases (i == k)) [
        | inl q ↦ let p : k ≡ i = ground arith in rw p e
        | inr q ↦ f k (ground arith) g
      ]

      later :
          validate_pow hex_sha256 client_id i model difficulty ≡ false
          → Least difficulty
              (suc i)
              (suc i + rounds)
              (solve_from hex_sha256 client_id model difficulty rounds (suc i))
          → Least difficulty i
              (i + suc rounds)
              (solve_from hex_sha256 client_id model difficulty rounds (suc i))
      later e (inl (a, b, c, d, f)) = inl (a, omega arith, omega arith, d, extend e _ f)
      later e (inr (a, f)) = inr (a, λ k h g. extend e (suc i + rounds) f k h (omega arith))

  solve_pow_search :
      (n max_iterations : ℕ)
      → solve_pow hex_sha256 client_id model (pos (suc n)) max_iterations
        ≡ solve_from hex_sha256 client_id model (pos (suc n)) max_iterations 0
  unfolding solve_pow
  solve_pow_search n max_iterations = ground arith

  zero_add : (m : ℕ) → 0 + m ≡ m
  zero_add m = omega arith

  -- At a difficulty above 0, SolvePoW finds the least valid nonce below maxIterations, and reports
  -- failure, with the nonce 0, exactly when none of them is valid.
  pub solve_pow-Least :
      (n max_iterations : ℕ)
      → Least
          (pos (suc n))
          0
          max_iterations
          (solve_pow hex_sha256 client_id model (pos (suc n)) max_iterations)
  solve_pow-Least n max_iterations =
      rw (solve_pow_search n max_iterations)
        (rw (zero_add max_iterations) at (solve_from-Least (pos (suc n)) max_iterations 0))
