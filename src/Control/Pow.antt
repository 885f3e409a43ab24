-- ===== src/Control/Pow.antt =====
-- internal/control/pow.go: proof of work. The hexadecimal SHA-256 of a text is an argument.
pub mod Search
use gpuswarm.Common.{
  ℕ, zero, suc, Bool, true, false, ◌&&◌, Option, none, some, Str, str, List, [], ◌∷◌, ◌++◌,
  if◌then◌else◌, ltb, ◌==◌, length,
}
use gpuswarm.Common.Int.{ℤ, pos, pos_part, leb_ℤ}
use gpuswarm.Common.Numbers.{format_uint}

-- The loop over hexHash[0 .. n-1]; `validate_pow` has checked that the text is that long.
unfoldable pub zeros : ℕ → Str → Bool
zeros zero s = true
zeros (suc n) [] = false
zeros (suc n) (c ∷ s) = (c == b'0') && zeros n s

module _ (hex_sha256 : Str → Str) where
  -- hexHash
  unfoldable pub pow_hash : Str → ℕ → Str → Str
  pow_hash client_id nonce model =
      hex_sha256 (client_id ++ (str ":" ++ (format_uint nonce ++ (str ":" ++ model))))

  unfoldable pub validate_pow : Str → ℕ → Str → ℤ → Bool
  unfolding pow_hash zeros
  validate_pow client_id nonce model difficulty =
      let hash = pow_hash client_id nonce model in
      if leb_ℤ difficulty (pos 0)
      then true
      else if ltb (length hash) (pos_part difficulty)
      then false
      else zeros (pos_part difficulty) hash

  -- The loop of SolvePoW with `rounds` iterations left, at the nonce i.
  unfoldable pub solve_from : Str → Str → ℤ → ℕ → ℕ → ℕ × Bool
  solve_from client_id model difficulty zero i = (0, false)
  solve_from client_id model difficulty (suc rounds) i =
      elim (validate_pow client_id i model difficulty) [
        | true ↦ (i, true)
        | false ↦ solve_from client_id model difficulty rounds (suc i)
      ]

  unfoldable pub solve_pow : Str → Str → ℤ → ℕ → ℕ × Bool
  solve_pow client_id model difficulty max_iterations =
      if leb_ℤ difficulty (pos 0)
      then (0, true)
      else solve_from client_id model difficulty max_iterations 0
