-- ===== src/Cpu/Hash/Coordinates.antt =====
-- Which number stands for a coordinate: its residue, as long as it lies within 32 bits.
use blue_space.Prelude.{ℕ, suc, ◌+◌, ◌%◌, ◌^◌, ◌≤◌, ◌<◌, ◌≡◌, sym, ap, ◌∙◌, arith}
use blue_space.Prelude.Int.{ℤ, pos, negsuc, pos_part, neg_part, ◌-ℤ◌, to_u32}
use blue_space.Gmp.{Gmp}
use blue_space.Constants.{mimc_p, mimc_p_bounds}
use blue_space.Cpu.Hash.{wrap_coordinate}
use native.Mathlib.Nat.{mod_self, zero-mod}

-- The coordinate and its opposite both fit in a uint32_t.
abbrev pub IsNarrow : ℤ → Type 0
IsNarrow c = (pos_part c < 2 ^ 32) × (neg_part c < 2 ^ 32)

module _ (g : Gmp) where
  pub wrap_coordinate-pos : (n : ℕ) → wrap_coordinate g (pos n) ≡ n % 2 ^ 32
  unfolding wrap_coordinate to_u32
  wrap_coordinate-pos n = ground arith

  pub wrap_coordinate-negsuc : (n : ℕ) → wrap_coordinate g (negsuc n) + suc n % 2 ^ 32 ≡ mimc_p
  unfolding wrap_coordinate to_u32 ◌-ℤ◌
  wrap_coordinate-negsuc n = ground (arith, g.sub_ui_law mimc_p (suc n % 2 ^ 32), mimc_p_bounds)

  -- The number that stands for a coordinate never exceeds P, so it fits in 254 bits.
  pub wrap_coordinate-le : (c : ℤ) → wrap_coordinate g c ≤ mimc_p
  wrap_coordinate-le (pos n) = omega (arith, wrap_coordinate-pos n, mimc_p_bounds)
  wrap_coordinate-le (negsuc n) = omega (arith, wrap_coordinate-negsuc n)

  -- The number that stands for a coordinate whose absolute value fits in 32 bits is below P and
  -- congruent to the coordinate modulo P.
  pub wrap_coordinate_residue :
      (c : ℤ)
      → IsNarrow c
      → (wrap_coordinate g c < mimc_p)
        × ((wrap_coordinate g c + neg_part c) % mimc_p ≡ pos_part c % mimc_p)
  wrap_coordinate_residue (pos n) h = (
    omega (arith, wrap_coordinate-pos n, mimc_p_bounds),
    ap (λ t. t % mimc_p) (omega (arith, wrap_coordinate-pos n)),
  )
  wrap_coordinate_residue (negsuc n) h = (
    omega (arith, wrap_coordinate-negsuc n),
    ap (λ t. t % mimc_p) (omega (arith, wrap_coordinate-negsuc n))
        ∙ mod_self mimc_p
        ∙ sym (zero-mod mimc_p),
  )

  -- Two coordinates whose absolute values fit in 32 bits and that stand for one number are the same.
  pub wrap_coordinate_injective :
      (c d : ℤ) → IsNarrow c → IsNarrow d → wrap_coordinate g c ≡ wrap_coordinate g d → c ≡ d
  wrap_coordinate_injective (pos m) (pos n) h k e =
      ground (arith, wrap_coordinate-pos m, wrap_coordinate-pos n)
  wrap_coordinate_injective (pos m) (negsuc n) h k e =
      ground (arith, wrap_coordinate-pos m, wrap_coordinate-negsuc n, mimc_p_bounds)
  wrap_coordinate_injective (negsuc m) (pos n) h k e =
      ground (arith, wrap_coordinate-negsuc m, wrap_coordinate-pos n, mimc_p_bounds)
  wrap_coordinate_injective (negsuc m) (negsuc n) h k e =
      ground (arith, wrap_coordinate-negsuc m, wrap_coordinate-negsuc n)

  -- The cast to 32 bits makes coordinates alias: any coordinate and the one 2 ^ 32 further from zero
  -- stand for one number.
  pub wrap_coordinate_aliases :
      (n : ℕ)
      → (wrap_coordinate g (pos (n + 2 ^ 32)) ≡ wrap_coordinate g (pos n))
        × (wrap_coordinate g (negsuc (n + 2 ^ 32)) ≡ wrap_coordinate g (negsuc n))
  wrap_coordinate_aliases n = (
    omega (arith, wrap_coordinate-pos (n + 2 ^ 32), wrap_coordinate-pos n),
    omega (arith, wrap_coordinate-negsuc (n + 2 ^ 32), wrap_coordinate-negsuc n),
  )
