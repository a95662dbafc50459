-- ===== src/Cuda/Cgbn.antt =====
-- The part of CGBN that the device code calls, at 256 bits, with the behaviour that its
-- documentation gives. A number of the library is one below 2 ^ 256; a wide one is below 2 ^ 512.
use blue_space.Prelude.{ℕ, ◌+◌, ◌-◌, ◌*◌, ◌/◌, ◌%◌, ◌^◌, ◌<◌, ◌≡◌, ltb}
use blue_space.Prelude.Int.{ℤ, pos, ltb_ℤ}

pub record Cgbn : Type 0 where
  pub add : ℕ → ℕ → ℕ
  pub sub : ℕ → ℕ → ℕ
  pub compare : ℕ → ℕ → ℤ
  pub mul_wide : ℕ → ℕ → ℕ
  pub rem_wide : ℕ → ℕ → ℕ
  -- The carry out of the top limb is lost, and so is a borrow.
  pub add_law : (a b : ℕ) → add a b ≡ (a + b) % 2 ^ 256
  pub sub_law : (a b : ℕ) → a < 2 ^ 256 → b < 2 ^ 256 → sub a b ≡ (a + 2 ^ 256 - b) % 2 ^ 256
  pub compare_gt : (a b : ℕ) → ltb_ℤ (pos 0) (compare a b) ≡ ltb b a
  pub compare_lt : (a b : ℕ) → ltb_ℤ (compare a b) (pos 0) ≡ ltb a b
  pub mul_wide_law : (a b : ℕ) → a < 2 ^ 256 → b < 2 ^ 256 → mul_wide a b ≡ a * b
  -- The divisor must exceed the top half of the dividend.
  pub rem_wide_law : (w d : ℕ) → 0 < d → w / 2 ^ 256 < d → rem_wide w d ≡ w % d
