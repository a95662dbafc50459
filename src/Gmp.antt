-- ===== src/Gmp.antt =====
-- The part of GMP that the CPU miner calls, with the behaviour that its manual documents. Every
-- integer that the callers build is non-negative, so an mpz_t is a number.
use blue_space.Prelude.{ℕ, ◌+◌, ◌-◌, ◌/◌, ◌%◌, ◌^◌, ◌≤◌, ◌<◌, ◌≡◌, String, ltb}
use blue_space.Prelude.Int.{ℤ, pos, ltb_ℤ}
use blue_space.Outcome.{Outcome, done, dies, division_by_zero}

pub record Gmp : Type 0 where
  pub mpz_add : ℕ → ℕ → ℕ
  pub mpz_sub_ui : ℕ → ℕ → ℕ
  pub mpz_tdiv_r : ℕ → ℕ → ℕ
  pub mpz_tdiv_q : ℕ → ℕ → Outcome ℕ
  pub mpz_powm_ui : ℕ → ℕ → ℕ → ℕ
  pub mpz_cmp : ℕ → ℕ → ℤ
  pub get_str : ℕ → String
  pub add_law : (a b : ℕ) → mpz_add a b ≡ a + b
  -- a - b, where that is no negative number.
  pub sub_ui_law : (a b : ℕ) → b ≤ a → mpz_sub_ui a b ≡ a - b
  pub tdiv_r_law : (n d : ℕ) → 0 < d → mpz_tdiv_r n d ≡ n % d
  pub tdiv_q_law : (n d : ℕ) → 0 < d → mpz_tdiv_q n d ≡ done (n / d)
  -- GMP divides by zero on purpose, which traps.
  pub tdiv_q_zero : (n : ℕ) → mpz_tdiv_q n 0 ≡ dies division_by_zero
  pub powm_ui_law : (b e m : ℕ) → 0 < m → mpz_powm_ui b e m ≡ b ^ e % m
  -- The sign of the result is that of a - b.
  pub cmp_law : (a b : ℕ) → ltb_ℤ (mpz_cmp a b) (pos 0) ≡ ltb a b
