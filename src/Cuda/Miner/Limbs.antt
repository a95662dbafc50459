-- ===== src/Cuda/Miner/Limbs.antt =====
-- `from_mpz` and `to_mpz`: a number as eight limbs of 32 bits, the lowest first.
use blue_space.Prelude.{
  ℕ, zero, suc, ◌+◌, ◌-◌, ◌*◌, ◌^◌, ◌≤◌, ◌<◌, ◌≡◌, refl, ◌∙◌, List, [], ◌∷◌, ◌++◌, length, ltb,
  arith, if◌then◌else◌, ltb_ge, lt→ltb, length-append,
}
use blue_space.Outcome.{Outcome, done, dies, exit_failure}

-- The number of which words are the digits in base 2 ^ 32.
abbrev pub word_value : List ℕ → ℕ
word_value [] = 0
word_value (w ∷ ws) = w + 2 ^ 32 * word_value ws

-- What `from_mpz` and `to_mpz` call of GMP, with words of 32 bits and the lowest first.
pub record GmpWords : Type 0 where
  -- The number of binary digits; 1 for zero.
  pub mpz_sizeinbase_2 : ℕ → ℕ
  pub mpz_export : ℕ → List ℕ
  pub mpz_import : List ℕ → ℕ
  pub sizeinbase_fits : (s k : ℕ) → 0 < k → s < 2 ^ k → mpz_sizeinbase_2 s ≤ k
  pub sizeinbase_exceeds : (s k : ℕ) → 2 ^ k ≤ s → k < mpz_sizeinbase_2 s
  pub export_value : (s : ℕ) → word_value (mpz_export s) ≡ s
  -- No more words than are needed.
  pub export_length : (s n : ℕ) → s < 2 ^ (32 * n) → length (mpz_export s) ≤ n
  pub import_value : (ws : List ℕ) → mpz_import ws ≡ word_value ws

-- BIT_SIZE / 32
abbrev pub limb_count : ℕ
limb_count = 8

-- `while (words < count) x[words++] = 0`, for the words that are missing.
unfoldable pub fill : ℕ → List ℕ → List ℕ
fill zero ws = ws
fill (suc n) ws = fill n (ws ++ 0 ∷ [])

module _ (g : GmpWords) where
  unfoldable pub from_mpz : ℕ → Outcome (List ℕ)
  from_mpz s =
      let words = g.mpz_export s in
      if ltb (limb_count * 32) (g.mpz_sizeinbase_2 s)
      then dies exit_failure
      else done (fill (limb_count - length words) words)

  unfoldable pub to_mpz : List ℕ → ℕ
  to_mpz limbs = g.mpz_import limbs

  word_value-append_zero : (ws : List ℕ) → word_value (ws ++ 0 ∷ []) ≡ word_value ws
  word_value-append_zero [] = omega arith
  word_value-append_zero (w ∷ ws) = omega (arith, word_value-append_zero ws)

  fill-value : (n : ℕ) (ws : List ℕ) → word_value (fill n ws) ≡ word_value ws
  unfolding fill
  fill-value zero ws = refl
  fill-value (suc n) ws = fill-value n (ws ++ 0 ∷ []) ∙ word_value-append_zero ws

  fill-length : (n : ℕ) (ws : List ℕ) → length (fill n ws) ≡ length ws + n
  unfolding fill
  fill-length zero ws = omega arith
  fill-length (suc n) ws = omega (arith, fill-length n (ws ++ 0 ∷ []), length-append ws (0 ∷ []))

  -- A number below 2 ^ 256 is converted to eight limbs, and converted back to itself.
  pub to_mpz-from_mpz :
      (s : ℕ)
      → s < 2 ^ 256
      → (limbs : List ℕ) × (from_mpz s ≡ done limbs)
        × (length limbs ≡ limb_count)
        × (to_mpz limbs ≡ s)
  unfolding from_mpz to_mpz
  to_mpz-from_mpz s h = (
    fill (limb_count - length (g.mpz_export s)) (g.mpz_export s),
    rw (ltb_ge 256 (g.mpz_sizeinbase_2 s) (g.sizeinbase_fits s 256 (omega arith) h)) refl,
    omega (
      arith,
      fill-length (limb_count - length (g.mpz_export s)) (g.mpz_export s),
      g.export_length s 8 h,
    ),
    g.import_value _ ∙ fill-value _ (g.mpz_export s) ∙ g.export_value s,
  )

  -- To convert a number of 2 ^ 256 or more ends the process.
  pub from_mpz_too_wide : (s : ℕ) → 2 ^ 256 ≤ s → from_mpz s ≡ dies exit_failure
  unfolding from_mpz
  from_mpz_too_wide s h = rw (lt→ltb 256 (g.mpz_sizeinbase_2 s) (g.sizeinbase_exceeds s 256 h)) refl
