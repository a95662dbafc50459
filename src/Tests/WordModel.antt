-- ===== src/Tests/WordModel.antt =====
-- An instance of the words of GMP.
use blue_space.Prelude.{
  ℕ, zero, suc, ◌+◌, ◌*◌, ◌/◌, ◌%◌, ◌^◌, ◌≤◌, ◌<◌, ◌≡◌, refl, List, [], ◌∷◌, arith, ltb, ltb_ge,
  lt→ltb, length, if◌then◌else◌, dec_lt, ap, ◌∙◌, sym,
}
use blue_space.Cuda.Miner.Limbs.{GmpWords, word_value}
use native.Mathlib.Nat.{pow-suc, pow-zero, mul_assoc}

abbrev binary_digits : ℕ → ℕ → ℕ
binary_digits zero s = 1
binary_digits (suc fuel) s =
    let rest = binary_digits fuel (s / 2) in if ltb s 2 then 1 else suc rest

abbrev words : ℕ → ℕ → List ℕ
words zero s = []
words (suc fuel) s = let rest = words fuel (s / 2 ^ 32) in if ltb 0 s then s % 2 ^ 32 ∷ rest else []

half_lt : (k s : ℕ) → s < 2 ^ suc k → s / 2 < 2 ^ k
half_lt k s h = omega (arith, pow-suc 2 k)

half_ge : (k s : ℕ) → 2 ^ suc k ≤ s → 2 ^ k ≤ s / 2
half_ge k s h = omega (arith, pow-suc 2 k)

pow_pos : (k : ℕ) → 0 < 2 ^ k
pow_pos zero = omega arith
pow_pos (suc k) = omega (arith, pow-suc 2 k, pow_pos k)

pub digits_fit : (fuel s k : ℕ) → 0 < k → s < 2 ^ k → binary_digits fuel s ≤ k
digits_fit zero s k h below = omega arith
digits_fit (suc fuel) s zero h below = absurd (omega arith)
digits_fit (suc fuel) s (suc zero) h below = rw (lt→ltb s 2 (omega arith)) (omega arith)
digits_fit (suc fuel) s (suc (suc k)) h below =
    ground (arith, digits_fit fuel (s / 2) (suc k) (omega arith) (half_lt (suc k) s below))

pub digits_exceed : (fuel s k : ℕ) → s ≤ fuel → 2 ^ k ≤ s → k < binary_digits fuel s
digits_exceed zero s k h above = absurd (omega (arith, pow_pos k))
digits_exceed (suc fuel) s zero h above = ground arith
digits_exceed (suc fuel) s (suc k) h above =
    rw (ltb_ge s 2 (omega (arith, pow-suc 2 k, pow_pos k)))
      (omega (arith, digits_exceed fuel (s / 2) k (omega arith) (half_ge k s above)))

pub words_value : (fuel s : ℕ) → s ≤ fuel → word_value (words fuel s) ≡ s
words_value zero s h = omega arith
words_value (suc fuel) s h = elim (dec_lt 0 s) [
  | yes some_word ↦
      rw (lt→ltb 0 s some_word) (omega (arith, words_value fuel (s / 2 ^ 32) (omega arith)))
  | no none_left ↦ rw (ltb_ge 0 s (omega arith)) (omega arith)
]

pow_add : (k d : ℕ) → 2 ^ (k + d) ≡ 2 ^ k * 2 ^ d
pow_add k zero =
    let e : k + 0 ≡ k = omega arith in
    ap (λ n. 2 ^ n) e ∙ omega (arith, ap (λ n. 2 ^ k * n) (pow-zero 2))
pow_add k (suc d) =
    let e : k + suc d ≡ suc (k + d) = omega arith in
    ap (λ n. 2 ^ n) e
    ∙ pow-suc 2 (k + d)
    ∙ ap (λ n. n * 2) (pow_add k d)
    ∙ mul_assoc (2 ^ k) (2 ^ d) 2
    ∙ ap (λ n. 2 ^ k * n) (sym (pow-suc 2 d))

next_word : (n : ℕ) → 2 ^ (32 * suc n) ≡ 2 ^ (32 * n) * 2 ^ 32
next_word n = ap (λ k. 2 ^ k) (omega arith) ∙ pow_add (32 * n) 32

pub length-words : (fuel s n : ℕ) → s < 2 ^ (32 * n) → length (words fuel s) ≤ n
length-words zero s n h = omega arith
length-words (suc fuel) s zero h = rw (ltb_ge 0 s (omega (arith, pow-zero 2))) (omega arith)
length-words (suc fuel) s (suc n) h =
    ground (arith, length-words fuel (s / 2 ^ 32) n (omega (arith, h, next_word n)))

abbrev pub gmp_words : GmpWords
gmp_words = record {
  mpz_sizeinbase_2 = λ s. binary_digits s s;
  mpz_export = λ s. words s s;
  mpz_import = λ ws. word_value ws;
  sizeinbase_fits = λ s k h below. digits_fit s s k h below;
  sizeinbase_exceeds = λ s k above. digits_exceed s s k (omega arith) above;
  export_value = λ s. words_value s s (omega arith);
  export_length = λ s n h. length-words s s n h;
  import_value = λ ws. refl;
}
