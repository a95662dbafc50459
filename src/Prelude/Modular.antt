-- ===== src/Prelude/Modular.antt =====
-- Remainders by a fixed modulus: products, powers, cancellation, and one subtraction in place of a
-- division.
use Prim.Native.Nat.{ℕ, zero, suc, ◌+◌, ◌-◌, ◌*◌, ◌/◌, ◌%◌, ◌^◌, ◌≤◌, ◌<◌}
use mathlib.Core.Path.{◌≡◌, sym, ap, ◌∙◌}
use native.Mathlib.Decide.{dec_lt}
use native.Mathlib.Omega.{arith}
use native.Mathlib.Nat.{
  mod-add-mod, mod-lt, mod-eq_of_lt, mod-eq-sub-mod, mod-add-div, add-mul-mod_self_left, mul_comm,
  pow-zero, pow-suc,
}

module _ (p : ℕ) where
  pub mod-mul-mod : (a b : ℕ) → a % p * b % p ≡ a * b % p
  mod-mul-mod a b =
      sym (add-mul-mod_self_left (a % p * b) p (a / p * b))
      ∙ ap (λ t. t % p) (omega (arith, ap (λ (t : ℕ). t * b) (mod-add-div a p)))

  pub mul-mod-mod : (a b : ℕ) → a * (b % p) % p ≡ a * b % p
  mul-mod-mod a b = rw (mul_comm a (b % p), mul_comm a b) (mod-mul-mod b a)

  pub pow-mod : (a e : ℕ) → (a % p) ^ e % p ≡ a ^ e % p
  pow-mod a zero = rw (pow-zero (a % p), pow-zero a)
  pow-mod a (suc e) =
      rw (pow-suc (a % p) e, pow-suc a e)
        (sym (mod-mul-mod ((a % p) ^ e) (a % p))
          ∙ ap (λ t. t * (a % p) % p) (pow-mod a e)
          ∙ mod-mul-mod (a ^ e) (a % p)
          ∙ mul-mod-mod (a ^ e) a)

  pub mod_once : (n : ℕ) → p ≤ n → n < p + p → n % p ≡ n - p
  mod_once n h k = mod-eq-sub-mod h ∙ mod-eq_of_lt (omega arith)

  -- Adding a fixed number is injective on the reduced elements.
  pub add-mod_cancel : (c a b : ℕ) → a < p → b < p → (c + a) % p ≡ (c + b) % p → a ≡ b
  add-mod_cancel c a b ha hb h =
      shifted (c % p) (mod-lt c (omega arith)) (mod-add-mod c p a ∙ h ∙ sym (mod-add-mod c p b))
    where
      shifted : (d : ℕ) → d < p → (d + a) % p ≡ (d + b) % p → a ≡ b
      shifted d hd e = elim (dec_lt (d + a) p) [
        | yes u ↦ elim (dec_lt (d + b) p) [
          | yes v ↦ omega (arith, mod-eq_of_lt u, mod-eq_of_lt v, e)
          | no v ↦ omega (arith, mod-eq_of_lt u, mod_once (d + b) (omega arith) (omega arith), e)
        ]
        | no u ↦ elim (dec_lt (d + b) p) [
          | yes v ↦ omega (arith, mod-eq_of_lt v, mod_once (d + a) (omega arith) (omega arith), e)
          | no v ↦ omega (
            arith,
            mod_once (d + a) (omega arith) (omega arith),
            mod_once (d + b) (omega arith) (omega arith),
            e,
          )
        ]
      ]
