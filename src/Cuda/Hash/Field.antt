-- ===== src/Cuda/Hash/Field.antt =====
-- The device's field arithmetic, on numbers up to and including P.
use blue_space.Prelude.{
  ℕ, zero, suc, ◌+◌, ◌-◌, ◌*◌, ◌/◌, ◌%◌, ◌^◌, ◌≤◌, ◌<◌, ◌≡◌, refl, sym, ap, ◌∙◌, inl, inr, arith,
  Bool-cases, ltb→lt, le_of_ltb,
}
use blue_space.Prelude.Int.{ltb_ℤ, pos}
use blue_space.Prelude.Modular.{mod-mul-mod, mul-mod-mod}
use blue_space.Cuda.Cgbn.{Cgbn}
use blue_space.Cuda.Hash.{subtract_while, field_add, field_mul, fifth_power}
use native.Mathlib.Nat.{
  mod-eq-sub-mod, mod-lt, mod-add-div, mod-eq_of_lt, pow-suc, pow-zero, mul-lt-mul_of_pos_left,
  div-lt_iff_lt-mul,
}

fifth_power_factors : (n : ℕ) → n ^ 5 ≡ n * n * (n * n) * n
fifth_power_factors n =
    pow-suc n 4
    ∙ ap (λ t. t * n)
        (pow-suc n 3
          ∙ ap (λ t. t * n)
              (pow-suc n 2 ∙ ap (λ t. t * n) (pow-suc n 1 ∙ ap (λ t. t * n) (pow-suc n 0)))
          ∙ rw (pow-zero n) (omega arith))

-- The modulus leaves two bits of a 256-bit number free.
module _ (b : Cgbn) (p : ℕ) (positive : 0 < p) (small : p + p < 2 ^ 256) where
  sub-eq : (r : ℕ) → p ≤ r → r < 2 ^ 256 → b.sub r p ≡ r - p
  sub-eq r h k = omega (arith, b.sub_law r p)

  product_bound : (x y : ℕ) → x ≤ p → y ≤ p → x * y < p * 2 ^ 256
  product_bound x y hx hy = grind (arith, mul-lt-mul_of_pos_left {m = y} {n = 2 ^ 256} {k = p})

  subtract_while_lem :
      (fuel r : ℕ)
      → r ≤ fuel * p
      → r < 2 ^ 256
      → (subtract_while b fuel r p ≤ p) × (subtract_while b fuel r p % p ≡ r % p)
  unfolding subtract_while
  subtract_while_lem zero r h k = (omega arith, refl)
  subtract_while_lem (suc fuel) r h k = elim (Bool-cases (ltb_ℤ (pos 0) (b.compare r p))) [
    | inl above ↦
        let over : p < r = ltb→lt p r (sym (b.compare_gt r p) ∙ above) in
        let (within, same) = subtract_while_lem fuel (r - p) (omega arith) (omega arith) in
        rw (above, subtract_while, sub-eq r (omega arith) k)
          (within, same ∙ sym (mod-eq-sub-mod (omega arith)))
    | inr within ↦
        rw (within, subtract_while) (le_of_ltb p r (sym (b.compare_gt r p) ∙ within), refl)
  ]

  -- For a modulus below 2 ^ 255 and operands up to the modulus, the device's sum is up to the
  -- modulus and congruent to the sum.
  pub field_add_lem :
      (x y : ℕ) → x ≤ p → y ≤ p → (field_add b x y p ≤ p) × (field_add b x y p % p ≡ (x + y) % p)
  unfolding field_add
  field_add_lem x y hx hy =
      rw (b.add_law x y, mod-eq_of_lt {n = x + y} {m = 2 ^ 256} (omega arith))
        (subtract_while_lem (suc ((x + y) / p)) (x + y)
          (omega (arith, mod-add-div (x + y) p, mod-lt (x + y) positive)) (omega arith))

  pub field_mul_lem : (x y : ℕ) → x ≤ p → y ≤ p → field_mul b x y p ≡ x * y % p
  unfolding field_mul
  field_mul_lem x y hx hy =
      ap (λ w. b.rem_wide w p) (b.mul_wide_law x y (omega arith) (omega arith))
      ∙ (b.rem_wide_law (x * y) p positive
          ((div-lt_iff_lt-mul (omega arith)).1 (product_bound x y hx hy)))

  reduced : (m : ℕ) → m % p ≤ p
  reduced m = omega (arith, mod-lt m positive)

  square-mod : (m : ℕ) → m % p * (m % p) % p ≡ m * m % p
  square-mod m = mod-mul-mod p m (m % p) ∙ mul-mod-mod p m m

  pub fifth_power_lem : (n : ℕ) → n ≤ p → (fifth_power b n p).0 ≡ n ^ 5 % p
  unfolding fifth_power
  fifth_power_lem n h =
      ap (λ s. field_mul b (field_mul b s s p) n p) (field_mul_lem n n h h)
      ∙ ap (λ f. field_mul b f n p)
          (field_mul_lem (n * n % p) (n * n % p) (reduced (n * n)) (reduced (n * n))
            ∙ square-mod (n * n))
      ∙ field_mul_lem (n * n * (n * n) % p) n (reduced (n * n * (n * n))) h
      ∙ mod-mul-mod p (n * n * (n * n)) n
      ∙ ap (λ t. t % p) (sym (fifth_power_factors n))
