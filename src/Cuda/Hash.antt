-- ===== src/Cuda/Hash.antt =====
-- miner-cuda/lib/miner.cu, the device functions: coordinates, field arithmetic and the sponge. An
-- output argument is returned; `P`, `C` and `C_size` are arguments, as in the source.
pub mod Field
pub mod Refinement
use blue_space.Prelude.{ℕ, zero, suc, ◌/◌, ◌≡◌, Bool, true, false, List, [], ◌∷◌, if◌then◌else◌}
use blue_space.Prelude.Int.{ℤ, pos, ◌-ℤ◌, ltb_ℤ, leb_ℤ, to_u32}
use blue_space.Cuda.Cgbn.{Cgbn}

pub record Sponge : Type 0 where
  pub l : ℕ
  pub r : ℕ
  pub snap_l : ℕ
  pub snap_r : ℕ
  pub t0 : ℕ
  pub t1 : ℕ
  pub t2 : ℕ
  pub t3 : ℕ
  pub t4 : ℕ

unfoldable pub reset : Sponge → Sponge
reset s = record s { l = 0; r = 0 }

unfoldable pub save : Sponge → Sponge
save s = record s { snap_l = s.l; snap_r = s.r }

unfoldable pub restore : Sponge → Sponge
restore s = record s { l = s.snap_l; r = s.snap_r }

unfoldable pub result : Sponge → ℕ
result s = s.l

module _ (b : Cgbn) where
  open b use {add, sub, compare, mul_wide, rem_wide}

  unfoldable pub wrap_coordinate : ℤ → ℕ → ℕ
  wrap_coordinate c p = if leb_ℤ (pos 0) c then to_u32 c else sub p (to_u32 (pos 0 -ℤ c))

  -- `while (env.compare(r, p) > 0)`, with `fuel` rounds at most.
  unfoldable pub subtract_while : ℕ → ℕ → ℕ → ℕ
  subtract_while zero r p = r
  subtract_while (suc fuel) r p = elim (ltb_ℤ (pos 0) (compare r p)) [
    | true ↦ subtract_while fuel (sub r p) p
    | false ↦ r
  ]

  unfoldable pub field_add : ℕ → ℕ → ℕ → ℕ
  field_add x y p = let r = add x y in subtract_while (suc (r / p)) r p

  unfoldable pub field_mul : ℕ → ℕ → ℕ → ℕ
  field_mul x y p = rem_wide (mul_wide x y) p

  -- The power, and the two temporaries s and f.
  unfoldable pub fifth_power : ℕ → ℕ → ℕ × ℕ × ℕ
  fifth_power n p = let s = field_mul n n p in let f = field_mul s s p in (field_mul f n p, s, f)

  unfoldable pub inject : Sponge → ℕ → ℕ → Sponge
  inject s x p = record s { l = field_add s.l x p }

  -- The body of the loop of `mix`.
  unfoldable pub mix_round : ℕ → ℕ → Sponge → ℕ → Sponge
  mix_round key p s c =
      let keyed = field_add key s.l p in
      let added = field_add keyed c p in
      let (powered, t2, t3) = fifth_power added p in
      let sum = field_add powered s.r p in
      record s { r = s.l; l = sum; t0 = powered; t1 = sum; t2 = t2; t3 = t3 }

  unfoldable pub mix_rounds : ℕ → ℕ → List ℕ → Sponge → Sponge
  mix_rounds key p [] s = s
  mix_rounds key p (c ∷ cs) s = mix_rounds key p cs (mix_round key p s c)

  unfoldable pub mix_last : ℕ → ℕ → Sponge → Sponge
  mix_last key p s =
      let keyed = field_add key s.l p in
      let (powered, t2, t3) = fifth_power keyed p in
      let sum = field_add powered s.r p in
      record s { r = sum; t0 = sum; t1 = powered; t2 = t2; t3 = t3 }

  unfoldable pub mix : ℕ → List ℕ → ℕ → Sponge → Sponge
  mix key cs p s = mix_last key p (mix_rounds key p cs s)
