-- ===== src/Cpu/Hash/Storage.antt =====
-- miner-cpu/lib/hash.cc: how large the numbers of a sponge get, which have MPZ_BIT_SIZE bits.
use blue_space.Prelude.{ℕ, ◌+◌, ◌*◌, ◌^◌, ◌≤◌, ◌<◌, ◌≡◌, List, [], ◌∷◌, arith, All}
use blue_space.Gmp.{Gmp}
use blue_space.Constants.{mimc_p, mimc_c, mimc_p_bounds, mimc_p_pos}
use blue_space.Cpu.Hash.{
  mpz_bit_size, realloc_mpz, Sponge, new_sponge, reset, save, restore, field_add, fifth_power,
  inject, mix_round, mix_rounds, mix_last, mix,
}

pub realloc_mpz_fits : (n : ℕ) → n < 2 ^ mpz_bit_size → realloc_mpz n ≡ n
unfolding realloc_mpz
realloc_mpz_fits n h = ground arith

-- The halves and the snapshots are elements of the field, and the temporaries are below two of them.
abbrev pub IsStored : Sponge → Type 0
IsStored s =
    All (λ n. n < mimc_p) (s.l ∷ s.r ∷ s.snap_l ∷ s.snap_r ∷ [])
    × All (λ n. n < 2 * mimc_p) (s.t0 ∷ s.t1 ∷ s.t2 ∷ s.t3 ∷ s.t4 ∷ [])

pub new_sponge-IsStored : IsStored new_sponge
new_sponge-IsStored = omega (arith, mimc_p_pos)

pub reset-IsStored : (s : Sponge) → IsStored s → IsStored (reset s)
unfolding reset
reset-IsStored s h = omega (arith, mimc_p_pos)

pub save-IsStored : (s : Sponge) → IsStored s → IsStored (save s)
unfolding save
save-IsStored s h = omega arith

pub restore-IsStored : (s : Sponge) → IsStored s → IsStored (restore s)
unfolding restore
restore-IsStored s h = omega arith

module _ (g : Gmp) where
  field_add_lt : (a b : ℕ) → (field_add g a b).0 < mimc_p
  unfolding field_add
  field_add_lt a b = rw (g.tdiv_r_law (g.mpz_add a b) mimc_p mimc_p_pos) (omega (arith, mimc_p_pos))

  field_add-sum : (a b : ℕ) → (field_add g a b).1 ≡ a + b
  unfolding field_add
  field_add-sum a b = g.add_law a b

  fifth_power_lt : (n : ℕ) → fifth_power g n < mimc_p
  unfolding fifth_power
  fifth_power_lt n = rw (g.powm_ui_law n 5 mimc_p mimc_p_pos) (omega (arith, mimc_p_pos))

  pub inject-IsStored : (s : Sponge) (x : ℕ) → x ≤ mimc_p → IsStored s → IsStored (inject g s x)
  unfolding inject
  inject-IsStored s x h stored = omega (arith, field_add_lt s.l x, field_add-sum s.l x)

  mix_round-IsStored : (key : ℕ) (s : Sponge) (c : ℕ) → IsStored s → IsStored (mix_round g key s c)
  unfolding mix_round
  mix_round-IsStored key s c stored =
      let powered = fifth_power g (field_add g (field_add g key s.l).0 c).0 in
      omega (
        arith,
        fifth_power_lt (field_add g (field_add g key s.l).0 c).0,
        field_add_lt powered s.r,
        field_add-sum powered s.r,
      )

  mix_rounds-IsStored :
      (key : ℕ) (cs : List ℕ) (s : Sponge) → IsStored s → IsStored (mix_rounds g key cs s)
  unfolding mix_rounds
  mix_rounds-IsStored key [] s stored = stored
  mix_rounds-IsStored key (c ∷ cs) s stored =
      mix_rounds-IsStored key cs (mix_round g key s c) (mix_round-IsStored key s c stored)

  mix_last-IsStored : (key : ℕ) (s : Sponge) → IsStored s → IsStored (mix_last g key s)
  unfolding mix_last
  mix_last-IsStored key s stored =
      let powered = fifth_power g (field_add g key s.l).0 in
      omega (
        arith,
        fifth_power_lt (field_add g key s.l).0,
        field_add_lt powered s.r,
        field_add-sum powered s.r,
      )

  pub mix-IsStored : (key : ℕ) (s : Sponge) → IsStored s → IsStored (mix g key s)
  unfolding mix
  mix-IsStored key s stored =
      mix_last-IsStored key (mix_rounds g key mimc_c s) (mix_rounds-IsStored key mimc_c s stored)

abbrev pub numbers : Sponge → List ℕ
numbers s = s.l ∷ s.r ∷ s.snap_l ∷ s.snap_r ∷ s.t0 ∷ s.t1 ∷ s.t2 ∷ s.t3 ∷ s.t4 ∷ []

pub IsStored-bound : (s : Sponge) → IsStored s → All (λ n. n < 2 ^ mpz_bit_size) (numbers s)
IsStored-bound s h = omega (arith, mimc_p_bounds)
