-- ===== src/Cpu/Hash.antt =====
-- miner-cpu/lib/hash.h and hash.cc. A function with output arguments returns what it leaves in them;
-- mpz_set and mpz_set_ui are assignments.
pub mod Absorbing
pub mod Coordinates
pub mod Refinement
pub mod Storage
use blue_space.Prelude.{ℕ, ◌^◌, ◌≡◌, Bool, ltb, List, [], ◌∷◌, if◌then◌else◌}
use blue_space.Prelude.Int.{ℤ, pos, ◌-ℤ◌, ltb_ℤ, leb_ℤ, to_u32}
use blue_space.Gmp.{Gmp}
use blue_space.Constants.{mimc_p, mimc_c}

-- MPZ_BIT_SIZE
abbrev pub mpz_bit_size : ℕ
mpz_bit_size = 512

-- The value after mpz_init2.
abbrev pub init_mpz : ℕ
init_mpz = 0

-- The value after mpz_realloc2, which sets a number that does not fit in the new space to 0.
unfoldable pub realloc_mpz : ℕ → ℕ
realloc_mpz n = if ltb n (2 ^ mpz_bit_size) then n else 0

pub record Sponge : Type 0 where
  pub l : ℕ
  pub r : ℕ
  pub snap_l : ℕ
  pub snap_r : ℕ
  pub t0 : ℕ
  pub t1 : ℕ
  pub t2 : ℕ
  pub t3 : ℕ
  pub t4 : ℕ

-- The constructor.
abbrev pub new_sponge : Sponge
new_sponge = record {
  l = init_mpz;
  r = init_mpz;
  snap_l = init_mpz;
  snap_r = init_mpz;
  t0 = init_mpz;
  t1 = init_mpz;
  t2 = init_mpz;
  t3 = init_mpz;
  t4 = init_mpz;
}

unfoldable pub reset : Sponge → Sponge
reset s = record s { l = 0; r = 0 }

unfoldable pub save : Sponge → Sponge
save s = record s { snap_l = s.l; snap_r = s.r }

unfoldable pub restore : Sponge → Sponge
restore s = record s { l = s.snap_l; r = s.snap_r }

unfoldable pub result : Sponge → ℕ
result s = s.l

module _ (g : Gmp) where
  open g use {mpz_add, mpz_sub_ui, mpz_tdiv_r, mpz_powm_ui, mpz_cmp}

  unfoldable pub wrap_coordinate : ℤ → ℕ
  wrap_coordinate c = if leb_ℤ (pos 0) c then to_u32 c else mpz_sub_ui mimc_p (to_u32 (pos 0 -ℤ c))

  -- The sum modulo P, and the scratch number t.
  unfoldable pub field_add : ℕ → ℕ → ℕ × ℕ
  field_add a b = let t = mpz_add a b in (mpz_tdiv_r t mimc_p, t)

  unfoldable pub fifth_power : ℕ → ℕ
  fifth_power n = mpz_powm_ui n 5 mimc_p

  unfoldable pub inject : Sponge → ℕ → Sponge
  inject s x = let (l, t0) = field_add s.l x in record s { l = l; t0 = t0 }

  -- The body of the loop of `mix`.
  unfoldable pub mix_round : ℕ → Sponge → ℕ → Sponge
  mix_round key s c =
      let (keyed, scratch) = field_add key s.l in
      let (added, _) = field_add keyed c in
      let powered = fifth_power added in
      let (sum, t2) = field_add powered s.r in
      record s { r = s.l; l = sum; t0 = powered; t1 = sum; t2 = t2 }

  unfoldable pub mix_rounds : ℕ → List ℕ → Sponge → Sponge
  mix_rounds key [] s = s
  mix_rounds key (c ∷ cs) s = mix_rounds key cs (mix_round key s c)

  -- What follows the loop.
  unfoldable pub mix_last : ℕ → Sponge → Sponge
  mix_last key s =
      let (keyed, scratch) = field_add key s.l in
      let powered = fifth_power keyed in
      let (sum, t2) = field_add powered s.r in record s { r = sum; t0 = sum; t1 = powered; t2 = t2 }

  unfoldable pub mix : ℕ → Sponge → Sponge
  mix key s = mix_last key (mix_rounds key mimc_c s)

  unfoldable pub is_planet : ℕ → ℕ → Bool
  is_planet planet_hash threshold = ltb_ℤ (mpz_cmp planet_hash threshold) (pos 0)
