-- ===== src/Cpu/Hash/Refinement.antt =====
-- The sponge with its temporaries computes the permutation of `Mimc`.
use blue_space.Prelude.{ℕ, ◌+◌, ◌%◌, ◌^◌, ◌≡◌, refl, ap, ◌∙◌, List, [], ◌∷◌}
use blue_space.Prelude.Modular.{pow-mod}
use blue_space.Gmp.{Gmp}
use blue_space.Constants.{mimc_p, mimc_c, mimc_p_pos}
use blue_space.Mimc.{Halves, feistel_round, feistel_rounds, last_round, permute, absorb}
use blue_space.Cpu.Hash.{
  Sponge, field_add, fifth_power, inject, mix_round, mix_rounds, mix_last, mix,
}
use native.Mathlib.Nat.{mod-add-mod}

abbrev pub halves : Sponge → Halves
halves s = record { l = s.l; r = s.r }

module _ (g : Gmp) where
  field_add_lem : (a b : ℕ) → (field_add g a b).0 ≡ (a + b) % mimc_p
  unfolding field_add
  field_add_lem a b = rw (g.add_law a b) (g.tdiv_r_law (a + b) mimc_p mimc_p_pos)

  fifth_power_lem : (n : ℕ) → fifth_power g n ≡ n ^ 5 % mimc_p
  unfolding fifth_power
  fifth_power_lem n = g.powm_ui_law n 5 mimc_p mimc_p_pos

  -- Adding into a power that was reduced on the way.
  power_add :
      (n k r : ℕ) → n ≡ k % mimc_p → (field_add g (fifth_power g n) r).0 ≡ (k ^ 5 + r) % mimc_p
  power_add n k r e =
      field_add_lem (fifth_power g n) r
      ∙ ap (λ t. (t + r) % mimc_p)
          (fifth_power_lem n ∙ ap (λ t. t ^ 5 % mimc_p) e ∙ pow-mod mimc_p k 5)
      ∙ mod-add-mod (k ^ 5) mimc_p r

  mix_round-halves :
      (key : ℕ) (s : Sponge) (c : ℕ)
      → halves (mix_round g key s c) ≡ feistel_round mimc_p key (halves s) c
  unfolding mix_round feistel_round
  mix_round-halves key s c = λ i. record { l = sum i; r = s.l }
    where
      sum :
          (field_add g (fifth_power g (field_add g (field_add g key s.l).0 c).0) s.r).0
          ≡ ((key + s.l + c) ^ 5 + s.r) % mimc_p
      sum = power_add _ (key + s.l + c) s.r (
          field_add_lem _ c
          ∙ ap (λ t. (t + c) % mimc_p) (field_add_lem key s.l)
          ∙ mod-add-mod (key + s.l) mimc_p c)

  mix_rounds-halves :
      (key : ℕ) (cs : List ℕ) (s : Sponge)
      → halves (mix_rounds g key cs s) ≡ feistel_rounds mimc_p key cs (halves s)
  unfolding mix_rounds feistel_rounds
  mix_rounds-halves key [] s = refl
  mix_rounds-halves key (c ∷ cs) s =
      mix_rounds-halves key cs (mix_round g key s c)
      ∙ ap (feistel_rounds mimc_p key cs) (mix_round-halves key s c)

  mix_last-halves :
      (key : ℕ) (s : Sponge) → halves (mix_last g key s) ≡ last_round mimc_p key (halves s)
  unfolding mix_last last_round
  mix_last-halves key s = λ i. record { l = s.l; r = sum i }
    where
      sum :
          (field_add g (fifth_power g (field_add g key s.l).0) s.r).0
          ≡ ((key + s.l) ^ 5 + s.r) % mimc_p
      sum = power_add _ (key + s.l) s.r (field_add_lem key s.l)

  pub mix-halves :
      (key : ℕ) (s : Sponge) → halves (mix g key s) ≡ permute mimc_p key mimc_c (halves s)
  unfolding mix permute
  mix-halves key s =
      mix_last-halves key _ ∙ ap (last_round mimc_p key) (mix_rounds-halves key mimc_c s)

  -- `inject` and then `mix` leave the halves that the MiMC sponge of the specification has after
  -- it absorbs the number, whatever stands in the temporaries.
  pub mix-inject :
      (key x : ℕ) (s : Sponge)
      → halves (mix g key (inject g s x)) ≡ absorb mimc_p key mimc_c (halves s) x
  unfolding inject absorb
  mix-inject key x s =
      mix-halves key _
      ∙ ap (λ l. permute mimc_p key mimc_c (record { l = l; r = s.r })) (field_add_lem s.l x)
