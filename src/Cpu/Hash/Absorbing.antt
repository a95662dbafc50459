-- ===== src/Cpu/Hash/Absorbing.antt =====
-- No information is lost between the two numbers that the sponge absorbs.
use blue_space.Prelude.{ℕ, ◌%◌, ◌≡◌, sym, ◌∙◌, ap}
use blue_space.Gmp.{Gmp}
use blue_space.Constants.{mimc_p, mimc_c, mimc_p_pos}
use blue_space.Mimc.{absorb}
use blue_space.Mimc.Laws.{IsReduced, absorb_injective, permute_injective}
use blue_space.Cpu.Hash.{Sponge, inject, mix}
use blue_space.Cpu.Hash.Refinement.{halves, mix-halves, mix-inject}

module _ (g : Gmp) where
  -- Two reduced states that `mix` takes to the same halves have the same halves, whatever the key.
  pub mix_injective :
      (key : ℕ) (s t : Sponge)
      → IsReduced mimc_p (halves s)
      → IsReduced mimc_p (halves t)
      → halves (mix g key s) ≡ halves (mix g key t)
      → halves s ≡ halves t
  mix_injective key s t v w e =
      permute_injective mimc_p key mimc_p_pos mimc_c (halves s) (halves t) v w
        (sym (mix-halves g key s) ∙ e ∙ mix-halves g key t)

  -- From one reduced state, two numbers whose absorption leaves the same halves are congruent
  -- modulo P.
  pub inject_injective :
      (key x y : ℕ) (s t : Sponge)
      → IsReduced mimc_p (halves s)
      → halves s ≡ halves t
      → halves (mix g key (inject g s x)) ≡ halves (mix g key (inject g t y))
      → x % mimc_p ≡ y % mimc_p
  inject_injective key x y s t v same e =
      absorb_injective mimc_p key mimc_p_pos mimc_c (halves s) x y v (
        sym (mix-inject g key x s)
        ∙ e
        ∙ mix-inject g key y t
        ∙ ap (λ h. absorb mimc_p key mimc_c h y) (sym same))
