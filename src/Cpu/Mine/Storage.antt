-- ===== src/Cpu/Mine/Storage.antt =====
-- miner-cpu/lib/miner.cc, the numbers that `mine` gives 512 bits.
use blue_space.Prelude.{
  ℕ, ◌/◌, ◌^◌, ◌<◌, ◌≡◌, refl, ◌∙◌, some, List, [], ◌∷◌, map, subst, arith, All, All-weaken, zero,
  suc,
}
use blue_space.Prelude.Int.{ℤ}
use blue_space.Outcome.{Outcome, done, ◌>>=◌}
use blue_space.Gmp.{Gmp}
use blue_space.Constants.{mimc_p, mimc_p_bounds}
use blue_space.Footprint.{PlanetLocation, ChunkFootprint}
use blue_space.Cpu.Hash.{mpz_bit_size, realloc_mpz, Sponge, reset, restore, wrap_coordinate}
use blue_space.Cpu.Hash.Coordinates.{wrap_coordinate-le}
use blue_space.Cpu.Hash.Storage.{
  realloc_mpz_fits, IsStored, numbers, IsStored-bound, new_sponge-IsStored, reset-IsStored,
  save-IsStored, restore-IsStored, inject-IsStored, mix-IsStored,
}
use blue_space.Cpu.Mine.{
  CpuMinerOptions, OpenMp, Worker, Job, Team, coordinates, new_worker, team_size, start_column,
  visit, advance, mine, Reach,
}
use blue_space.Cpu.Mine.Invariants.{worker, Reach-All_workers}
use blue_space.Cpu.Mine.Correct.{mine-eq-done}
use native.Mathlib.Nat.{div-le_self}
use mathlib.Core.Option.{some-injective}

module _ (g : Gmp) where
  -- `mine` up to the parallel region, with the reallocation of the numbers that the threads read.
  unfoldable pub stored_mine :
      OpenMp → CpuMinerOptions → ChunkFootprint → ℕ → ℕ → List PlanetLocation → Outcome (Job × Team)
  stored_mine omp options chunk rarity key result = do
    threshold ← g.mpz_tdiv_q mimc_p rarity
    let key_ = realloc_mpz key
    let threshold_ = realloc_mpz threshold
    let columns = coordinates chunk.bottom_left.x chunk.side_length
    let shares = omp.share (team_size options) columns
    done (
      record { chunk = chunk; threshold = threshold_; key = key_ },
      record { workers = map new_worker shares; result = result },
    )

  stored_mine_lem :
      (omp : OpenMp) (options : CpuMinerOptions) (chunk : ChunkFootprint) (rarity key : ℕ)
      (result : List PlanetLocation)
      → key < 2 ^ 32
      → stored_mine omp options chunk rarity key result ≡ mine g omp options chunk rarity key result
  unfolding stored_mine mine
  stored_mine_lem omp options chunk zero key result h = rw (g.tdiv_q_zero mimc_p) refl
  stored_mine_lem omp options chunk (suc n) key result h =
      rw (g.tdiv_q_law mimc_p (suc n) (omega arith)) (
        rw
          (
            realloc_mpz_fits key (omega arith),
            realloc_mpz_fits (mimc_p / suc n)
                (omega (arith, div-le_self mimc_p (suc n), mimc_p_bounds)),
          )
          refl)

  advance-IsStored :
      (job : Job) (s : Sponge) (x : ℤ) (ys xs : List ℤ) (r : Worker × List PlanetLocation)
      → IsStored s
      → advance g job (worker s x ys xs) ≡ some r
      → IsStored r.0.sponge
  unfolding advance start_column visit
  advance-IsStored job s x [] [] r h e = absurd (cc e)
  advance-IsStored job s x [] (x' ∷ xs) r h e =
      subst (λ (m : Worker × List PlanetLocation). IsStored m.0.sponge) (some-injective _ _ e)
        (save-IsStored _ (
          mix-IsStored g job.key _ (
            inject-IsStored g (reset s) (wrap_coordinate g x') (wrap_coordinate-le g x')
              (reset-IsStored s h))))
  advance-IsStored job s x (y ∷ ys) xs r h e =
      subst (λ (m : Worker × List PlanetLocation). IsStored m.0.sponge) (some-injective _ _ e)
        (mix-IsStored g job.key _ (
          inject-IsStored g (restore s) (wrap_coordinate g y) (wrap_coordinate-le g y)
            (restore-IsStored s h)))

  new_worker-IsStored :
      (shares : List (List ℤ)) → All (λ (w : Worker). IsStored w.sponge) (map new_worker shares)
  unfolding new_worker
  new_worker-IsStored [] = tt
  new_worker-IsStored (xs ∷ shares) = (new_sponge-IsStored, new_worker-IsStored shares)

  -- With a key of 32 bits: the reallocation of the key and of the threshold loses neither, and
  -- wherever a run is, each of the nine numbers of each worker's sponge fits in the 512 bits that are
  -- allocated for it.
  pub runs_stored :
      (omp : OpenMp) (options : CpuMinerOptions) (chunk : ChunkFootprint) (rarity key : ℕ)
      (result : List PlanetLocation) (job : Job) (s t : Team)
      → key < 2 ^ 32
      → mine g omp options chunk rarity key result ≡ done (job, s)
      → Reach g job s t
      → (stored_mine omp options chunk rarity key result ≡ done (job, s))
        × All (λ (w : Worker). All (λ n. n < 2 ^ mpz_bit_size) (numbers w.sponge)) t.workers
  runs_stored omp options chunk rarity key result job s t h e r =
      let (same_job, same_team) = mine-eq-done g omp options chunk rarity key result job s e in
      let start =
        subst (λ (u : Team). All (λ (w : Worker). IsStored w.sponge) u.workers) same_team
          (new_worker-IsStored _) in
      (
        stored_mine_lem omp options chunk rarity key result h ∙ e,
        All-weaken t.workers (λ w. IsStored-bound w.sponge)
            (Reach-All_workers g (λ w. IsStored w.sponge) (advance-IsStored job) r start),
      )
