-- ===== src/Cuda/Agreement.antt =====
-- The two miners give a location the same number and the same hash, and find the same planets.
pub mod Interleaved
use native.Mathlib.Nat.{mod_self, mod-eq_of_lt}
use blue_space.Cuda.Hash.{subtract_while}
use blue_space.Prelude.{
  ◌+◌, ◌^◌, false, ltb_ge, ◌∙◌, ◌%◌, suc, refl, ℕ, ◌<◌, ◌/◌, ◌≡◌, ◌↔◌, ap, ap₂, sym, arith, Mem,
  List, [], inl, inr, subst,
}
use blue_space.Prelude.Int.{ltb_ℤ, ℤ, pos, to_u32, to_u32_lt, ◌-ℤ◌, ◌+ℤ◌, +ℤ_parts}
use blue_space.Outcome.{done}
use blue_space.Gmp.{Gmp}
use blue_space.Constants.{mimc_p, mimc_c, mimc_p_bounds, mimc_p_pos}
use blue_space.Footprint.{ChunkFootprint, PlanetLocation}
use blue_space.Mimc.{location_hash}
use blue_space.Cpu.Hash as CpuHash
use blue_space.Cpu.Mine as CpuMine
use blue_space.Cpu.Mine.{CpuMinerOptions, OpenMp, Job, Team, Reach}
use blue_space.Cpu.Mine.Planets as CpuPlanets
use blue_space.Cpu.Mine.Progress.{IsFinished}
use blue_space.Cpu.Mine.Correct.{job_of}
use blue_space.Cpu.Mine.Members.{IsPlanetOf, finished_result}
use blue_space.Cuda.Hash as CudaHash
use blue_space.Cuda.Cgbn.{Cgbn}
use blue_space.Cuda.Kernel.{Batch, KernelArgs}
use blue_space.Cuda.Grid.{CudaMinerOptions, threads}
use blue_space.Cuda.Miner.Collect.{Device, run_mine_batch}
use blue_space.Cuda.Miner.Mined.{OneBlock}
use blue_space.Cuda.Miner.Planets.{hash_of, location, mined_planets, mined-IsOfChunk}
use mathlib.Core.Logic.{∥∥₁_elim}
use mathlib.Core.Logic.Or
use mathlib.Core.Logic.{◌∨₁◌}
use mathlib.Core.List.{not-mem-nil}

-- What `CudaMiner::mine` hands to the launch, for a rarity that is not 0: the constants that
-- `initialize` loads, the threshold and the key.
unfoldable pub launch_args : CudaMinerOptions → ChunkFootprint → ℕ → ℕ → KernelArgs
launch_args options chunk rarity key = record {
  chunk = chunk;
  items_per_thread = options.thread_work_size;
  planet_threshold = mimc_p / rarity;
  key = key;
  mimc_p = mimc_p;
  mimc_c = mimc_c;
  tpi = threads options.threads_per_item;
}

module _ (g : Gmp) (b : Cgbn) where
  -- For every coordinate, the number of the host's wrap_coordinate is that of the device's.
  pub wrap_coordinate-eq-wrap_coordinate :
      (c : ℤ) → CpuHash.wrap_coordinate g c ≡ CudaHash.wrap_coordinate b c mimc_p
  unfolding CpuHash.wrap_coordinate CudaHash.wrap_coordinate
  wrap_coordinate-eq-wrap_coordinate c = ground (
    arith,
    to_u32_lt (pos 0 -ℤ c),
    mimc_p_bounds,
    g.sub_ui_law mimc_p (to_u32 (pos 0 -ℤ c)),
    b.sub_law mimc_p (to_u32 (pos 0 -ℤ c)),
  )

  -- Where a sum is P the two additions differ: the host gives 0 and the device P.
  pub field_add_differs :
      (x y : ℕ)
      → x + y ≡ mimc_p
      → ((CpuHash.field_add g x y).0 ≡ 0) × (CudaHash.field_add b x y mimc_p ≡ mimc_p)
  unfolding CpuHash.field_add CudaHash.field_add subtract_while
  field_add_differs x y e = (
    rw (g.add_law x y, e, g.tdiv_r_law mimc_p mimc_p mimc_p_pos) (mod_self mimc_p),
    ap (λ r. subtract_while b (suc (r / mimc_p)) r mimc_p) sum ∙ stays (mimc_p / mimc_p),
  )
    where
      sum : b.add x y ≡ mimc_p
      sum = b.add_law x y ∙ ap (λ n. n % 2 ^ 256) e ∙ mod-eq_of_lt (omega (arith, mimc_p_bounds))

      not_above : ltb_ℤ (pos 0) (b.compare mimc_p mimc_p) ≡ false
      not_above = b.compare_gt mimc_p mimc_p ∙ ltb_ge mimc_p mimc_p (omega arith)

      stays : (fuel : ℕ) → subtract_while b (suc fuel) mimc_p mimc_p ≡ mimc_p
      stays fuel = rw (not_above, subtract_while) refl

  module _ (device : Device) (options : CudaMinerOptions) (chunk : ChunkFootprint) (rarity key : ℕ)
      (set_up : OneBlock options (launch_args options chunk rarity key)) (batch : Batch) where
    abbrev a : KernelArgs
    a = launch_args options chunk rarity key

    abbrev pub cuda_hash : ℕ → ℕ → ℕ
    cuda_hash x y = hash_of b device options a set_up batch g.get_str x y

    abbrev pub cuda_location : ℕ → ℕ → PlanetLocation
    cuda_location x y = location b device options a set_up batch g.get_str x y

    -- It is at a location of the chunk, and is that location with its hash unless the hash is 0.
    abbrev pub IsOfChunk : PlanetLocation → Type 0
    IsOfChunk p =
        (x : ℕ) × (y : ℕ) × (x < chunk.side_length)
        × (y < chunk.side_length)
        × (p.coordinate ≡ (cuda_location x y).coordinate)
        × (0 < cuda_hash x y → p ≡ cuda_location x y)

    hash_of-eq-hash_at :
        (x y : ℕ)
        → cuda_hash x y
          ≡ CpuPlanets.hash_at g key (chunk.bottom_left.x +ℤ pos x) (chunk.bottom_left.y +ℤ pos y)
    unfolding launch_args
    hash_of-eq-hash_at x y =
        ap₂ (location_hash mimc_p key mimc_c)
          (sym (wrap_coordinate-eq-wrap_coordinate (chunk.bottom_left.x +ℤ pos x)))
          (sym (wrap_coordinate-eq-wrap_coordinate (chunk.bottom_left.y +ℤ pos y)))

    IsPlanetOf-location :
        (x y : ℕ)
        → x < chunk.side_length
        → y < chunk.side_length
        → cuda_hash x y < mimc_p / rarity
        → IsPlanetOf g (job_of chunk rarity key) (cuda_location x y)
    unfolding launch_args
    IsPlanetOf-location x y hx hy rare = record {
      in_columns = omega (arith, +ℤ_parts chunk.bottom_left.x (pos x));
      in_rows = omega (arith, +ℤ_parts chunk.bottom_left.y (pos y));
      rare = subst (λ n. n < mimc_p / rarity) (hash_of-eq-hash_at x y) rare;
      hashed = ap g.get_str (hash_of-eq-hash_at x y);
    }

    none_old : (x y : ℕ) → ¬ Mem (cuda_location x y) []
    none_old x y m = not-mem-nil m

    -- A list with the locations whose hash is below the threshold has those that the CPU miner finds.
    pub found-agrees :
        (omp : OpenMp) (cpu_options : CpuMinerOptions) (job : Job) (s t : Team)
        (found : List PlanetLocation) (x y : ℕ)
        → CpuMine.mine g omp cpu_options chunk rarity key [] ≡ done (job, s)
        → Reach g job s t
        → IsFinished g job t
        → x < chunk.side_length
        → y < chunk.side_length
        → Mem (cuda_location x y) found
          ↔ (Mem (cuda_location x y) [] ∨₁ cuda_hash x y < mimc_p / rarity)
        → Mem (cuda_location x y) found ↔ Mem (cuda_location x y) t.result
    unfolding launch_args
    found-agrees omp cpu_options job s t found x y started run finished hx hy gpu =
        let cpu =
          finished_result g omp cpu_options chunk rarity key [] job s t started run finished
            (cuda_location x y) in
        (
          λ m. ∥∥₁_elim (gpu.0 m) squash₁ λ side. elim side [
            | inl old ↦ absurd (none_old x y old)
            | inr rare ↦ cpu.1 (Or.inr (IsPlanetOf-location x y hx hy rare))
          ],
          λ m. ∥∥₁_elim (cpu.0 m) squash₁ λ side. elim side [
            | inl old ↦ absurd (none_old x y old)
            | inr planet ↦ gpu.1 (
                Or.inr
                  (subst (λ n. n < mimc_p / rarity) (sym (hash_of-eq-hash_at x y)) planet.rare))
          ],
        )

    -- Where no product of the configuration wraps, the key is up to P, and the chunk has a side
    -- below 2 ^ 16 and at most as many rows as a block, and where the CPU miner gets to its
    -- parallel region: the CUDA run returns, and a location of the chunk whose hash is not 0 is in
    -- what it returns exactly if it is in the result of any finished run of the CPU miner, both
    -- from an empty result. What it returns is at locations of the chunk, and is the location with
    -- its hash unless that is 0.
    pub same_planets :
        (omp : OpenMp) (cpu_options : CpuMinerOptions) (job : Job) (s t : Team)
        → CpuMine.mine g omp cpu_options chunk rarity key [] ≡ done (job, s)
        → Reach g job s t
        → IsFinished g job t
        → (found : List PlanetLocation) × (run_mine_batch g.get_str b device options
              (launch_args options chunk rarity key)
              batch
              []
            ≡ done found)
          × ((x y : ℕ)
              → x < chunk.side_length
              → y < chunk.side_length
              → 0 < cuda_hash x y
              → Mem (cuda_location x y) found ↔ Mem (cuda_location x y) t.result)
          × ((p : PlanetLocation) → Mem p found → ∥ IsOfChunk p ∥₁)
    unfolding launch_args
    same_planets omp cpu_options job s t started run finished =
        let (found, returned, cuda) = mined_planets b device options a set_up batch g.get_str [] in
        (
          found,
          returned,
          λ x y hx hy positive.
              found-agrees omp cpu_options job s t found x y started run finished hx hy
                (cuda x y hx hy positive),
          mined-IsOfChunk b device options a set_up batch g.get_str found returned,
        )
