-- ===== src/Cuda/Mine/Planets.antt =====
-- A call of `CudaMiner::mine` next to a run of `CpuMiner::mine`.
use blue_space.Prelude.{ℕ, ◌^◌, ◌<◌, ◌≡◌, ◌↔◌, ap, ◌∙◌, List, [], Mem}
use blue_space.Outcome.{done, ◌>>=◌}
use blue_space.Gmp.{Gmp}
use blue_space.Footprint.{PlanetLocation, ChunkFootprint}
use blue_space.Cpu.Mine as CpuMine
use blue_space.Cpu.Mine.{CpuMinerOptions, OpenMp, Job, Team, Reach}
use blue_space.Cpu.Mine.Progress.{IsFinished}
use blue_space.Cuda.Cgbn.{Cgbn}
use blue_space.Cuda.Kernel.{Batch}
use blue_space.Cuda.Miner.Limbs.{GmpWords}
use blue_space.Cuda.Miner.Cache.{Platform}
use blue_space.Cuda.Miner.Collect.{Device}
use blue_space.Cuda.Miner.Mined.{OneBlock}
use blue_space.Cuda.Agreement.{launch_args, cuda_hash, cuda_location, IsOfChunk, same_planets}
use blue_space.Cuda.Mine.{CudaMiner, mine}
use blue_space.Cuda.Mine.Ready.{IsReady, mine-IsReady}

module _ (words : GmpWords) (g : Gmp) (b : Cgbn) (platform : Platform) (device : Device) where
  -- A miner that is ready, at a rarity that is not 0 and a key of 32 bits, on a chunk with a side
  -- below 2 ^ 16 and at most as many rows as a block, where no product of the configuration wraps:
  -- `mine` returns, the miner is ready again, and of the locations of the chunk whose hash is not 0
  -- it has found those that are in the result of any finished run of the CPU miner on the chunk,
  -- both from an empty result, and whatever device memory held; and whatever it has found is at a
  -- location of the chunk, and is that location with its hash unless the hash is 0.
  pub mine_same_planets :
      (batch : Batch) (miner : CudaMiner) (chunk : ChunkFootprint) (rarity key : ℕ)
      (set_up : OneBlock miner.options (launch_args miner.options chunk rarity key)) (omp : OpenMp)
      (cpu_options : CpuMinerOptions) (job : Job) (s t : Team)
      → IsReady platform miner
      → 0 < rarity
      → key < 2 ^ 32
      → CpuMine.mine g omp cpu_options chunk rarity key [] ≡ done (job, s)
      → Reach g job s t
      → IsFinished g job t
      → let place = cuda_location g b device miner.options chunk rarity key set_up batch in
        (after : CudaMiner) × (found : List PlanetLocation) × (mine words g b platform device batch
            miner chunk rarity key []
          ≡ done (after, found))
        × IsReady platform after
        × ((x y : ℕ)
            → x < chunk.side_length
            → y < chunk.side_length
            → 0 < cuda_hash g b device miner.options chunk rarity key set_up batch x y
            → Mem (place x y) found ↔ Mem (place x y) t.result)
        × ((p : PlanetLocation)
            → Mem p found
            → ∥ IsOfChunk g b device miner.options chunk rarity key set_up batch p ∥₁)
  mine_same_planets batch miner chunk rarity key set_up omp cpu_options job s t v positive narrow
        started run finished =
      let (after, returns, ready, _, _) =
        mine-IsReady words g b platform device batch miner chunk rarity key [] v positive narrow in
      let (found, mined, same, inside) =
        same_planets g b device miner.options chunk rarity key set_up batch omp cpu_options job s t
          started run finished in
      (after, found, returns ∙ ap (λ o. o >>= λ f. done (after, f)) mined, ready, same, inside)
