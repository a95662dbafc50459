-- ===== src/Cuda/Agreement/Interleaved.antt =====
-- The two miners, with the threads of both at once.
use blue_space.Prelude.{ℕ, ◌<◌, ◌≡◌, ◌↔◌, Mem, []}
use blue_space.Outcome.{done}
use blue_space.Gmp.{Gmp}
use blue_space.Footprint.{ChunkFootprint}
use blue_space.Cpu.Mine as CpuMine
use blue_space.Cpu.Mine.{CpuMinerOptions, OpenMp, Job, Team, Reach}
use blue_space.Cpu.Mine.Progress.{IsFinished}
use blue_space.Cuda.Cgbn.{Cgbn}
use blue_space.Cuda.Kernel.{Batch, KernelArgs}
use blue_space.Cuda.Kernel.Interleaving.{Launch, start_launch, LaunchReach, IsOver}
use blue_space.Cuda.Grid.{CudaMinerOptions}
use blue_space.Cuda.Grid.Coverage.{size}
use blue_space.Cuda.Miner.Memory.{batch_size}
use blue_space.Cuda.Miner.Collect.{Device, collect}
use blue_space.Cuda.Miner.Mined.{OneBlock}
use blue_space.Cuda.Miner.Interleaved.{interleaved_planets}
use blue_space.Cuda.Agreement.{launch_args, cuda_hash, cuda_location, found-agrees}

module _ (g : Gmp) (b : Cgbn) (device : Device) (options : CudaMinerOptions)
    (chunk : ChunkFootprint) (rarity key : ℕ)
    (set_up : OneBlock options (launch_args options chunk rarity key)) (batch : Batch) where
  abbrev a : KernelArgs
  a = launch_args options chunk rarity key

  -- The launch on the chunk, with what device memory holds.
  abbrev pub launch_of : Launch
  launch_of =
      start_launch b a (device.schedule (size options a.chunk.side_length set_up.fits)) batch

  -- Where no product of the configuration wraps, the key is up to P, and the chunk has a side below
  -- 2 ^ 16 and at most as many rows as a block, and where the CPU miner gets to its parallel region:
  -- in whatever order the threads of the CPU have taken their steps to the end, and in whatever order
  -- those of the device have done theirs, a location of the chunk whose hash is not 0 is collected
  -- from the batch exactly if it is in the result of the CPU miner, both from an empty result.
  pub same_planets_at_once :
      (omp : OpenMp) (cpu_options : CpuMinerOptions) (job : Job) (s t : Team) (l : Launch)
      → CpuMine.mine g omp cpu_options chunk rarity key [] ≡ done (job, s)
      → Reach g job s t
      → IsFinished g job t
      → LaunchReach b a launch_of l
      → IsOver b a l
      → (x y : ℕ) → x < chunk.side_length
      → y < chunk.side_length
      → 0 < cuda_hash g b device options chunk rarity key set_up batch x y
      → let place = cuda_location g b device options chunk rarity key set_up batch x y in
        Mem place (collect g.get_str (batch_size chunk.side_length) 0 l.batch [])
        ↔ Mem place t.result
  unfolding launch_args
  same_planets_at_once omp cpu_options job s t l started run finished reach over x y hx hy
        positive =
      let (_, gpu) =
        interleaved_planets b device options a set_up batch g.get_str l [] reach over in
      found-agrees g b device options chunk rarity key set_up batch omp cpu_options job s t _ x y
        started run finished hx hy (gpu x y hx hy positive)
