-- ===== src/Cuda/Miner/Interleaved.antt =====
-- What the CUDA miner finds in a chunk that is one block high, when the threads of the launch run at
-- once.
use blue_space.Prelude.{ℕ, ◌<◌, ◌≡◌, ◌↔◌, String, List, Mem}
use blue_space.Outcome.{done}
use blue_space.Footprint.{PlanetLocation}
use blue_space.Cuda.Cgbn.{Cgbn}
use blue_space.Cuda.Kernel.{Batch, KernelArgs}
use blue_space.Cuda.Kernel.Interleaving.{Launch, start_launch, LaunchReach, IsOver}
use blue_space.Cuda.Kernel.Interleaving.Finished.{interleaved-IsItem}
use blue_space.Cuda.Grid.{CudaMinerOptions, launch_size}
use blue_space.Cuda.Grid.Coverage.{size, launch_size-eq-done}
use blue_space.Cuda.Miner.Memory.{batch_size}
use blue_space.Cuda.Miner.Collect.{Device, collect}
use blue_space.Cuda.Miner.Collected.{hash_of, location, collected_iff}
use blue_space.Cuda.Miner.Mined.{OneBlock, rows_within, visiting_thread}
use mathlib.Core.Logic.{◌∨₁◌}

module _ (b : Cgbn) (device : Device) (options : CudaMinerOptions) (a : KernelArgs)
    (set_up : OneBlock options a) (batch : Batch) (get_str : ℕ → String) where
  open a use {chunk, planet_threshold}

  -- Where no product of the configuration wraps, the modulus lies between 2 ^ 32 and 2 ^ 255, the
  -- key and the constants are up to it, and the chunk has a side below 2 ^ 16 and at most as many
  -- rows as a block: the launch has a size, and when it is over, in whatever order its threads have
  -- done the rounds of their loops, the loop over the batch adds those locations of the chunk whose
  -- hash is below the threshold, and no others, among the locations whose hash is not 0.
  pub interleaved_planets :
      (l : Launch) (result : List PlanetLocation)
      → LaunchReach b a
          (start_launch b a (device.schedule (size options chunk.side_length set_up.fits)) batch)
          l
      → IsOver b a l
      → (launch_size options chunk.side_length ≡ done (size options chunk.side_length set_up.fits))
        × ((x y : ℕ)
            → x < chunk.side_length
            → y < chunk.side_length
            → 0 < hash_of b a set_up.loaded get_str x y
            → Mem
                (location b a set_up.loaded get_str x y)
                (collect get_str (batch_size chunk.side_length) 0 l.batch result)
              ↔ (Mem (location b a set_up.loaded get_str x y) result
                  ∨₁ hash_of b a set_up.loaded get_str x y < planet_threshold))
  interleaved_planets l result reach over = (
    launch_size-eq-done options chunk.side_length set_up.fits,
    collected_iff b a set_up.loaded get_str l.batch
        (λ x y hx hy.
          let (u, at, visits) = visiting_thread b device options a set_up batch x y hx hy in
          interleaved-IsItem b a set_up.loaded _ batch l x y u
            (rows_within b device options a set_up batch _ (device.none_else _)) reach over at
            visits hx hy)
        result,
  )
