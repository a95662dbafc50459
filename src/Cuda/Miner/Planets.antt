-- ===== src/Cuda/Miner/Planets.antt =====
-- What the CUDA miner finds in a chunk that is one block high.
use blue_space.Prelude.{ℕ, ◌<◌, ◌≡◌, ◌↔◌, refl, sym, ◌∙◌, subst, String, List, [], Mem}
use blue_space.Outcome.{done, done-injective}
use blue_space.Footprint.{PlanetLocation}
use blue_space.Cuda.Cgbn.{Cgbn}
use blue_space.Cuda.Kernel.{Batch, KernelArgs}
use blue_space.Cuda.Grid.{CudaMinerOptions}
use blue_space.Cuda.Grid.Coverage.{launch_size-eq-done}
use blue_space.Cuda.Miner.Memory.{batch_size}
use blue_space.Cuda.Miner.Collect.{Device, collect, run_mine_batch}
use blue_space.Cuda.Miner.Mined.{OneBlock, mined, mined-IsItem}
use blue_space.Cuda.Miner.Collected as Collected
use blue_space.Cuda.Miner.Collected.{collected_iff, IsOfChunk, collected-IsOfChunk}
use mathlib.Core.Logic.{◌∨₁◌}

module _ (b : Cgbn) (device : Device) (options : CudaMinerOptions) (a : KernelArgs)
    (set_up : OneBlock options a) (batch : Batch) (get_str : ℕ → String) where
  open a use {chunk, planet_threshold, mimc_p}

  -- The batch at the end.
  abbrev after : Batch
  after = mined b device options a set_up batch

  -- The location in column x and row y, with its hash.
  abbrev pub hash_of : ℕ → ℕ → ℕ
  hash_of x y = Collected.hash_of b a set_up.loaded get_str x y

  abbrev pub location : ℕ → ℕ → PlanetLocation
  location x y = Collected.location b a set_up.loaded get_str x y

  run_mine_batch-eq-done :
      (result : List PlanetLocation)
      → run_mine_batch get_str b device options a batch result
        ≡ done (collect get_str (batch_size chunk.side_length) 0 after result)
  unfolding run_mine_batch
  run_mine_batch-eq-done result =
      rw (launch_size-eq-done options chunk.side_length set_up.fits) refl

  -- Where no product of the configuration wraps, the modulus lies between 2 ^ 32 and 2 ^ 255, the
  -- key and the constants are up to it, and the chunk has a side below 2 ^ 16 and at most as many
  -- rows as a block: the run returns, and a location of the chunk whose hash is not 0 is in what
  -- it returns, with that hash in decimal, exactly if it was in the result before or its hash is
  -- below the threshold.
  pub mined_planets :
      (result : List PlanetLocation)
      → (found : List PlanetLocation) × (run_mine_batch get_str b device options a batch result
          ≡ done found)
        × ((x y : ℕ)
            → x < chunk.side_length
            → y < chunk.side_length
            → 0 < hash_of x y
            → Mem (location x y) found
              ↔ (Mem (location x y) result ∨₁ hash_of x y < planet_threshold))
  mined_planets result = (
    collect get_str (batch_size chunk.side_length) 0 after result,
    run_mine_batch-eq-done result,
    collected_iff b a set_up.loaded get_str after (mined-IsItem b device options a set_up batch)
        result,
  )

  -- From an empty result, it returns nothing but locations of the chunk.
  pub mined-IsOfChunk :
      (found : List PlanetLocation)
      → run_mine_batch get_str b device options a batch [] ≡ done found
      → (p : PlanetLocation) → Mem p found
      → ∥ IsOfChunk b a set_up.loaded get_str after
          (mined-IsItem b device options a set_up batch)
          p ∥₁
  mined-IsOfChunk found e p m =
      collected-IsOfChunk b a set_up.loaded get_str after
        (mined-IsItem b device options a set_up batch) p
        (subst (Mem p) (done-injective (sym e ∙ run_mine_batch-eq-done [])) m)
