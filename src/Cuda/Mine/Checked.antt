-- ===== src/Cuda/Mine/Checked.antt =====
-- miner-cuda/lib/miner.cu, the class CudaMiner and run_mine_batch with their checks of what the CUDA
-- run-time and CGBN return.
pub mod Failures
pub mod Calls
use blue_space.Prelude.{ℕ, ◌==◌, Option, none, some, List, String, if◌then◌else◌}
use blue_space.Outcome.{Outcome, done, ◌>>=◌, ◌>>◌}
use blue_space.Gmp.{Gmp}
use blue_space.Constants.{mimc_p}
use blue_space.Footprint.{PlanetLocation, ChunkFootprint}
use blue_space.Cuda.Checks.{
  CudaCall, CudaStatus, cuda_check, cgbn_check, set_device_of_symbols, memcpy_symbol_p,
  memcpy_symbol_c, cuda_free, set_device_of_cache, cuda_malloc, set_device_of_batch,
  error_report_alloc, device_synchronize, get_last_error, memcpy_batch,
}
use blue_space.Cuda.Cgbn.{Cgbn}
use blue_space.Cuda.Kernel.{Batch, KernelArgs}
use blue_space.Cuda.Kernel.Launch.{run_threads}
use blue_space.Cuda.Grid.{CudaMinerOptions, launch_size}
use blue_space.Cuda.Miner.Memory.{batch_size}
use blue_space.Cuda.Miner.Limbs.{GmpWords, from_mpz}
use blue_space.Cuda.Miner.Cache.{CachedDeviceMemory, Heaps, Platform, free, allocate}
use blue_space.Cuda.Miner.Collect.{Device, collect}
use blue_space.Cuda.Mine.{CudaMiner, or_invalid_free, load_symbols, loaded_args}

module _ (cuda : CudaStatus) where
  abbrev cuda_call : CudaCall → Outcome (Unit {0})
  cuda_call call = cuda_check (cuda.status call)

  unfoldable pub checked_initialize : GmpWords → CudaMiner → Outcome CudaMiner
  checked_initialize words miner = if miner.initialized then done miner else (do
    loaded ← load_symbols words miner
    cuda_call set_device_of_symbols
    cuda_call memcpy_symbol_p
    cuda_call memcpy_symbol_c
    done loaded)

  unfoldable pub checked_allocate : Platform → ℕ → Heaps → Outcome (CachedDeviceMemory × Heaps)
  checked_allocate platform side_length heaps = do
    cuda_call set_device_of_cache
    cuda_call cuda_malloc
    done (allocate platform side_length heaps)

  unfoldable pub checked_prepare_cache :
      Platform → ℕ → Option CachedDeviceMemory → Heaps → Outcome (CachedDeviceMemory × Heaps)
  checked_prepare_cache platform side_length none heaps =
      checked_allocate platform side_length heaps
  checked_prepare_cache platform side_length (some cache) heaps =
      if cache.side_length == side_length then done (cache, heaps) else (do
        host ← or_invalid_free (free cache.h_batch heaps.host)
        device ← or_invalid_free (free cache.d_batch heaps.device)
        cuda_call cuda_free
        checked_allocate platform side_length (record { host = host; device = device }))

  unfoldable pub checked_run_mine_batch :
      (ℕ → String)
      → Cgbn
      → Device
      → CudaMinerOptions
      → KernelArgs
      → Batch
      → List PlanetLocation
      → Outcome (List PlanetLocation)
  checked_run_mine_batch get_str b device options a batch result = do
    cuda_call set_device_of_batch
    cuda_call error_report_alloc
    size ← launch_size options a.chunk.side_length
    let mined = run_threads b a (device.schedule size) batch
    cuda_call device_synchronize
    cuda_call get_last_error
    cgbn_check cuda.cgbn_error
    cuda_call memcpy_batch
    done (collect get_str (batch_size a.chunk.side_length) 0 mined result)

  unfoldable pub checked_mine :
      GmpWords
      → Gmp
      → Cgbn
      → Platform
      → Device
      → Batch
      → CudaMiner
      → ChunkFootprint
      → ℕ
      → ℕ
      → List PlanetLocation
      → Outcome (CudaMiner × List PlanetLocation)
  checked_mine words g b platform device batch miner chunk rarity key result = do
    ready ← checked_initialize words miner
    (cache, heaps) ← checked_prepare_cache platform chunk.side_length ready.cache ready.heaps
    let prepared = record ready { cache = some cache; heaps = heaps }
    planet_threshold ← g.mpz_tdiv_q mimc_p rarity
    planet_threshold_bn ← from_mpz words planet_threshold
    key_bn ← from_mpz words key
    found ←
        checked_run_mine_batch g.get_str b device prepared.options
          (loaded_args words prepared chunk planet_threshold_bn key_bn) batch result
    done (prepared, found)
