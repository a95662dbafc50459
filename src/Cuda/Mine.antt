-- ===== src/Cuda/Mine.antt =====
-- miner-cuda/lib/miner.cu, the class CudaMiner: what it keeps between calls, the constants in device
-- memory, and `mine`.
pub mod Ready
pub mod Planets
pub mod Calls
pub mod Checked
use blue_space.Prelude.{
  ℕ, ◌==◌, Bool, true, false, Option, none, some, List, [], ◌∷◌, map, length, if◌then◌else◌,
}
use blue_space.Outcome.{Outcome, done, dies, assertion_failed, invalid_free, ◌>>=◌}
use blue_space.Gmp.{Gmp}
use blue_space.Constants.{mimc_p, mimc_c}
use blue_space.Footprint.{PlanetLocation, ChunkFootprint}
use blue_space.Cuda.Cgbn.{Cgbn}
use blue_space.Cuda.Kernel.{Batch, KernelArgs}
use blue_space.Cuda.Grid.{CudaMinerOptions, threads}
use blue_space.Cuda.Miner.Limbs.{GmpWords, word_value, from_mpz}
use blue_space.Cuda.Miner.Cache.{CachedDeviceMemory, Heaps, Platform, prepare_cache}
use blue_space.Cuda.Miner.Collect.{Device, run_mine_batch}

-- global_mimc_p and global_mimc_c, in limbs.
pub record Symbols : Type 0 where
  pub global_mimc_p : List ℕ
  pub global_mimc_c : List (List ℕ)

-- The miner, with the memory that it changes.
pub record CudaMiner : Type 0 where
  pub device : ℕ
  pub options : CudaMinerOptions
  pub initialized : Bool
  pub cache : Option CachedDeviceMemory
  pub symbols : Symbols
  pub heaps : Heaps

-- C_SIZE
abbrev pub c_size : ℕ
c_size = 219

-- The constructor, on a device whose constants hold whatever they do.
unfoldable pub new_cuda_miner : ℕ → CudaMinerOptions → Symbols → CudaMiner
new_cuda_miner device options symbols = record {
  device = device;
  options = options;
  initialized = false;
  cache = none;
  symbols = symbols;
  heaps = record { host = []; device = [] };
}

-- `prepare_cache` frees what it has allocated, or the program is undone.
unfoldable pub or_invalid_free {ℓ} : {A : Type ℓ} → Option A → Outcome A
or_invalid_free none = dies invalid_free
or_invalid_free (some a) = done a

module _ (words : GmpWords) where
  -- The loop over C.
  unfoldable pub load_constants : List ℕ → Outcome (List (List ℕ))
  load_constants [] = done []
  load_constants (c ∷ cs) = do
    limbs ← from_mpz words c
    rest ← load_constants cs
    done (limbs ∷ rest)

  -- `initialize` past the test of `initialized_`.
  unfoldable pub load_symbols : CudaMiner → Outcome CudaMiner
  load_symbols miner =
      if length mimc_c == c_size
      then (do
        p_bn ← from_mpz words mimc_p
        c_bn ← load_constants mimc_c
        done (record miner {
          initialized = true;
          symbols = record { global_mimc_p = p_bn; global_mimc_c = c_bn };
        }))
      else dies assertion_failed

  unfoldable pub initialize : CudaMiner → Outcome CudaMiner
  initialize miner = if miner.initialized then done miner else load_symbols miner

  -- What the kernel reads, for the template that the switch picks.
  unfoldable pub loaded_args : CudaMiner → ChunkFootprint → List ℕ → List ℕ → KernelArgs
  loaded_args miner chunk planet_threshold_bn key_bn = record {
    chunk = chunk;
    items_per_thread = miner.options.thread_work_size;
    planet_threshold = word_value planet_threshold_bn;
    key = word_value key_bn;
    mimc_p = word_value miner.symbols.global_mimc_p;
    mimc_c = map (λ c. word_value c) miner.symbols.global_mimc_c;
    tpi = threads miner.options.threads_per_item;
  }

  -- The miner that is left, and the result. `batch` is what the device memory holds.
  unfoldable pub mine :
      Gmp
      → Cgbn
      → Platform
      → Device
      → Batch
      → CudaMiner
      → ChunkFootprint
      → ℕ
      → ℕ
      → List PlanetLocation
      → Outcome (CudaMiner × List PlanetLocation)
  mine g b platform device batch miner chunk rarity key result = do
    ready ← initialize miner
    (cache, heaps) ←
        or_invalid_free (prepare_cache platform chunk.side_length ready.cache ready.heaps)
    let prepared = record ready { cache = some cache; heaps = heaps }
    planet_threshold ← g.mpz_tdiv_q mimc_p rarity
    planet_threshold_bn ← from_mpz words planet_threshold
    key_bn ← from_mpz words key
    found ←
        run_mine_batch g.get_str b device prepared.options
          (loaded_args prepared chunk planet_threshold_bn key_bn) batch result
    done (prepared, found)
