-- ===== src/Tests/MineExamples.antt =====
-- The theorems on `CudaMiner::mine`, for a new miner, and on what device memory held.
use blue_space.Prelude.{
  ℕ, ◌+◌, ◌*◌, ◌<◌, ◌≡◌, ◌↔◌, refl, arith, true, false, none, Mem, List, [], ◌⊎◌, inl, inr, ◌∙◌,
}
use blue_space.Prelude.Int.{pos}
use blue_space.Constants.{mimc_p_bounds}
use blue_space.Footprint.{PlanetLocation, ChunkFootprint}
use blue_space.Outcome.{done, dies, exit_failure, ◌>>=◌}
use blue_space.Cuda.Kernel.{Batch}
use blue_space.Cuda.Agreement.{launch_args, cuda_hash, cuda_location, IsOfChunk}
use blue_space.Cuda.Miner.Collect.{run_mine_batch, item_location}
use blue_space.Cuda.Miner.Stale.{WholeBlocks, stale_planet_reported}
use blue_space.Cuda.Mine.{CudaMiner, new_cuda_miner, mine}
use blue_space.Cuda.Mine.Ready.{IsReady, new_cuda_miner-IsReady}
use blue_space.Cuda.Mine.Calls.{none_yet, called, call_as_first}
use blue_space.Cuda.Mine.Planets.{mine_same_planets}
use blue_space.Cuda.Checks.{CudaStatus}
use blue_space.Cuda.Mine.Checked.{checked_mine}
use blue_space.Cuda.Mine.Checked.Calls.{MineSucceeds, mine_checked}
use blue_space.Cuda.Mine.Checked.Failures.{AllSucceed, IsChecked, mine_or_exits, returned-IsChecked}
use blue_space.Tests.Models.{gmp, cgbn, one_thread}
use blue_space.Tests.WordModel.{gmp_words}
use blue_space.Tests.CacheExamples.{platform}
use blue_space.Tests.DeviceModel.{device}
use blue_space.Tests.CpuRuns as Runs
use blue_space.Tests.AgreementExamples.{options, empty_batch, set_up, constants_bound}
use mathlib.Core.List.{Memᴰ}

abbrev pub new_miner : CudaMiner
new_miner = record {
  device = 0;
  options = options;
  initialized = false;
  cache = none;
  symbols = record { global_mimc_p = []; global_mimc_c = [] };
  heaps = record { host = []; device = [] };
}

new_miner-IsReady : IsReady platform new_miner
unfolding new_cuda_miner
new_miner-IsReady =
    new_cuda_miner-IsReady platform 0 options (record { global_mimc_p = []; global_mimc_c = [] })

mine_same_planets_example :
    let place = cuda_location gmp cgbn device options Runs.chunk 16384 420 set_up empty_batch in
    (after : CudaMiner) × (found : List PlanetLocation) × (mine gmp_words gmp cgbn platform device
        empty_batch new_miner Runs.chunk 16384 420 []
      ≡ done (after, found))
    × IsReady platform after
    × ((x y : ℕ)
        → x < 1
        → y < 1
        → 0 < cuda_hash gmp cgbn device options Runs.chunk 16384 420 set_up empty_batch x y
        → Mem (place x y) found ↔ Mem (place x y) Runs.whole_run.last.result)
    × ((p : PlanetLocation)
        → Mem p found
        → ∥ IsOfChunk gmp cgbn device options Runs.chunk 16384 420 set_up empty_batch p ∥₁)
mine_same_planets_example =
    mine_same_planets gmp_words gmp cgbn platform device empty_batch new_miner Runs.chunk 16384 420
      set_up one_thread Runs.options Runs.job Runs.start Runs.whole_run.last new_miner-IsReady
      (omega arith) (omega arith) Runs.started Runs.whole_run.reach Runs.whole_run-IsFinished

-- Two blocks of eight rows.
abbrev two_blocks : ChunkFootprint
two_blocks = record { bottom_left = record { x = pos 0; y = pos 0 }; side_length = 16 }

-- Another place's planet in every cell.
abbrev stale_batch : Batch
stale_batch i = record { x = pos 1000; y = pos 1000; is_planet = true; hash = 7 }

pub first_call :
    (after : CudaMiner) × (found : List PlanetLocation) × (mine gmp_words gmp cgbn platform device
        empty_batch new_miner Runs.chunk 16384 420 []
      ≡ done (after, found))
first_call =
    let (after, found, returns, _, _, _) =
      mine_same_planets gmp_words gmp cgbn platform device empty_batch new_miner Runs.chunk 16384
        420 set_up one_thread Runs.options Runs.job Runs.start Runs.whole_run.last new_miner-IsReady
        (omega arith) (omega arith) Runs.started Runs.whole_run.reach Runs.whole_run-IsFinished in
    (after, found, returns)

-- The second call, on another chunk.
call_as_first_example :
    (after : CudaMiner) × (mine gmp_words gmp cgbn platform device stale_batch first_call.0
        two_blocks 3 421 []
      ≡ run_mine_batch gmp.get_str cgbn device options
          (launch_args options two_blocks 3 421)
          stale_batch
          []
        >>= λ found. done (after, found))
    × IsReady platform after
    × (after.options ≡ options)
unfolding new_cuda_miner
call_as_first_example =
    call_as_first gmp_words gmp cgbn platform device 0 options
      (record { global_mimc_p = []; global_mimc_c = [] }) first_call.0 stale_batch two_blocks 3 421
      []
      (called none_yet empty_batch Runs.chunk 16384 420 [] first_call.1 (omega arith) first_call.2)
      (omega arith) (omega arith)

two_blocks-WholeBlocks : WholeBlocks options (launch_args options two_blocks 16384 420)
unfolding launch_args
two_blocks-WholeBlocks = record {
  loaded = record {
    wide = omega (arith, mimc_p_bounds);
    small = omega (arith, mimc_p_bounds);
    key_bound = omega (arith, mimc_p_bounds);
    constants = constants_bound;
    square = omega arith;
  };
  fits = record { items = omega arith; block = omega arith; some_work = omega arith };
  work = refl;
  group = refl;
  blocks = 2;
  whole = refl;
  several = omega arith;
  high = omega arith;
}

stale_planet_reported_example :
    (found : List PlanetLocation) × (run_mine_batch gmp.get_str cgbn device options
        (launch_args options two_blocks 16384 420)
        stale_batch
        []
      ≡ done found)
    × Memᴰ (item_location gmp.get_str (stale_batch (3 + 16 * 15))) found
unfolding launch_args
stale_planet_reported_example =
    stale_planet_reported cgbn device options (launch_args options two_blocks 16384 420)
      two_blocks-WholeBlocks stale_batch gmp.get_str [] 3 (omega arith) refl

-- Every call returns cudaSuccess.
abbrev all_well : CudaStatus
all_well = record { status = λ call. 0; cgbn_error = false }

all_well-AllSucceed : AllSucceed all_well
all_well-AllSucceed = record { success = λ call. refl; no_error = refl }

-- A machine without a device: cudaErrorNoDevice from every call.
abbrev no_device : CudaStatus
no_device = record { status = λ call. 100; cgbn_error = false }

mine_checked_example :
    let ends =
      checked_mine no_device gmp_words gmp cgbn platform device empty_batch new_miner Runs.chunk
        16384 420 [] in
    (MineSucceeds no_device new_miner 1 × (ends ≡ done (first_call.0, first_call.1)))
    ⊎ ((¬ MineSucceeds no_device new_miner 1) × (ends ≡ dies exit_failure))
mine_checked_example =
    mine_checked no_device gmp_words gmp cgbn platform device empty_batch new_miner Runs.chunk 16384
      420 [] first_call.0 first_call.1 first_call.2

first_checked_call :
    checked_mine all_well gmp_words gmp cgbn platform device empty_batch new_miner Runs.chunk 16384
      420 []
    ≡ done (first_call.0, first_call.1)
first_checked_call =
    elim (mine_or_exits all_well gmp_words gmp cgbn platform device empty_batch new_miner Runs.chunk
      16384 420 []) [
        | inl same ↦ same ∙ first_call.2
        | inr (_, fails) ↦ absurd (fails all_well-AllSucceed)
      ]

returned-IsChecked_example :
    IsChecked all_well
    × (mine gmp_words gmp cgbn platform device empty_batch new_miner Runs.chunk 16384 420 []
        ≡ done (first_call.0, first_call.1))
returned-IsChecked_example =
    returned-IsChecked all_well gmp_words gmp cgbn platform device empty_batch new_miner Runs.chunk
      16384 420 [] first_call.0 first_call.1 first_checked_call
