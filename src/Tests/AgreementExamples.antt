-- ===== src/Tests/AgreementExamples.antt =====
-- The theorems that compare the CUDA miner with the CPU miner, on the chunk of the CPU miner's run.
use blue_space.Prelude.{ℕ, ◌<◌, ◌≤◌, ◌≡◌, ◌↔◌, refl, arith, false, All, Mem, []}
use blue_space.Prelude.Int.{pos, to_u32, ◌-ℤ◌, ◌+ℤ◌}
use blue_space.Mimc.{location_hash, absorb, permute, feistel_rounds, feistel_round, last_round}
use blue_space.Constants.{mimc_p, mimc_c, mimc_p_bounds}
use blue_space.Outcome.{done}
use blue_space.Cpu.Hash as CpuHash
use blue_space.Cuda.Hash as CudaHash
use blue_space.Cuda.Kernel.{Batch, KernelArgs}
use blue_space.Cuda.Grid.{tpi_4, CudaMinerOptions, launch_size}
use blue_space.Cuda.Miner.Collect.{collect}
use blue_space.Cuda.Miner.Mined.{OneBlock}
use blue_space.Cuda.Miner.Collected.{hash_of, location}
use blue_space.Cuda.Miner.Interleaved.{interleaved_planets}
use blue_space.Cuda.Miner.Memory.{batch_size}
use blue_space.Cuda.Kernel.Interleaving.{Launch, start_launch, LaunchReach, IsOver}
use blue_space.Cuda.Kernel.Interleaving.Progress.{some_launch-IsOver}
use blue_space.Cuda.Grid.Coverage.{size}
use blue_space.Cuda.Agreement.{launch_args, cuda_hash, field_add_differs, cuda_location}
use blue_space.Cuda.Agreement.Interleaved.{same_planets_at_once}
use blue_space.Tests.Models.{gmp, cgbn, one_thread}
use blue_space.Tests.CpuRuns as Runs
use blue_space.Tests.DeviceModel.{device}
use mathlib.Core.Logic.{◌∨₁◌}

field_add_differs_example :
    ((CpuHash.field_add gmp mimc_p 0).0 ≡ 0) × (CudaHash.field_add cgbn mimc_p 0 mimc_p ≡ mimc_p)
field_add_differs_example = field_add_differs gmp cgbn mimc_p 0 (omega arith)

abbrev pub options : CudaMinerOptions
options = record { thread_work_size = 4; block_size = 2; threads_per_item = tpi_4 }

abbrev pub empty_batch : Batch
empty_batch i = record { x = pos 0; y = pos 0; is_planet = false; hash = 0 }

pub constants_bound : All (λ c. c ≤ mimc_p) mimc_c
unfolding mimc_p mimc_c
constants_bound = omega arith

pub set_up : OneBlock options (launch_args options Runs.chunk 16384 420)
unfolding launch_args
set_up = record {
  loaded = record {
    wide = omega (arith, mimc_p_bounds);
    small = omega (arith, mimc_p_bounds);
    key_bound = omega (arith, mimc_p_bounds);
    constants = constants_bound;
    square = omega arith;
  };
  fits = record { items = omega arith; block = omega arith; some_work = omega arith };
  work = refl;
  group = refl;
  one_block = omega arith;
}

abbrev args : KernelArgs
args = launch_args options Runs.chunk 16384 420

abbrev launch : Launch
launch =
    start_launch cgbn args (device.schedule (size options args.chunk.side_length set_up.fits))
      empty_batch

whole_launch : (l : Launch) × LaunchReach cgbn args launch l × IsOver cgbn args l
whole_launch = some_launch-IsOver cgbn args _ empty_batch

interleaved_planets_example :
    let hash = hash_of cgbn args set_up.loaded gmp.get_str in
    let place = location cgbn args set_up.loaded gmp.get_str in
    let found = collect gmp.get_str (batch_size args.chunk.side_length) 0 whole_launch.0.batch [] in
    (launch_size options args.chunk.side_length
      ≡ done (size options args.chunk.side_length set_up.fits))
    × ((x y : ℕ)
        → x < args.chunk.side_length
        → y < args.chunk.side_length
        → 0 < hash x y
        → Mem (place x y) found ↔ (Mem (place x y) [] ∨₁ hash x y < args.planet_threshold))
interleaved_planets_example =
    interleaved_planets cgbn device options args set_up empty_batch gmp.get_str whole_launch.0 []
      whole_launch.1 whole_launch.2

-- The hash of the only location.
hash_positive : 0 < cuda_hash gmp cgbn device options Runs.chunk 16384 420 set_up empty_batch 0 0
unfolding launch_args mimc_p mimc_c location_hash absorb permute feistel_rounds feistel_round
    last_round CudaHash.wrap_coordinate to_u32 ◌-ℤ◌ ◌+ℤ◌
hash_positive = omega arith

same_planets_at_once_example :
    let place = cuda_location gmp cgbn device options Runs.chunk 16384 420 set_up empty_batch 0 0 in
    Mem place (collect gmp.get_str (batch_size 1) 0 whole_launch.0.batch [])
    ↔ Mem place Runs.whole_run.last.result
unfolding launch_args
same_planets_at_once_example =
    same_planets_at_once gmp cgbn device options Runs.chunk 16384 420 set_up empty_batch one_thread
      Runs.options Runs.job Runs.start Runs.whole_run.last whole_launch.0 Runs.started
      Runs.whole_run.reach Runs.whole_run-IsFinished whole_launch.1 whole_launch.2 0 0 (omega arith)
      (omega arith) hash_positive
