-- ===== src/Tests/CudaExamples.antt =====
-- The theorems on the CUDA miner, applied to launches on small chunks.
use blue_space.Prelude.{
  ℕ, ◌+◌, ◌-◌, ◌*◌, ◌/◌, ◌%◌, ◌^◌, ◌≤◌, ◌<◌, ◌≡◌, refl, List, [], ◌∷◌, length, arith, false,
}
use blue_space.Prelude.Int.{pos, negsuc}
use blue_space.Constants.{mimc_p, mimc_p_bounds, mimc_p_pos}
use blue_space.Mimc.{absorb}
use blue_space.Outcome.{done, dies, exit_failure}
use blue_space.Cuda.Hash.{Sponge, inject, mix}
use blue_space.Cuda.Hash.Refinement.{residues, IsBounded, mix-inject-residues}
use blue_space.Cuda.Kernel.{Batch, KernelArgs, ThreadIdx, start_size_y, result_idx}
use blue_space.Cuda.Kernel.Items.{IsLoaded, IsItem}
use blue_space.Cuda.Kernel.Launch.{run_threads}
use blue_space.Cuda.Kernel.Interleaving.{Launch, start_launch, LaunchReach, IsOver}
use blue_space.Cuda.Kernel.Interleaving.Finished.{interleaved-IsItem}
use blue_space.Cuda.Kernel.Interleaving.Progress.{some_launch-IsOver}
use blue_space.Cuda.Kernel.Checked.{checked_run_threads, threads_typed}
use blue_space.Cuda.Grid.{tpi_4, CudaMinerOptions, InLaunch}
use blue_space.Cuda.Grid.Coverage.{FitsLaunch, VisitsRow, size, rows_missed, last_row_missed}
use blue_space.Cuda.Miner.Limbs.{from_mpz, to_mpz, limb_count, to_mpz-from_mpz, from_mpz_too_wide}
use blue_space.Cuda.Miner.Memory.{batch_size, cell_past_batch}
use blue_space.Tests.Models.{cgbn}
use blue_space.Tests.WordModel.{gmp_words}
use mathlib.Core.List.Memᴰ

-- Registers that hold anything.
abbrev registers : Sponge
registers = record { l = 1; r = 2; snap_l = 3; snap_r = 4; t0 = 5; t1 = 6; t2 = 7; t3 = 8; t4 = 9 }

abbrev zero_sponge : Sponge
zero_sponge = record {
  l = 0;
  r = 0;
  snap_l = 0;
  snap_r = 0;
  t0 = 0;
  t1 = 0;
  t2 = 0;
  t3 = 0;
  t4 = 0;
}

double_p : mimc_p + mimc_p < 2 ^ 256
double_p = omega (arith, mimc_p_bounds)

-- One constant will do for the arguments of a launch.
abbrev args : KernelArgs
args = record {
  chunk = record { bottom_left = record { x = negsuc 80; y = pos 13 }; side_length = 2 };
  items_per_thread = 2;
  planet_threshold = 1000;
  key = 420;
  mimc_p = mimc_p;
  mimc_c = 5 ∷ [];
  tpi = 4;
}

args-IsLoaded : IsLoaded args
args-IsLoaded = record {
  wide = omega (arith, mimc_p_bounds);
  small = double_p;
  key_bound = omega (arith, mimc_p_bounds);
  constants = (omega (arith, mimc_p_bounds), tt);
  square = omega arith;
}

abbrev empty_batch : Batch
empty_batch i = record { x = pos 0; y = pos 0; is_planet = false; hash = 0 }

abbrev thread : ℕ → ThreadIdx
thread x = record { block_x = x; block_y = 0; thread_x = 0 }

abbrev both : List (Sponge × ThreadIdx)
both = (registers, thread 1) ∷ (zero_sponge, thread 0) ∷ []

fits_rows : (x : ℕ) → start_size_y 2 4 (thread x) + 2 ≤ 2 ^ 32
unfolding start_size_y
fits_rows x = omega arith

visits_rows : start_size_y 2 4 (thread 1) ≤ 1
unfolding start_size_y
visits_rows = omega arith

whole_launch :
    (l : Launch) × LaunchReach cgbn args (start_launch cgbn args both empty_batch) l
    × IsOver cgbn args l
whole_launch = some_launch-IsOver cgbn args both empty_batch

interleaved-IsItem_example : IsItem cgbn args args-IsLoaded 1 1 (whole_launch.0.batch (1 + 2 * 1))
interleaved-IsItem_example =
    interleaved-IsItem cgbn args args-IsLoaded both empty_batch whole_launch.0 1 1
      (registers, thread 1) (fits_rows 1, (fits_rows 0, tt)) whole_launch.1 whole_launch.2
      (Memᴰ.head refl) (refl, visits_rows, omega arith) (omega arith) (omega arith)

threads_typed_example :
    checked_run_threads cgbn args both empty_batch ≡ done (run_threads cgbn args both empty_batch)
threads_typed_example =
    threads_typed cgbn args both empty_batch
      ((omega arith, omega arith), (omega arith, omega arith)) (fits_rows 1, (fits_rows 0, tt))

mix-inject-residues_example :
    let s' = mix cgbn 420 (5 ∷ []) mimc_p (inject cgbn zero_sponge 13 mimc_p) in
    IsBounded mimc_p s'
    × (residues mimc_p s' ≡ absorb mimc_p 420 (5 ∷ []) (residues mimc_p zero_sponge) 13)
mix-inject-residues_example =
    mix-inject-residues cgbn mimc_p mimc_p_pos double_p 420 (omega (arith, mimc_p_bounds)) (5 ∷ [])
      zero_sponge 13 (omega (arith, mimc_p_bounds), tt) (omega arith, omega arith)
      (omega (arith, mimc_p_bounds))

abbrev options : CudaMinerOptions
options = record { thread_work_size = 4; block_size = 2; threads_per_item = tpi_4 }

fits : (side_length : ℕ) → side_length ≤ 16 → FitsLaunch options side_length
fits side_length h = record { items = omega arith; block = omega arith; some_work = omega arith }

small_fits : FitsLaunch options 8
small_fits = fits 8 (omega arith)

large_fits : FitsLaunch options 16
large_fits = fits 16 (omega arith)

abbrev last_thread : ThreadIdx
last_thread = record { block_x = 0; block_y = 1; thread_x = 7 }

last_thread-InLaunch : InLaunch (size options 16 large_fits) last_thread
last_thread-InLaunch = record {
  in_grid_x = omega arith;
  in_grid_y = omega arith;
  in_block = omega arith;
}

rows_missed_example : ¬ VisitsRow options last_thread 13
rows_missed_example =
    rows_missed options 16 large_fits last_thread 13 last_thread-InLaunch (omega arith)

last_row_missed_example : ¬ VisitsRow options last_thread (16 - 1)
last_row_missed_example =
    last_row_missed options 16 large_fits 2 last_thread (omega arith) (omega arith) (omega arith)
      last_thread-InLaunch

cell_past_batch_example :
    let cells = batch_size 65537 in
    let t : ThreadIdx = record { block_x = cells % 65537; block_y = 0; thread_x = 0 } in
    (t.block_x < 65537) × (cells / 65537 < 65537) × (result_idx 65537 t (cells / 65537) ≡ cells)
cell_past_batch_example = cell_past_batch 65537 0 0 (omega arith) (omega arith)

to_mpz-from_mpz_example :
    (limbs : List ℕ) × (from_mpz gmp_words (2 ^ 40) ≡ done limbs)
    × (length limbs ≡ limb_count)
    × (to_mpz gmp_words limbs ≡ 2 ^ 40)
to_mpz-from_mpz_example = to_mpz-from_mpz gmp_words (2 ^ 40) (omega arith)

from_mpz_too_wide_example : from_mpz gmp_words (2 ^ 256) ≡ dies exit_failure
from_mpz_too_wide_example = from_mpz_too_wide gmp_words (2 ^ 256) (omega arith)
