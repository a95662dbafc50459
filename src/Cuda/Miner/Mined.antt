-- ===== src/Cuda/Miner/Mined.antt =====
-- The batch after a launch on a chunk that is one block high.
use blue_space.Prelude.{ℕ, ◌+◌, ◌*◌, ◌≤◌, ◌<◌, ◌≡◌, refl, List, All, All-of_mem}
use blue_space.Cuda.Cgbn.{Cgbn}
use blue_space.Cuda.Hash.{Sponge}
use blue_space.Cuda.Kernel.{Batch, KernelArgs, ThreadIdx}
use blue_space.Cuda.Kernel.Items.{IsLoaded, IsItem}
use blue_space.Cuda.Kernel.Launch.{run_threads, FitsRows, Visits, run_threads-IsItem}
use blue_space.Cuda.Grid.{threads, CudaMinerOptions, InLaunch}
use blue_space.Cuda.Grid.Coverage.{FitsLaunch, size, visitor, rows_covered, rows_fit}
use blue_space.Cuda.Miner.Collect.{Device}
use mathlib.Core.List.{Memᴰ}

-- What `mine` has set up: the arguments of the launch are those of the options, and the side of the
-- chunk is at most the rows of one block.
pub record OneBlock (options : CudaMinerOptions) (a : KernelArgs) : Type 0 where
  pub loaded : IsLoaded a
  pub fits : FitsLaunch options a.chunk.side_length
  pub work : a.items_per_thread ≡ options.thread_work_size
  pub group : a.tpi ≡ threads options.threads_per_item
  pub one_block : a.chunk.side_length ≤ options.thread_work_size * options.block_size

module _ (b : Cgbn) (device : Device) (options : CudaMinerOptions) (a : KernelArgs)
    (set_up : OneBlock options a) (batch : Batch) where
  open a use {chunk, planet_threshold, mimc_p}

  abbrev pub mined : Batch
  mined = run_threads b a (device.schedule (size options chunk.side_length set_up.fits)) batch

  pub rows_within :
      (ts : List (Sponge × ThreadIdx))
      → ((u : Sponge × ThreadIdx)
          → Memᴰ u ts
          → InLaunch (size options chunk.side_length set_up.fits) u.1)
      → All (λ u. FitsRows b a u.1) ts
  rows_within ts h = All-of_mem ts (λ u m.
      rw (set_up.work, set_up.group)
        (rows_fit options chunk.side_length set_up.fits u.1 set_up.one_block (h u m)))

  -- Some thread of the schedule visits the location.
  pub visiting_thread :
      (x y : ℕ)
      → x < chunk.side_length
      → y < chunk.side_length
      → (u : Sponge × ThreadIdx) × Memᴰ u
          (device.schedule (size options chunk.side_length set_up.fits))
        × Visits b a u.1 x y
  visiting_thread x y hx hy =
      let t = visitor options chunk.side_length set_up.fits x y in
      let covered = rows_covered options chunk.side_length set_up.fits x y set_up.one_block hx hy in
      let (registers, at) = device.all_run _ t covered.0 in
      (
        (registers, t),
        at,
        (
          refl,
          rw (set_up.work, set_up.group) covered.1.0,
          rw (set_up.work, set_up.group) covered.1.1,
        ),
      )

  -- Every cell of the batch holds its item at the end.
  pub mined-IsItem :
      (x y : ℕ)
      → x < chunk.side_length
      → y < chunk.side_length
      → IsItem b a set_up.loaded x y (mined (x + chunk.side_length * y))
  mined-IsItem x y hx hy =
      let (u, at, visits) = visiting_thread x y hx hy in
      run_threads-IsItem b a set_up.loaded _ batch x y u (rows_within _ (device.none_else _)) at
        visits hx hy
