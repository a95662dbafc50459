-- ===== src/Cuda/Miner/Stale.antt =====
-- What the CUDA miner reports for rows that no thread visits.
use blue_space.Prelude.{
  ℕ, ◌+◌, ◌-◌, ◌*◌, ◌≤◌, ◌<◌, ◌≡◌, refl, sym, ap, ◌∙◌, arith, true, String, List, All, All-of_mem,
  subst,
}
use blue_space.Outcome.{done}
use blue_space.Footprint.{PlanetLocation}
use blue_space.Cuda.Cgbn.{Cgbn}
use blue_space.Cuda.Hash.{Sponge}
use blue_space.Cuda.Kernel.{Batch, KernelArgs, ThreadIdx}
use blue_space.Cuda.Kernel.Cells.{cell_bound}
use blue_space.Cuda.Kernel.Items.{IsLoaded}
use blue_space.Cuda.Kernel.Launch.{run_threads, FitsRows, Visits}
use blue_space.Cuda.Kernel.Untouched.{run_threads-untouched}
use blue_space.Cuda.Grid.{threads, CudaMinerOptions}
use blue_space.Cuda.Grid.Coverage.{FitsLaunch, size, last_row_missed, launch_size-eq-done}
use blue_space.Cuda.Grid.Blocks.{rows_fit_blocks}
use blue_space.Cuda.Miner.Memory.{batch_size}
use blue_space.Cuda.Miner.Collect.{Device, item_location, collect, run_mine_batch, collect-new}
use mathlib.Core.List.{Memᴰ}
use native.Mathlib.Nat.{mod-eq_of_lt}
use blue_space.Cuda.Kernel.Cells.{area_bound}

-- What `mine` has set up for a chunk of two or more whole blocks, each of at least
-- thread_work_size + 2 rows.
pub record WholeBlocks (options : CudaMinerOptions) (a : KernelArgs) : Type 0 where
  pub loaded : IsLoaded a
  pub fits : FitsLaunch options a.chunk.side_length
  pub work : a.items_per_thread ≡ options.thread_work_size
  pub group : a.tpi ≡ threads options.threads_per_item
  pub blocks : ℕ
  pub whole : a.chunk.side_length ≡ blocks * (options.thread_work_size * options.block_size)
  pub several : 2 ≤ blocks
  pub high : options.thread_work_size + 2 ≤ options.thread_work_size * options.block_size

module _ (b : Cgbn) (device : Device) (options : CudaMinerOptions) (a : KernelArgs)
    (set_up : WholeBlocks options a) (batch : Batch) where
  open a use {chunk}

  abbrev threads_run : List (Sponge × ThreadIdx)
  threads_run = device.schedule (size options chunk.side_length set_up.fits)

  abbrev after : Batch
  after = run_threads b a threads_run batch

  rows_within_blocks : All (λ u. FitsRows b a u.1) threads_run
  rows_within_blocks = All-of_mem threads_run (λ u m.
      rw (set_up.work, set_up.group)
        (rows_fit_blocks options chunk.side_length set_up.fits set_up.blocks u.1 set_up.whole
          (omega (arith, set_up.several)) (omega (arith, set_up.high)) (device.none_else _ u m)))

  last_row_free :
      (x : ℕ) (u : Sponge × ThreadIdx)
      → Memᴰ u threads_run
      → ¬ Visits b a u.1 x (chunk.side_length - 1)
  last_row_free x u m (_, lo, hi) =
      last_row_missed options chunk.side_length set_up.fits set_up.blocks u.1 set_up.whole
        set_up.several set_up.high (device.none_else _ u m)
        (rw (sym set_up.work, sym set_up.group) lo, rw (sym set_up.work, sym set_up.group) hi)

  last_row-untouched :
      (x : ℕ)
      → x < chunk.side_length
      → let cell = x + chunk.side_length * (chunk.side_length - 1) in after cell ≡ batch cell
  last_row-untouched x hx =
      run_threads-untouched b a set_up.loaded threads_run batch x (chunk.side_length - 1)
        rows_within_blocks hx (omega arith) (last_row_free x)

  -- Where no product of the configuration wraps, the modulus lies between 2 ^ 32 and 2 ^ 255, the
  -- key and the constants are up to it, and the side of the chunk is below 2 ^ 16 and two or more
  -- whole blocks of at least thread_work_size + 2 rows: the run returns, and a planet that device
  -- memory holds in a cell of the last row before it is in what it returns, whatever the key, the
  -- threshold and the corner of the chunk.
  pub stale_planet_reported :
      (get_str : ℕ → String) (result : List PlanetLocation) (x : ℕ)
      → x < chunk.side_length
      → let cell = x + chunk.side_length * (chunk.side_length - 1) in
        (batch cell).is_planet ≡ true
        → (found : List PlanetLocation) × (run_mine_batch get_str b device options a batch result
            ≡ done found)
          × Memᴰ (item_location get_str (batch cell)) found
  unfolding run_mine_batch batch_size
  stale_planet_reported get_str result x hx planet = (
    collect get_str (batch_size chunk.side_length) 0 after result,
    rw (launch_size-eq-done options chunk.side_length set_up.fits) refl,
    subst
        (λ item.
          Memᴰ (item_location get_str item)
            (collect get_str (batch_size chunk.side_length) 0 after result))
        (last_row-untouched x hx)
        (collect-new get_str (batch_size chunk.side_length) 0 after result
          (x + chunk.side_length * (chunk.side_length - 1)) (omega arith)
          (omega (
            arith,
            square,
            cell_bound chunk.side_length x (chunk.side_length - 1) hx (omega arith),
          ))
          (ap (λ item. item.is_planet) (last_row-untouched x hx) ∙ planet)),
  )
    where
      square : batch_size chunk.side_length ≡ chunk.side_length * chunk.side_length
      square = mod-eq_of_lt (area_bound chunk.side_length set_up.loaded.square)
