-- ===== src/Cuda/Kernel.antt =====
-- miner-cuda/lib/miner.cu, `mine_batch_kernel`: what one thread of the grid writes to the batch.
-- Device memory is a function from indices; uint32_t arithmetic wraps.
pub mod Items
pub mod Cells
pub mod Threads
pub mod Launch
pub mod Untouched
pub mod Interleaving
pub mod Checked
use blue_space.Prelude.{
  ℕ, zero, suc, ◌+◌, ◌*◌, ◌/◌, ◌%◌, ◌^◌, ◌≡◌, Bool, true, false, List, [], ◌∷◌, ltb, leb, ◌==◌,
  if◌then◌else◌,
}
use blue_space.Prelude.Int.{ℤ, pos, ◌+ℤ◌, ltb_ℤ}
use blue_space.Footprint.{ChunkFootprint}
use blue_space.Cuda.Cgbn.{Cgbn}
use blue_space.Cuda.Hash.{Sponge, reset, save, restore, result, wrap_coordinate, inject, mix}

abbrev pub u32 : ℕ → ℕ
u32 n = n % 2 ^ 32

pub record CudaWorkItem : Type 0 where
  pub x : ℤ
  pub y : ℤ
  pub is_planet : Bool
  pub hash : ℕ

abbrev pub Batch : Type 0
Batch = ℕ → CudaWorkItem

-- The place of a thread: blockIdx.x, blockIdx.y and threadIdx.x.
pub record ThreadIdx : Type 0 where
  pub block_x : ℕ
  pub block_y : ℕ
  pub thread_x : ℕ

-- The arguments of the kernel, the constants in device memory, and the template's TPI.
pub record KernelArgs : Type 0 where
  pub chunk : ChunkFootprint
  pub items_per_thread : ℕ  -- uint32_t
  pub planet_threshold : ℕ
  pub key : ℕ
  pub mimc_p : ℕ
  pub mimc_c : List ℕ
  pub tpi : ℕ

-- `run_mine_batch` launches blocks that are one thread high.
abbrev pub block_dim_y : ℕ
block_dim_y = 1

unfoldable pub start_size_y : ℕ → ℕ → ThreadIdx → ℕ
start_size_y items_per_thread tpi t =
    u32 (t.block_y * (block_dim_y + items_per_thread) + items_per_thread * (t.thread_x / tpi))

unfoldable pub result_idx : ℕ → ThreadIdx → ℕ → ℕ
result_idx side_length t row = u32 (t.block_x + side_length * row)

unfoldable pub store : Batch → ℕ → CudaWorkItem → Batch
store batch i item j = if j == i then item else batch j

module _ (b : Cgbn) (a : KernelArgs) where
  open a use {chunk, items_per_thread, planet_threshold, key, mimc_p, mimc_c, tpi}

  -- The sponge after the thread's x, saved.
  unfoldable pub column_sponge : Sponge → ThreadIdx → Sponge
  column_sponge s t = save (
      mix b key mimc_c mimc_p (
        inject b (reset s) (wrap_coordinate b (chunk.bottom_left.x +ℤ pos t.block_x) mimc_p)
          mimc_p))

  -- The sponge after the row's y.
  unfoldable pub row_sponge : Sponge → ℤ → Sponge
  row_sponge s coord_y =
      mix b key mimc_c mimc_p (inject b (restore s) (wrap_coordinate b coord_y mimc_p) mimc_p)

  -- What the loop's body leaves in its cell: the hash is stored for a planet only.
  unfoldable pub write_item : ThreadIdx → ℤ → ℕ → CudaWorkItem → CudaWorkItem
  write_item t coord_y hash old =
      let planet = ltb_ℤ (b.compare hash planet_threshold) (pos 0) in
      record {
        x = chunk.bottom_left.x +ℤ pos t.block_x;
        y = coord_y;
        is_planet = planet;
        hash = if planet then hash else old.hash;
      }

  -- The body of the loop over i, past the test.
  unfoldable pub visit_row : ThreadIdx → ℕ → Sponge → Batch → Sponge × Batch
  visit_row t i s batch =
      let coord_y = chunk.bottom_left.y +ℤ pos (start_size_y items_per_thread tpi t) +ℤ pos i in
      let s' = row_sponge s coord_y in
      let cell = result_idx chunk.side_length t (u32 (start_size_y items_per_thread tpi t + i)) in
      (s', store batch cell (write_item t coord_y (result s') (batch cell)))

  -- The loop over i, with `left` rounds to go.
  unfoldable pub thread_rows : ThreadIdx → ℕ → ℕ → Sponge → Batch → Batch
  thread_rows t zero i s batch = batch
  thread_rows t (suc left) i s batch =
      let (s', batch') = visit_row t i s batch in
      let rest = thread_rows t left (i + 1) s' batch' in
      if leb chunk.side_length (u32 (start_size_y items_per_thread tpi t + i)) then batch else rest

  -- One thread; its sponge starts with whatever its registers hold.
  unfoldable pub mine_batch_kernel : Sponge → ThreadIdx → Batch → Batch
  mine_batch_kernel registers t batch =
      if leb chunk.side_length t.block_x
      then batch
      else thread_rows t items_per_thread 0 (column_sponge registers t) batch
