-- ===== src/Cuda/Grid.antt =====
-- miner-cuda/include/miner/cuda/miner.h and the launch configuration of `run_mine_batch` in
-- miner-cuda/lib/miner.cu: which threads run, and which rows they visit.
pub mod Coverage
pub mod Blocks
use blue_space.Prelude.{ℕ, ◌+◌, ◌-◌, ◌*◌, ◌/◌, ◌^◌, ◌<◌, ◌==◌, if◌then◌else◌}
use blue_space.Outcome.{Outcome, done, dies, division_by_zero, ◌>>=◌}
use blue_space.Cuda.Kernel.{u32, ThreadIdx}

pub data ThreadsPerItem : Type 0 where
  tpi_4 tpi_8 tpi_16 tpi_32 : ThreadsPerItem

-- The template argument that the switch of `CudaMiner::mine` picks.
abbrev pub threads : ThreadsPerItem → ℕ
threads tpi_4 = 4
threads tpi_8 = 8
threads tpi_16 = 16
threads tpi_32 = 32

pub record CudaMinerOptions : Type 0 where
  pub thread_work_size : ℕ  -- uint32_t
  pub block_size : ℕ  -- uint32_t
  pub threads_per_item : ThreadsPerItem

unfoldable pub items_per_block : CudaMinerOptions → ℕ
items_per_block options = u32 (options.thread_work_size * options.block_size)

-- `(side_length + items_per_block - 1) / items_per_block` on uint32_t; a division by zero traps.
unfoldable pub grid_size_y : ℕ → ℕ → Outcome ℕ
grid_size_y side_length items =
    if items == 0
    then dies division_by_zero
    else done (u32 (side_length + items + (2 ^ 32 - 1)) / items)

unfoldable pub block_size_x : CudaMinerOptions → ℕ
block_size_x options = u32 (threads options.threads_per_item * options.block_size)

-- dim3 grid_size and block_size.
pub record LaunchSize : Type 0 where
  pub grid_x : ℕ
  pub grid_y : ℕ
  pub block_x : ℕ

unfoldable pub launch_size : CudaMinerOptions → ℕ → Outcome LaunchSize
launch_size options side_length = do
  grid_y ← grid_size_y side_length (items_per_block options)
  done (record { grid_x = side_length; grid_y = grid_y; block_x = block_size_x options })

-- The launch has such a thread.
pub record InLaunch (size : LaunchSize) (t : ThreadIdx) : Type 0 where
  pub in_grid_x : t.block_x < size.grid_x
  pub in_grid_y : t.block_y < size.grid_y
  pub in_block : t.thread_x < size.block_x
