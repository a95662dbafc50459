-- ===== src/Cuda/Grid/Blocks.antt =====
-- The rows of the threads of a chunk that is several whole blocks high.
use blue_space.Prelude.{ℕ, suc, ◌+◌, ◌-◌, ◌*◌, ◌/◌, ◌^◌, ◌≤◌, ◌<◌, ◌≡◌, ap, ◌∙◌, arith}
use blue_space.Cuda.Kernel.{ThreadIdx, start_size_y}
use blue_space.Cuda.Grid.{threads, CudaMinerOptions, InLaunch}
use blue_space.Cuda.Grid.Coverage.{FitsLaunch, size, threads_pos}
use native.Mathlib.Nat.{div-lt_iff_lt-mul, mod-le, suc-mul, mul-le-mul_left, mul-le-mul_right}

module _ (options : CudaMinerOptions) (side_length : ℕ)
    (fits : FitsLaunch options side_length) where
  open options use {thread_work_size, block_size, threads_per_item}

  -- They stay within 32 bits.
  pub rows_fit_blocks :
      (blocks : ℕ) (t : ThreadIdx)
      → side_length ≡ blocks * (thread_work_size * block_size)
      → 1 ≤ blocks
      → thread_work_size + 1 ≤ thread_work_size * block_size
      → InLaunch (size options side_length fits) t
      → start_size_y thread_work_size (threads threads_per_item) t + thread_work_size ≤ 2 ^ 32
  unfolding start_size_y
  rows_fit_blocks blocks t e h k launched = omega (
    arith,
    e,
    fits.items,
    mod-le (t.block_y * (1 + thread_work_size) + thread_work_size * instance_idx) (2 ^ 32),
    mul-le-mul_left {m = suc instance_idx} {n = block_size} thread_work_size in_block,
    mul-le-mul_right {m = t.block_y} {n = blocks - 1} (thread_work_size + 1)
        (omega (arith, last_block, launched.in_grid_y)),
    mul-le-mul_left {m = thread_work_size + 1} {n = items} (blocks - 1) k,
    whole,
  )
    where
      items : ℕ
      items = thread_work_size * block_size

      instance_idx : ℕ
      instance_idx = t.thread_x / threads threads_per_item

      in_block : instance_idx < block_size
      in_block =
          (div-lt_iff_lt-mul (threads_pos threads_per_item)).1 (omega (arith, launched.in_block))

      whole : blocks * items ≡ (blocks - 1) * items + items
      whole = ap (λ q. q * items) (omega arith) ∙ suc-mul (blocks - 1) items

      last_block : (side_length + items - 1) / items < suc blocks
      last_block =
          (div-lt_iff_lt-mul fits.some_work).1
            (omega (arith, e, suc-mul blocks items, fits.some_work))
