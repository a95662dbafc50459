-- ===== src/Cuda/Grid/Coverage.antt =====
-- Which rows of a chunk the threads of a launch visit.
use blue_space.Prelude.{
  ℕ, suc, ◌+◌, ◌-◌, ◌*◌, ◌/◌, ◌^◌, ◌≤◌, ◌<◌, ◌≡◌, refl, ap, ◌∙◌, arith, ne→==, dec_lt,
}
use blue_space.Outcome.{done}
use blue_space.Cuda.Kernel.{u32, ThreadIdx, start_size_y}
use blue_space.Cuda.Grid.{
  ThreadsPerItem, threads, CudaMinerOptions, items_per_block, grid_size_y, block_size_x, LaunchSize,
  launch_size, InLaunch,
}
use native.Mathlib.Nat.{
  mod-eq_of_lt, mod-add-div, mod-lt, div-lt_iff_lt-mul, mul-div_left, mod-le, suc-mul,
  mul-le-mul_left, mul-le-mul_right, mul-lt-mul_of_pos_right,
}

-- No product of the configuration wraps.
pub record FitsLaunch (options : CudaMinerOptions) (side_length : ℕ) : Type 0 where
  pub items : options.thread_work_size * options.block_size + side_length < 2 ^ 32
  pub block : threads options.threads_per_item * options.block_size < 2 ^ 32
  pub some_work : 0 < options.thread_work_size * options.block_size

-- The row is among those of the thread.
abbrev pub VisitsRow : CudaMinerOptions → ThreadIdx → ℕ → Type 0
VisitsRow options t y =
    let start = start_size_y options.thread_work_size (threads options.threads_per_item) t in
    (start ≤ y) × (y < start + options.thread_work_size)

pub threads_pos : (tpi : ThreadsPerItem) → 0 < threads tpi
threads_pos ThreadsPerItem.tpi_4 = omega arith
threads_pos ThreadsPerItem.tpi_8 = omega arith
threads_pos ThreadsPerItem.tpi_16 = omega arith
threads_pos ThreadsPerItem.tpi_32 = omega arith

div_pos : (m n : ℕ) → n ≤ m → 0 < n → 0 < m / n
div_pos m n h k = elim (dec_lt 0 (m / n)) [
  | yes p ↦ p
  | no z ↦
      let none_left : m / n ≡ 0 = omega arith in
      absurd (omega (arith, mod-add-div m n, mod-lt m k, ap (λ q. n * q) none_left))
]

module _ (options : CudaMinerOptions) (side_length : ℕ)
    (fits : FitsLaunch options side_length) where
  open options use {thread_work_size, block_size, threads_per_item}

  abbrev items : ℕ
  items = thread_work_size * block_size

  -- The size of the launch, where nothing wraps.
  abbrev pub size : LaunchSize
  size = record {
    grid_x = side_length;
    grid_y = (side_length + items - 1) / items;
    block_x = threads threads_per_item * block_size;
  }

  items_per_block-eq : items_per_block options ≡ items
  unfolding items_per_block
  items_per_block-eq = mod-eq_of_lt (omega (arith, fits.items))

  block_size_x-eq : block_size_x options ≡ threads threads_per_item * block_size
  unfolding block_size_x
  block_size_x-eq = mod-eq_of_lt fits.block

  grid_size_y-eq : grid_size_y side_length items ≡ done ((side_length + items - 1) / items)
  unfolding grid_size_y
  grid_size_y-eq =
      rw (ne→== items 0 (omega (arith, fits.some_work)))
        (ap (λ n. done (n / items)) (omega (arith, fits.items, fits.some_work)))

  -- Where no product of the configuration wraps, the launch has a block per column in one direction,
  -- the side over the rows of a block, rounded up, in the other, and threads_per_item * block_size
  -- threads in a block.
  pub launch_size-eq-done : launch_size options side_length ≡ done size
  unfolding launch_size
  launch_size-eq-done = rw (items_per_block-eq, grid_size_y-eq, block_size_x-eq) refl

  -- The thread of the first row of blocks that has y among its rows.
  abbrev pub visitor : ℕ → ℕ → ThreadIdx
  visitor x y = record {
    block_x = x;
    block_y = 0;
    thread_x = y / thread_work_size * threads threads_per_item;
  }

  visitor-start :
      (x y : ℕ)
      → y < side_length
      → start_size_y thread_work_size (threads threads_per_item) (visitor x y)
        ≡ thread_work_size * (y / thread_work_size)
  unfolding start_size_y
  visitor-start x y hy =
      ap (λ q. u32 (0 * (1 + thread_work_size) + thread_work_size * q))
        (mul-div_left (y / thread_work_size) (threads_pos threads_per_item))
      ∙ mod-eq_of_lt (omega (arith, fits.items, mod-add-div y thread_work_size))
      ∙ omega arith

  work_pos : 0 < thread_work_size
  work_pos = grind (arith, fits.some_work)

  -- Where no product of the configuration wraps and the side of the chunk is at most the rows of
  -- one block, every row of every column is visited by a thread of the launch, in the first row of
  -- blocks.
  pub rows_covered :
      (x y : ℕ)
      → side_length ≤ items
      → x < side_length
      → y < side_length
      → InLaunch size (visitor x y) × VisitsRow options (visitor x y) y
  rows_covered x y h hx hy = (
    record {
      in_grid_x = hx;
      in_grid_y =
          div_pos (side_length + items - 1) items (omega (arith, fits.some_work)) fits.some_work;
      in_block = omega (
        arith,
        mul-lt-mul_of_pos_right {m = y / thread_work_size} {n = block_size}
            {k = threads threads_per_item} ((div-lt_iff_lt-mul work_pos).1 (omega arith))
            (threads_pos threads_per_item),
      );
    },
    (
      omega (arith, visitor-start x y hy, mod-add-div y thread_work_size),
      omega (arith, visitor-start x y hy, mod-add-div y thread_work_size, mod-lt y work_pos),
    ),
  )

  -- No thread gets to a row past the last block's last: the blocks are items_per_thread + 1 rows
  -- apart, whatever their size.
  pub rows_missed :
      (t : ThreadIdx) (y : ℕ)
      → InLaunch size t
      → ((side_length + items - 1) / items - 1) * (thread_work_size + 1) + items ≤ y
      → ¬ VisitsRow options t y
  unfolding start_size_y
  rows_missed t y launched far visits = omega (
    arith,
    visits.1,
    mod-le (t.block_y * (1 + thread_work_size) + thread_work_size * instance_idx) (2 ^ 32),
    mul-le-mul_left {m = suc instance_idx} {n = block_size} thread_work_size in_block,
    mul-le-mul_right {m = t.block_y} {n = (side_length + items - 1) / items - 1}
        (thread_work_size + 1) (omega (arith, launched.in_grid_y)),
  )
    where
      instance_idx : ℕ
      instance_idx = t.thread_x / threads threads_per_item

      in_block : instance_idx < block_size
      in_block =
          (div-lt_iff_lt-mul (threads_pos threads_per_item)).1 (omega (arith, launched.in_block))

  -- Where no product of the configuration wraps, a chunk whose side is two or more whole blocks of
  -- at least thread_work_size + 2 rows has a last row that no thread of the launch visits.
  pub last_row_missed :
      (blocks : ℕ) (t : ThreadIdx)
      → side_length ≡ blocks * items
      → 2 ≤ blocks
      → thread_work_size + 2 ≤ items
      → InLaunch size t
      → ¬ VisitsRow options t (side_length - 1)
  last_row_missed blocks t e h k launched = rows_missed t (side_length - 1) launched (
      omega (
        arith,
        e,
        mul-le-mul_right {m = (side_length + items - 1) / items - 1} {n = blocks - 1}
            (thread_work_size + 1) (omega (arith, last_block)),
        mul-le-mul_left {m = thread_work_size + 2} {n = items} (blocks - 1) k,
        whole,
      ))
    where
      whole : blocks * items ≡ (blocks - 1) * items + items
      whole = ap (λ q. q * items) (omega arith) ∙ suc-mul (blocks - 1) items

      last_block : (side_length + items - 1) / items < suc blocks
      last_block =
          (div-lt_iff_lt-mul fits.some_work).1
            (omega (arith, e, suc-mul blocks items, fits.some_work))

  -- The rows of a thread in the only row of blocks stay within 32 bits.
  pub rows_fit :
      (t : ThreadIdx)
      → side_length ≤ items
      → InLaunch size t
      → start_size_y thread_work_size (threads threads_per_item) t + thread_work_size ≤ 2 ^ 32
  unfolding start_size_y
  rows_fit t h launched = omega (
    arith,
    first,
    mod-le (t.block_y * (1 + thread_work_size) + thread_work_size * instance_idx) (2 ^ 32),
    mul-le-mul_left {m = suc instance_idx} {n = block_size} thread_work_size in_block,
    fits.items,
    ap (λ n. n * (1 + thread_work_size)) first,
  )
    where
      instance_idx : ℕ
      instance_idx = t.thread_x / threads threads_per_item

      in_block : instance_idx < block_size
      in_block =
          (div-lt_iff_lt-mul (threads_pos threads_per_item)).1 (omega (arith, launched.in_block))

      one_row : (side_length + items - 1) / items < 2
      one_row = (div-lt_iff_lt-mul fits.some_work).1 (omega (arith, fits.some_work))

      first : t.block_y ≡ 0
      first = omega (arith, one_row, launched.in_grid_y)
