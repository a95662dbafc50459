-- ===== src/Cuda/Miner/Memory.antt =====
-- `prepare_cache`: the two buffers that the miner keeps for chunks of one side.
use blue_space.Prelude.{ℕ, ◌+◌, ◌*◌, ◌/◌, ◌%◌, ◌^◌, ◌≤◌, ◌<◌, ◌≡◌, ap, ◌∙◌, arith}
use blue_space.Cuda.Kernel.{u32, ThreadIdx, result_idx}
use blue_space.Cuda.Kernel.Cells.{cell_bound, area_bound}
use native.Mathlib.Nat.{mod-eq_of_lt, mod-lt, mod-add-div, div-lt_iff_lt-mul, mul-le-mul}

-- `side_length * side_length` is computed on uint32_t.
unfoldable pub batch_size : ℕ → ℕ
batch_size side_length = u32 (side_length * side_length)

-- With a side below 2 ^ 16 the cell of each location of the chunk is x + side_length * y, without
-- overflow, and lies within the batch.
pub cells_in_batch :
    (side_length row : ℕ) (t : ThreadIdx)
    → side_length < 2 ^ 16
    → t.block_x < side_length
    → row < side_length
    → (result_idx side_length t row ≡ t.block_x + side_length * row)
      × (result_idx side_length t row < batch_size side_length)
unfolding result_idx batch_size
cells_in_batch side_length row t h hx hy =
    let bound = cell_bound side_length t.block_x row hx hy in
    let area = area_bound side_length h in
    let index = mod-eq_of_lt {n = t.block_x + side_length * row} {m = 2 ^ 32} (omega arith) in
    (index, omega (arith, index, mod-eq_of_lt {n = side_length * side_length} {m = 2 ^ 32} area))

-- With a side of 2 ^ 16 or more the batch is too small: some location of the chunk has its cell just
-- past the end.
pub cell_past_batch :
    (side_length block_y thread_x : ℕ)
    → 2 ^ 16 ≤ side_length
    → side_length < 2 ^ 32
    → let size = batch_size side_length in
      let t : ThreadIdx = record {
        block_x = size % side_length;
        block_y = block_y;
        thread_x = thread_x;
      } in
      (t.block_x < side_length)
      × (size / side_length < side_length)
      × (result_idx side_length t (size / side_length) ≡ size)
unfolding result_idx batch_size
cell_past_batch side_length block_y thread_x h k = (
  mod-lt _ (omega arith),
  (div-lt_iff_lt-mul (omega arith)).1 (omega (arith, area, below)),
  ap u32 (mod-add-div (u32 (side_length * side_length)) side_length) ∙ mod-eq_of_lt below,
)
  where
    below : u32 (side_length * side_length) < 2 ^ 32
    below = mod-lt _ (omega arith)

    area : 2 ^ 16 * 2 ^ 16 ≤ side_length * side_length
    area = mul-le-mul h h
