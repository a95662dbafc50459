-- ===== src/Cuda/Kernel/Threads.antt =====
-- What one thread leaves in the batch: the items of its rows, and every item that was there.
use blue_space.Prelude.{
  ℕ, zero, suc, ◌+◌, ◌*◌, ◌^◌, ◌≤◌, ◌<◌, ◌≡◌, refl, sym, ap, ap₂, ◌∙◌, inl, inr, false, arith, ◌==◌,
  Bool-cases, le→leb, leb_gt, ==_iff, subst, dec_lt,
}
use blue_space.Prelude.Int.{pos, ◌+ℤ◌, int_laws}
use blue_space.Cuda.Cgbn.{Cgbn}
use blue_space.Cuda.Hash.{Sponge, result}
use blue_space.Cuda.Kernel.{
  u32, CudaWorkItem, Batch, ThreadIdx, KernelArgs, start_size_y, result_idx, store, row_sponge,
  write_item, visit_row, thread_rows,
}
use blue_space.Cuda.Kernel.Items.{
  IsLoaded, IsItem, IsColumn, saved, coordinate_y, row_sponge-saved, row_sponge-result,
  write_item-IsItem,
}
use blue_space.Cuda.Kernel.Cells.{cell_injective, cell_bound, area_bound}
use native.Mathlib.Nat.{mod-eq_of_lt}

module _ (b : Cgbn) (a : KernelArgs) (loaded : IsLoaded a) where
  open a use {chunk, items_per_thread, mimc_p, tpi}

  abbrev pub side : ℕ
  side = chunk.side_length

  -- The cell of column x and row y.
  abbrev pub cell : ℕ → ℕ → ℕ
  cell x y = x + side * y

  -- The items that were there stay.
  abbrev pub Keeps : Batch → Batch → Type 0
  Keeps before after =
      (x y : ℕ)
      → x < side
      → y < side
      → IsItem b a loaded x y (before (cell x y))
      → IsItem b a loaded x y (after (cell x y))

  result_idx-cell :
      (t : ThreadIdx) (row : ℕ)
      → t.block_x < side
      → row < side
      → result_idx side t row ≡ cell t.block_x row
  unfolding result_idx
  result_idx-cell t row hx hy =
      mod-eq_of_lt
        (omega (arith, cell_bound side t.block_x row hx hy, area_bound side loaded.square))

  store_here : (batch : Batch) (i : ℕ) (item : CudaWorkItem) → store batch i item i ≡ item
  unfolding store
  store_here batch i item = ground arith

  pub store_elsewhere :
      (batch : Batch) (i j : ℕ) (item : CudaWorkItem)
      → (j == i) ≡ false
      → store batch i item j ≡ batch j
  unfolding store
  store_elsewhere batch i j item e = rw e refl

  -- Storing the item of a cell there keeps the items of all cells.
  store-Keeps :
      (batch : Batch) (x y : ℕ) (item : CudaWorkItem)
      → x < side
      → y < side
      → IsItem b a loaded x y item
      → Keeps batch (store batch (cell x y) item)
  store-Keeps batch x y item hx hy v x' y' hx' hy' old =
      elim (Bool-cases (cell x' y' == cell x y)) [
        | inl e ↦
            let here : cell x' y' ≡ cell x y = (==_iff (cell x' y') (cell x y)).0 e in
            let same = cell_injective side x' y' x y hx' hx here in
            subst (λ n. IsItem b a loaded x' n (store batch (cell x y) item (cell x' n)))
              (sym same.1)
              (subst (λ m. IsItem b a loaded m y (store batch (cell x y) item (cell m y)))
                (sym same.0)
                (subst (IsItem b a loaded x y) (sym (store_here batch (cell x y) item)) v))
        | inr e ↦ subst (IsItem b a loaded x' y') (sym (store_elsewhere batch _ _ item e)) old
      ]

  -- The row that a thread visits in round i of its loop.
  abbrev pub row_of : ThreadIdx → ℕ → ℕ
  row_of t i = start_size_y items_per_thread tpi t + i

  coord_y-row :
      (t : ThreadIdx) (i : ℕ)
      → chunk.bottom_left.y +ℤ pos (start_size_y items_per_thread tpi t) +ℤ pos i
        ≡ coordinate_y b a loaded (row_of t i)
  coord_y-row t i = omega int_laws

  -- The items of rows lo to hi of a column are there.
  abbrev pub Reaches : ℕ → ℕ → ℕ → Batch → Type 0
  Reaches x lo hi batch =
      (y : ℕ) → lo ≤ y → y < hi → y < side → IsItem b a loaded x y (batch (cell x y))

  pub row_item : ThreadIdx → ℕ → Sponge → Batch → CudaWorkItem
  row_item t row s batch =
      write_item b a t (coordinate_y b a loaded row)
        (result (row_sponge b a s (coordinate_y b a loaded row))) (batch (cell t.block_x row))

  pub visit_row-store :
      (t : ThreadIdx) (i : ℕ) (s : Sponge) (batch : Batch)
      → t.block_x < side
      → row_of t i < side
      → (visit_row b a t i s batch).1
        ≡ store batch (cell t.block_x (row_of t i)) (row_item t (row_of t i) s batch)
  unfolding visit_row row_item
  visit_row-store t i s batch hx hy =
      ap₂ (λ c k. store batch k (write_item b a t c (result (row_sponge b a s c)) (batch k)))
        (coord_y-row t i)
        (ap (result_idx side t) (mod-eq_of_lt (omega (arith, loaded.square)))
          ∙ result_idx-cell t (row_of t i) hx hy)

  row_item-IsItem :
      (t : ThreadIdx) (row : ℕ) (s : Sponge) (batch : Batch)
      → IsColumn b a loaded t.block_x (saved s)
      → IsItem b a loaded t.block_x row (row_item t row s batch)
  unfolding row_item
  row_item-IsItem t row s batch v =
      let (bounded, same) =
        row_sponge-result b a loaded t.block_x s (coordinate_y b a loaded row) v in
      write_item-IsItem b a loaded t row _ (batch (cell t.block_x row)) bounded same

  visit_row-saved :
      (t : ThreadIdx) (i : ℕ) (s : Sponge) (batch : Batch)
      → saved (visit_row b a t i s batch).0 ≡ saved s
  unfolding visit_row
  visit_row-saved t i s batch = row_sponge-saved b a loaded s _

  pub visit_row-items :
      (t : ThreadIdx) (i : ℕ) (s : Sponge) (batch : Batch)
      → t.block_x < side
      → row_of t i < side
      → IsColumn b a loaded t.block_x (saved s)
      → let (s', batch') = visit_row b a t i s batch in
        IsColumn b a loaded t.block_x (saved s')
        × Keeps batch batch'
        × IsItem b a loaded t.block_x (row_of t i) (batch' (cell t.block_x (row_of t i)))
  visit_row-items t i s batch hx hy v = (
    subst (IsColumn b a loaded t.block_x) (sym (visit_row-saved t i s batch)) v,
    subst (Keeps batch) (sym stored)
        (store-Keeps batch t.block_x (row_of t i) (row_item t (row_of t i) s batch) hx hy item),
    subst (λ z. IsItem b a loaded t.block_x (row_of t i) (z (cell t.block_x (row_of t i))))
        (sym stored)
        (subst (IsItem b a loaded t.block_x (row_of t i))
          (sym (store_here batch (cell t.block_x (row_of t i)) _)) item),
  )
    where
      item : IsItem b a loaded t.block_x (row_of t i) (row_item t (row_of t i) s batch)
      item = row_item-IsItem t (row_of t i) s batch v

      stored :
          (visit_row b a t i s batch).1
          ≡ store batch (cell t.block_x (row_of t i)) (row_item t (row_of t i) s batch)
      stored = visit_row-store t i s batch hx hy

  pub thread_rows_stop :
      (t : ThreadIdx) (left i : ℕ) (s : Sponge) (batch : Batch)
      → side ≤ u32 (row_of t i)
      → thread_rows b a t (suc left) i s batch ≡ batch
  unfolding thread_rows
  thread_rows_stop t left i s batch h = rw (le→leb side (u32 (row_of t i)) h) refl

  pub thread_rows_go :
      (t : ThreadIdx) (left i : ℕ) (s : Sponge) (batch : Batch)
      → u32 (row_of t i) < side
      → let (s', batch') = visit_row b a t i s batch in
        thread_rows b a t (suc left) i s batch ≡ thread_rows b a t left (i + 1) s' batch'
  unfolding thread_rows
  thread_rows_go t left i s batch h = rw (leb_gt side (u32 (row_of t i)) h) refl

  -- The first round of the loop, and then the others.
  first_and_rest :
      (t : ThreadIdx) (left i : ℕ) (batch : Batch) (visited : Sponge × Batch)
      → IsColumn b a loaded t.block_x (saved visited.0)
        × Keeps batch visited.1
        × IsItem b a loaded t.block_x (row_of t i) (visited.1 (cell t.block_x (row_of t i)))
      → let after = thread_rows b a t left (i + 1) visited.0 visited.1 in
        (IsColumn b a loaded t.block_x (saved visited.0)
          → Keeps visited.1 after
            × Reaches t.block_x (row_of t (i + 1)) (row_of t (i + 1) + left) after)
        → t.block_x < side
        → Keeps batch after × Reaches t.block_x (row_of t i) (row_of t i + suc left) after
  first_and_rest t left i batch visited (column, kept, item) rest hx =
      let (kept_after, reached) = rest column in
      (
        λ x y hx' hy old. kept_after x y hx' hy (kept x y hx' hy old),
        λ y lo hi hy. elim (dec_lt (row_of t i) y) [
          | yes later ↦ reached y (omega arith) (omega arith) hy
          | no first ↦ kept_after t.block_x y hx hy (
              subst (λ n. IsItem b a loaded t.block_x n (visited.1 (cell t.block_x n)))
                (omega arith) item)
        ],
      )

  pub thread_rows-items :
      (t : ThreadIdx) (left i : ℕ) (s : Sponge) (batch : Batch)
      → t.block_x < side
      → row_of t i + left ≤ 2 ^ 32
      → IsColumn b a loaded t.block_x (saved s)
      → let after = thread_rows b a t left i s batch in
        Keeps batch after × Reaches t.block_x (row_of t i) (row_of t i + left) after
  unfolding thread_rows
  thread_rows-items t zero i s batch hx fits v =
      (λ x y _ _ old. old, λ y lo hi _. absurd (omega arith))
  thread_rows-items t (suc left) i s batch hx fits v = elim (dec_lt (u32 (row_of t i)) side) [
    | yes more ↦
        subst (λ z. Keeps batch z × Reaches t.block_x (row_of t i) (row_of t i + suc left) z)
          (sym (thread_rows_go t left i s batch more))
          (first_and_rest t left i batch (visit_row b a t i s batch)
            (visit_row-items t i s batch hx (omega (arith, plain)) v)
            (λ w.
              thread_rows-items t left (i + 1) (visit_row b a t i s batch).0
                (visit_row b a t i s batch).1 hx (omega arith) w)
            hx)
    | no last ↦
        subst (λ z. Keeps batch z × Reaches t.block_x (row_of t i) (row_of t i + suc left) z)
          (sym (thread_rows_stop t left i s batch (omega arith)))
          (λ x y _ _ old. old, λ y lo hi hy. absurd (omega (arith, plain)))
  ]
    where
      plain : u32 (row_of t i) ≡ row_of t i
      plain = mod-eq_of_lt (omega arith)
