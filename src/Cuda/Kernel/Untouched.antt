-- ===== src/Cuda/Kernel/Untouched.antt =====
-- The cells that no thread of a launch visits.
use blue_space.Prelude.{
  ℕ, zero, suc, ◌+◌, ◌*◌, ◌^◌, ◌≤◌, ◌<◌, ◌≡◌, ◌≢◌, refl, sym, ap, ◌∙◌, arith, List, [], ◌∷◌, All,
  ne→==, dec_lt,
}
use blue_space.Cuda.Cgbn.{Cgbn}
use blue_space.Cuda.Hash.{Sponge}
use blue_space.Cuda.Kernel.{
  u32, Batch, ThreadIdx, KernelArgs, visit_row, thread_rows, mine_batch_kernel,
}
use blue_space.Cuda.Kernel.Items.{IsLoaded}
use blue_space.Cuda.Kernel.Cells.{cell_injective}
use blue_space.Cuda.Kernel.Threads.{
  row_of, visit_row-store, store_elsewhere, thread_rows_stop, thread_rows_go,
}
use blue_space.Cuda.Kernel.Launch.{run_threads, FitsRows, Visits, kernel_stop, kernel_go}
use mathlib.Core.List.{Memᴰ}
use native.Mathlib.Nat.{mod-eq_of_lt}

module _ (b : Cgbn) (a : KernelArgs) (loaded : IsLoaded a) where
  open a use {chunk, items_per_thread, tpi}

  abbrev side : ℕ
  side = chunk.side_length

  visit_row-untouched :
      (t : ThreadIdx) (i j : ℕ) (s : Sponge) (batch : Batch)
      → t.block_x < side
      → row_of b a loaded t i < side
      → j ≢ t.block_x + side * row_of b a loaded t i
      → (visit_row b a t i s batch).1 j ≡ batch j
  visit_row-untouched t i j s batch hx hy away =
      ap (λ z. z j) (visit_row-store b a loaded t i s batch hx hy)
      ∙ store_elsewhere b a loaded batch _ j _ (ne→== j _ away)

  thread_rows-untouched :
      (t : ThreadIdx) (left i j : ℕ) (s : Sponge) (batch : Batch)
      → t.block_x < side
      → row_of b a loaded t i + left ≤ 2 ^ 32
      → ((y : ℕ)
          → row_of b a loaded t i ≤ y
          → y < row_of b a loaded t i + left
          → y < side
          → j ≢ t.block_x + side * y)
      → thread_rows b a t left i s batch j ≡ batch j
  unfolding thread_rows
  thread_rows-untouched t zero i j s batch hx fits away = refl
  thread_rows-untouched t (suc left) i j s batch hx fits away =
      elim (dec_lt (u32 (row_of b a loaded t i)) side) [
        | yes more ↦
            ap (λ z. z j) (thread_rows_go b a loaded t left i s batch more)
            ∙ thread_rows-untouched t left (i + 1) j (visit_row b a t i s batch).0
                (visit_row b a t i s batch).1 hx (omega arith)
                (λ y lo hi hy. away y (omega arith) (omega arith) hy)
            ∙ visit_row-untouched t i j s batch hx (omega (arith, plain))
                (away (row_of b a loaded t i) (omega arith) (omega arith) (omega (arith, plain)))
        | no last ↦ ap (λ z. z j) (thread_rows_stop b a loaded t left i s batch (omega arith))
      ]
    where
      plain : u32 (row_of b a loaded t i) ≡ row_of b a loaded t i
      plain = mod-eq_of_lt (omega arith)

  kernel-untouched :
      (registers : Sponge) (t : ThreadIdx) (batch : Batch) (x y : ℕ)
      → FitsRows b a t
      → x < side
      → y < side
      → ¬ Visits b a t x y
      → mine_batch_kernel b a registers t batch (x + side * y) ≡ batch (x + side * y)
  kernel-untouched registers t batch x y fits hx hy away = elim (dec_lt t.block_x side) [
    | yes h ↦
        ap (λ z. z (x + side * y)) (kernel_go b a loaded registers t batch h)
        ∙ thread_rows-untouched t items_per_thread 0 (x + side * y) _ batch h (omega arith)
            (λ row lo hi hr same.
              let (same_x, same_y) = cell_injective side x y t.block_x row hx h same in
              away (sym same_x, omega arith, omega arith))
    | no h ↦ ap (λ z. z (x + side * y)) (kernel_stop b a loaded registers t batch (omega arith))
  ]

  -- A cell that no thread visits holds at the end what it held before.
  pub run_threads-untouched :
      (ts : List (Sponge × ThreadIdx)) (batch : Batch) (x y : ℕ)
      → All (λ u. FitsRows b a u.1) ts
      → x < side
      → y < side
      → ((u : Sponge × ThreadIdx) → Memᴰ u ts → ¬ Visits b a u.1 x y)
      → run_threads b a ts batch (x + side * y) ≡ batch (x + side * y)
  unfolding run_threads
  run_threads-untouched [] batch x y fits hx hy away = refl
  run_threads-untouched ((registers, t) ∷ ts) batch x y fits hx hy away =
      run_threads-untouched ts (mine_batch_kernel b a registers t batch) x y fits.1 hx hy
        (λ u m. away u (Memᴰ.tail m))
      ∙ kernel-untouched registers t batch x y fits.0 hx hy (away (registers, t) (Memᴰ.head refl))
