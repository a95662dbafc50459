-- ===== src/Cuda/Kernel/Launch.antt =====
-- A launch: the threads of the grid in any order, each with whatever its registers hold.
use blue_space.Prelude.{
  ℕ, ◌+◌, ◌^◌, ◌≤◌, ◌<◌, ◌*◌, ◌≡◌, refl, sym, subst, inl, inr, List, [], ◌∷◌, All, arith, le→leb,
  leb_gt, dec_lt,
}
use blue_space.Cuda.Cgbn.{Cgbn}
use blue_space.Cuda.Hash.{Sponge}
use blue_space.Cuda.Kernel.{
  Batch, ThreadIdx, KernelArgs, start_size_y, column_sponge, thread_rows, mine_batch_kernel,
}
use blue_space.Cuda.Kernel.Items.{IsLoaded, IsItem, column_sponge-IsColumn}
use blue_space.Cuda.Kernel.Threads.{Keeps, Reaches, row_of, thread_rows-items}
use mathlib.Core.List.{Memᴰ}
use mathlib.Core.List.Memᴰ

module _ (b : Cgbn) (a : KernelArgs) where
  open a use {chunk, items_per_thread, tpi}

  unfoldable pub run_threads : List (Sponge × ThreadIdx) → Batch → Batch
  run_threads [] batch = batch
  run_threads ((registers, t) ∷ ts) batch = run_threads ts (mine_batch_kernel b a registers t batch)

  -- The loop of the thread stays within 32 bits.
  abbrev pub FitsRows : ThreadIdx → Type 0
  FitsRows t = start_size_y items_per_thread tpi t + items_per_thread ≤ 2 ^ 32

  -- The thread's column is x, and y is among its rows.
  abbrev pub Visits : ThreadIdx → ℕ → ℕ → Type 0
  Visits t x y =
      (t.block_x ≡ x)
      × (start_size_y items_per_thread tpi t ≤ y)
      × (y < start_size_y items_per_thread tpi t + items_per_thread)

  module _ (loaded : IsLoaded a) where
    pub kernel_stop :
        (registers : Sponge) (t : ThreadIdx) (batch : Batch)
        → chunk.side_length ≤ t.block_x
        → mine_batch_kernel b a registers t batch ≡ batch
    unfolding mine_batch_kernel
    kernel_stop registers t batch h = rw (le→leb chunk.side_length t.block_x h) refl

    pub kernel_go :
        (registers : Sponge) (t : ThreadIdx) (batch : Batch)
        → t.block_x < chunk.side_length
        → mine_batch_kernel b a registers t batch
          ≡ thread_rows b a t items_per_thread 0 (column_sponge b a registers t) batch
    unfolding mine_batch_kernel
    kernel_go registers t batch h = rw (leb_gt chunk.side_length t.block_x h) refl

    kernel-items :
        (registers : Sponge) (t : ThreadIdx) (batch : Batch)
        → FitsRows t
        → t.block_x < chunk.side_length
        → let after = mine_batch_kernel b a registers t batch in
          Keeps b a loaded batch after
          × Reaches b a loaded t.block_x
              (row_of b a loaded t 0)
              (row_of b a loaded t 0 + items_per_thread)
              after
    kernel-items registers t batch fits h =
        subst
          (λ z.
            Keeps b a loaded batch z
            × Reaches b a loaded t.block_x (row_of b a loaded t 0)
                (row_of b a loaded t 0 + items_per_thread) z)
          (sym (kernel_go registers t batch h))
          (thread_rows-items b a loaded t items_per_thread 0 (column_sponge b a registers t) batch h
            (omega arith) (column_sponge-IsColumn b a loaded registers t))

    kernel-Keeps :
        (registers : Sponge) (t : ThreadIdx) (batch : Batch)
        → FitsRows t
        → Keeps b a loaded batch (mine_batch_kernel b a registers t batch)
    kernel-Keeps registers t batch fits = elim (dec_lt t.block_x chunk.side_length) [
      | yes h ↦ (kernel-items registers t batch fits h).0
      | no h ↦
          subst (Keeps b a loaded batch) (sym (kernel_stop registers t batch (omega arith)))
            (λ x y _ _ old. old)
    ]

    kernel-visit :
        (registers : Sponge) (t : ThreadIdx) (batch : Batch) (x y : ℕ)
        → FitsRows t
        → Visits t x y
        → x < chunk.side_length
        → y < chunk.side_length
        → IsItem b a loaded x y
            (mine_batch_kernel b a registers t batch (x + chunk.side_length * y))
    kernel-visit registers t batch x y fits v hx hy =
        subst
          (λ z.
            IsItem b a loaded z y
              (mine_batch_kernel b a registers t batch (z + chunk.side_length * y)))
          v.0
          ((kernel-items registers t batch fits (omega (arith, v.0))).1 y (omega (arith, v.1))
            (omega (arith, v.2)) hy)

    run_threads-Keeps :
        (ts : List (Sponge × ThreadIdx)) (batch : Batch)
        → All (λ u. FitsRows u.1) ts
        → Keeps b a loaded batch (run_threads ts batch)
    unfolding run_threads
    run_threads-Keeps [] batch fits x y hx hy old = old
    run_threads-Keeps ((registers, t) ∷ ts) batch fits x y hx hy old =
        run_threads-Keeps ts (mine_batch_kernel b a registers t batch) fits.1 x y hx hy
          (kernel-Keeps registers t batch fits.0 x y hx hy old)

    -- With a modulus between 2 ^ 32 and 2 ^ 255, a key and constants up to it, a side below 2 ^
    -- 16, and threads whose rows stay within 32 bits: a location of the chunk that some thread
    -- visits has its item in its cell of the batch at the end, wherever that thread stands in the
    -- order, and whatever the batch and the registers held. The item has the location's
    -- coordinates and the outcome of the test on a number up to P that is congruent to its hash,
    -- and for a planet that number.
    pub run_threads-IsItem :
        (ts : List (Sponge × ThreadIdx)) (batch : Batch) (x y : ℕ) (u : Sponge × ThreadIdx)
        → All (λ u. FitsRows u.1) ts
        → Memᴰ u ts
        → Visits u.1 x y
        → x < chunk.side_length
        → y < chunk.side_length
        → IsItem b a loaded x y (run_threads ts batch (x + chunk.side_length * y))
    unfolding run_threads
    run_threads-IsItem [] batch x y u fits m v hx hy = absurd (Memᴰ.not-nil m)
    run_threads-IsItem ((registers, t) ∷ ts) batch x y u fits m v hx hy = elim (Memᴰ.cases_cons m) [
      | inl e ↦ run_threads-Keeps ts (mine_batch_kernel b a registers t batch) fits.1 x y hx hy (
          kernel-visit registers t batch x y fits.0
            (subst (λ (w : Sponge × ThreadIdx). Visits w.1 x y) e v) hx hy)
      | inr later ↦ run_threads-IsItem ts _ x y u fits.1 later v hx hy
    ]
