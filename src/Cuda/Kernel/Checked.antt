-- ===== src/Cuda/Kernel/Checked.antt =====
-- miner-cuda/lib/miner.cu, wrap_coordinate and mine_batch_kernel with the arithmetic of int64_t,
-- where a sum or an opposite that does not fit is undefined behaviour.
use blue_space.Prelude.{
  ℕ, zero, suc, ◌+◌, ◌^◌, ◌≤◌, ◌<◌, ◌≡◌, refl, inl, inr, true, false, List, [], ◌∷◌, leb, arith,
  All, if◌then◌else◌, Bool-cases,
}
use blue_space.Prelude.Int.{ℤ, pos, ◌+ℤ◌, ◌-ℤ◌, leb_ℤ, to_u32, int_laws}
use blue_space.Outcome.{Outcome, done, ◌>>=◌}
use blue_space.Int64.{
  int64, int64-eq-done, HasOpposite, add-IsInt64, neg-eq-done, coordinate-HasOpposite,
}
use blue_space.Footprint.{IsInsideChunk}
use blue_space.Cuda.Cgbn.{Cgbn}
use blue_space.Cuda.Hash.{Sponge, reset, save, restore, result, wrap_coordinate, inject, mix}
use blue_space.Cuda.Kernel.{
  Batch, ThreadIdx, KernelArgs, u32, start_size_y, result_idx, store, write_item, column_sponge,
  row_sponge, visit_row, thread_rows, mine_batch_kernel,
}
use blue_space.Cuda.Kernel.Launch.{run_threads, FitsRows}

module _ (b : Cgbn) (a : KernelArgs) where
  open a use {chunk, items_per_thread, key, mimc_p, mimc_c, tpi}

  unfoldable pub checked_wrap_coordinate : ℤ → Outcome ℕ
  checked_wrap_coordinate c =
      if leb_ℤ (pos 0) c
      then done (to_u32 c)
      else (do opposite ← int64 (pos 0 -ℤ c); done (b.sub mimc_p (to_u32 opposite)))

  unfoldable pub checked_visit_row : ThreadIdx → ℕ → Sponge → Batch → Outcome (Sponge × Batch)
  checked_visit_row t i s batch = do
    first ← int64 (chunk.bottom_left.y +ℤ pos (start_size_y items_per_thread tpi t))
    coord_y ← int64 (first +ℤ pos i)
    yi ← checked_wrap_coordinate coord_y
    let s' = mix b key mimc_c mimc_p (inject b (restore s) yi mimc_p)
    let cell = result_idx chunk.side_length t (u32 (start_size_y items_per_thread tpi t + i))
    done (s', store batch cell (write_item b a t coord_y (result s') (batch cell)))

  unfoldable pub checked_thread_rows : ThreadIdx → ℕ → ℕ → Sponge → Batch → Outcome Batch
  checked_thread_rows t zero i s batch = done batch
  checked_thread_rows t (suc left) i s batch =
      elim (leb chunk.side_length (u32 (start_size_y items_per_thread tpi t + i))) [
        | true ↦ done batch
        | false ↦ do
          (s', batch') ← checked_visit_row t i s batch
          checked_thread_rows t left (i + 1) s' batch'
      ]

  unfoldable pub checked_kernel : Sponge → ThreadIdx → Batch → Outcome Batch
  checked_kernel registers t batch = if leb chunk.side_length t.block_x then done batch else (do
    coord_x ← int64 (chunk.bottom_left.x +ℤ pos t.block_x)
    xi ← checked_wrap_coordinate coord_x
    let s = save (mix b key mimc_c mimc_p (inject b (reset registers) xi mimc_p))
    checked_thread_rows t items_per_thread 0 s batch)

  unfoldable pub checked_run_threads : List (Sponge × ThreadIdx) → Batch → Outcome Batch
  checked_run_threads [] batch = done batch
  checked_run_threads ((registers, t) ∷ ts) batch = do
    after ← checked_kernel registers t batch
    checked_run_threads ts after

  checked_wrap_coordinate-eq-done :
      (c : ℤ) → HasOpposite c → checked_wrap_coordinate c ≡ done (wrap_coordinate b c mimc_p)
  unfolding checked_wrap_coordinate wrap_coordinate
  checked_wrap_coordinate-eq-done c h = elim (Bool-cases (leb_ℤ (pos 0) c)) [
    | inl e ↦ rw e refl
    | inr e ↦ rw (e, neg-eq-done c h) refl
  ]

  checked_visit_row-eq-done :
      (t : ThreadIdx) (i : ℕ) (s : Sponge) (batch : Batch)
      → IsInsideChunk chunk
      → start_size_y items_per_thread tpi t + i < chunk.side_length
      → checked_visit_row t i s batch ≡ done (visit_row b a t i s batch)
  unfolding checked_visit_row visit_row row_sponge
  checked_visit_row-eq-done t i s batch h l =
      let first = start_size_y items_per_thread tpi t in
      let y = chunk.bottom_left.y in
      let same : y +ℤ pos first +ℤ pos i ≡ y +ℤ pos (first + i) = omega int_laws in
      let valid : HasOpposite (y +ℤ pos first +ℤ pos i) =
        rw same (coordinate-HasOpposite y chunk.side_length (first + i) h.1 l) in
      rw
        (
          int64-eq-done (y +ℤ pos first) (add-IsInt64 y chunk.side_length first h.1 (omega arith)),
          int64-eq-done (y +ℤ pos first +ℤ pos i) (omega arith),
          checked_wrap_coordinate-eq-done (y +ℤ pos first +ℤ pos i) valid,
        )
        refl

  checked_thread_rows-eq-done :
      (t : ThreadIdx) (left i : ℕ) (s : Sponge) (batch : Batch)
      → IsInsideChunk chunk
      → start_size_y items_per_thread tpi t + i + left ≤ 2 ^ 32
      → checked_thread_rows t left i s batch ≡ done (thread_rows b a t left i s batch)
  unfolding checked_thread_rows thread_rows
  checked_thread_rows-eq-done t zero i s batch h fits = refl
  checked_thread_rows-eq-done t (suc left) i s batch h fits =
      elim (Bool-cases (leb chunk.side_length (u32 (start_size_y items_per_thread tpi t + i)))) [
        | inl past ↦ rw (checked_thread_rows, past) refl
        | inr row ↦
            rw (checked_thread_rows, row, checked_visit_row-eq-done t i s batch h (ground arith))
              (checked_thread_rows-eq-done t left (i + 1) (visit_row b a t i s batch).0
                (visit_row b a t i s batch).1 h (omega arith))
      ]

  checked_kernel-eq-done :
      (registers : Sponge) (t : ThreadIdx) (batch : Batch)
      → IsInsideChunk chunk
      → FitsRows b a t
      → checked_kernel registers t batch ≡ done (mine_batch_kernel b a registers t batch)
  unfolding checked_kernel mine_batch_kernel column_sponge
  checked_kernel-eq-done registers t batch h fits =
      elim (Bool-cases (leb chunk.side_length t.block_x)) [
        | inl past ↦ rw past refl
        | inr column ↦
            let x = chunk.bottom_left.x in
            let inside : t.block_x < chunk.side_length = ground arith in
            rw
              (
                column,
                int64-eq-done (x +ℤ pos t.block_x)
                    (add-IsInt64 x chunk.side_length t.block_x h.0 (omega arith)),
                checked_wrap_coordinate-eq-done (x +ℤ pos t.block_x)
                    (coordinate-HasOpposite x chunk.side_length t.block_x h.0 inside),
              )
              (checked_thread_rows-eq-done t items_per_thread 0 _ batch h (omega arith))
      ]

  -- For a square with coordinates above INT64_MIN and ends up to INT64_MAX, and threads whose rows
  -- stay within 32 bits: no thread computes a sum or an opposite that overflows, so that the launch
  -- does with checked arithmetic what it does without.
  pub threads_typed :
      (ts : List (Sponge × ThreadIdx)) (batch : Batch)
      → IsInsideChunk chunk
      → All (λ u. FitsRows b a u.1) ts
      → checked_run_threads ts batch ≡ done (run_threads b a ts batch)
  unfolding checked_run_threads run_threads
  threads_typed [] batch h fits = refl
  threads_typed ((registers, t) ∷ ts) batch h fits =
      rw (checked_kernel-eq-done registers t batch h fits.0)
        (threads_typed ts (mine_batch_kernel b a registers t batch) h fits.1)
