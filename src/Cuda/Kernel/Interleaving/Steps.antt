-- ===== src/Cuda/Kernel/Interleaving/Steps.antt =====
-- One step of a thread of a launch.
use blue_space.Prelude.{
  ℕ, zero, suc, ◌+◌, ◌<◌, ◌≡◌, refl, sym, ◌∙◌, inl, inr, true, false, none, some, leb, arith,
  Bool-cases, subst,
}
use blue_space.Cuda.Cgbn.{Cgbn}
use blue_space.Cuda.Hash.{Sponge}
use blue_space.Cuda.Kernel.{u32, Batch, ThreadIdx, KernelArgs, start_size_y, visit_row}
use blue_space.Cuda.Kernel.Interleaving.{KernelThread, thread_step}
use mathlib.Core.Option.{some-injective}

abbrev pub thread : ThreadIdx → Sponge → ℕ → ℕ → KernelThread
thread t s round left = record { place = t; sponge = s; round = round; left = left }

module _ (b : Cgbn) (a : KernelArgs) where
  open a use {chunk, items_per_thread, tpi}

  pub break_step :
      (t : ThreadIdx) (s : Sponge) (round left : ℕ) (batch : Batch)
      → leb chunk.side_length (u32 (start_size_y items_per_thread tpi t + round)) ≡ true
      → thread_step b a (thread t s round (suc left)) batch ≡ some (thread t s round 0, batch)
  unfolding thread_step
  break_step t s round left batch past = rw past refl

  pub row_step :
      (t : ThreadIdx) (s : Sponge) (round left : ℕ) (batch : Batch)
      → leb chunk.side_length (u32 (start_size_y items_per_thread tpi t + round)) ≡ false
      → let (s', visited) = visit_row b a t round s batch in
        thread_step b a (thread t s round (suc left)) batch
        ≡ some (thread t s' (round + 1) left, visited)
  unfolding thread_step
  row_step t s round left batch row = rw row refl

  -- The thread stays where it is, with fewer rounds left.
  abbrev MovesOn : KernelThread → KernelThread × Batch → Type 0
  MovesOn k (k', after) = (k'.place ≡ k.place) × (k'.left < k.left)

  pub thread_step-MovesOn :
      (t : ThreadIdx) (s : Sponge) (round left : ℕ) (batch : Batch) (r : KernelThread × Batch)
      → thread_step b a (thread t s round left) batch ≡ some r
      → (r.0.place ≡ t) × (r.0.left < left)
  unfolding thread_step
  thread_step-MovesOn t s round zero batch r e = absurd (cc e)
  thread_step-MovesOn t s round (suc left) batch r e =
      elim (Bool-cases
        (leb chunk.side_length (u32 (start_size_y items_per_thread tpi t + round)))) [
          | inl past ↦
              subst (MovesOn (thread t s round (suc left)))
                (some-injective _ _ (sym (break_step t s round left batch past) ∙ e))
                (refl, omega arith)
          | inr row ↦
              subst (MovesOn (thread t s round (suc left)))
                (some-injective _ _ (sym (row_step t s round left batch row) ∙ e))
                (refl, omega arith)
        ]

  -- A thread that cannot step has no rounds left.
  pub thread_step-none :
      (t : ThreadIdx) (s : Sponge) (round left : ℕ) (batch : Batch)
      → thread_step b a (thread t s round left) batch ≡ none
      → left ≡ 0
  unfolding thread_step
  thread_step-none t s round zero batch e = refl
  thread_step-none t s round (suc left) batch e =
      elim (Bool-cases
        (leb chunk.side_length (u32 (start_size_y items_per_thread tpi t + round)))) [
          | inl past ↦ absurd (cc (break_step t s round left batch past))
          | inr row ↦ absurd (cc (row_step t s round left batch row))
        ]
