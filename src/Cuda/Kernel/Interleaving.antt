-- ===== src/Cuda/Kernel/Interleaving.antt =====
-- miner-cuda/lib/miner.cu, `mine_batch_kernel` on all threads of a launch at once: any thread may do
-- the next round of its loop.
pub mod Steps
pub mod Visited
pub mod Finished
pub mod Progress
use blue_space.Prelude.{
  ℕ, zero, suc, ◌+◌, ◌≡◌, Option, none, some, List, [], ◌∷◌, ◌++◌, map, leb, if◌then◌else◌, All,
}
use blue_space.Cuda.Cgbn.{Cgbn}
use blue_space.Cuda.Hash.{Sponge}
use blue_space.Cuda.Kernel.{
  u32, Batch, ThreadIdx, KernelArgs, start_size_y, column_sponge, visit_row,
}

-- A thread in its loop: i, and how many rounds the loop has left.
pub record KernelThread : Type 0 where
  pub place : ThreadIdx
  pub sponge : Sponge
  pub round : ℕ
  pub left : ℕ

-- The threads of a launch, and the batch in device memory that they share.
pub record Launch : Type 0 where
  pub threads : List KernelThread
  pub batch : Batch

module _ (b : Cgbn) (a : KernelArgs) where
  open a use {chunk, items_per_thread, tpi}

  -- A thread up to its loop, or a thread that returns at once.
  unfoldable pub start_thread : Sponge × ThreadIdx → KernelThread
  start_thread (registers, t) = record {
    place = t;
    sponge = column_sponge b a registers t;
    round = 0;
    left = if leb chunk.side_length t.block_x then 0 else items_per_thread;
  }

  unfoldable pub start_launch : List (Sponge × ThreadIdx) → Batch → Launch
  start_launch ts batch = record { threads = map start_thread ts; batch = batch }

  -- A round of the loop over i, or its `break`; `none` after the last round.
  unfoldable pub thread_step : KernelThread → Batch → Option (KernelThread × Batch)
  thread_step k batch = elim k.left [
    | zero ↦ none
    | suc left ↦
        let (s, visited) = visit_row b a k.place k.round k.sponge batch in
        if leb chunk.side_length (u32 (start_size_y items_per_thread tpi k.place + k.round))
        then some (record k { left = 0 }, batch)
        else some (record k { sponge = s; round = k.round + 1; left = left }, visited)
  ]

  pub data LaunchStep (s : Launch) (t : Launch) : Type 0 where
    turn :
        (before : List KernelThread) (k k' : KernelThread) (after : List KernelThread)
        (batch : Batch)
        → thread_step k s.batch ≡ some (k', batch)
        → s.threads ≡ before ++ k ∷ after
        → t ≡ record { threads = before ++ k' ∷ after; batch = batch }
        → LaunchStep s t

  pub data LaunchReach (s : Launch) : Launch → Type 0 where
    here : LaunchReach s s
    next : {t u : Launch} → LaunchReach s t → LaunchStep t u → LaunchReach s u

  -- No thread can take a step.
  abbrev pub IsOver : Launch → Type 0
  IsOver t = All (λ k. thread_step k t.batch ≡ none) t.threads
