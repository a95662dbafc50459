-- ===== src/Cuda/Kernel/Interleaving/Visited.antt =====
-- Whatever the order of the rounds of the threads, every location that a thread visits has its item.
use blue_space.Prelude.{
  ℕ, zero, suc, ◌+◌, ◌≤◌, ◌<◌, ◌≡◌, refl, sym, ◌∙◌, ◌⊎◌, inl, inr, some, List, [], ◌∷◌, ◌++◌, map,
  leb, arith, All, All-replace, All-mem, Bool-cases, subst, true, false, dec_lt,
}
use blue_space.Cuda.Cgbn.{Cgbn}
use blue_space.Cuda.Hash.{Sponge}
use blue_space.Cuda.Kernel.{u32, Batch, ThreadIdx, KernelArgs, start_size_y, visit_row}
use blue_space.Cuda.Kernel.Items.{IsLoaded, IsItem, IsColumn, saved, column_sponge-IsColumn}
use blue_space.Cuda.Kernel.Threads.{cell, Keeps, Reaches, row_of, visit_row-items}
use blue_space.Cuda.Kernel.Launch.{FitsRows}
use blue_space.Cuda.Kernel.Interleaving.{
  KernelThread, Launch, start_thread, thread_step, LaunchStep, turn, LaunchReach, here, next,
}
use blue_space.Cuda.Kernel.Interleaving.Steps.{thread, break_step, row_step}
use mathlib.Core.Option.{some-injective}
use mathlib.Core.List.{Memᴰ}
use mathlib.Core.List.Memᴰ

module _ (b : Cgbn) (a : KernelArgs) (loaded : IsLoaded a) where
  open a use {chunk, items_per_thread, tpi}

  -- A thread in a column of the chunk: it holds the column, the rows before its round have their
  -- items, and its loop has its rounds left, or is past the chunk.
  pub record IsRunning (k : KernelThread) (batch : Batch) : Type 0 where
    pub inside : k.place.block_x < chunk.side_length
    pub fits : FitsRows b a k.place
    pub column : IsColumn b a loaded k.place.block_x (saved k.sponge)
    pub reached :
        Reaches b a loaded k.place.block_x
          (row_of b a loaded k.place 0)
          (row_of b a loaded k.place k.round)
          batch
    pub rounds :
        (k.round + k.left ≡ items_per_thread)
        ⊎ ((chunk.side_length ≤ row_of b a loaded k.place k.round) × (k.left ≡ 0))

  -- A thread beyond the chunk has returned.
  abbrev pub IsValid : Batch → KernelThread → Type 0
  IsValid batch k = ((chunk.side_length ≤ k.place.block_x) × (k.left ≡ 0)) ⊎ IsRunning k batch

  start_thread-IsValid :
      (u : Sponge × ThreadIdx) (batch : Batch)
      → FitsRows b a u.1
      → IsValid batch (start_thread b a u)
  unfolding start_thread
  start_thread-IsValid (registers, t) batch fits =
      elim (Bool-cases (leb chunk.side_length t.block_x)) [
        | inl beyond ↦ rw beyond (inl (ground arith, refl))
        | inr inside ↦ rw inside (
            inr (record {
              inside = ground arith;
              fits = fits;
              column = column_sponge-IsColumn b a loaded registers t;
              reached = λ y lo hi _. absurd (omega arith);
              rounds = inl (omega arith);
            }))
      ]

  pub start_launch-IsValid :
      (us : List (Sponge × ThreadIdx)) (batch : Batch)
      → All (λ u. FitsRows b a u.1) us
      → All (IsValid batch) (map (start_thread b a) us)
  start_launch-IsValid [] batch fits = tt
  start_launch-IsValid (u ∷ us) batch fits =
      (start_thread-IsValid u batch fits.0, start_launch-IsValid us batch fits.1)

  Keeps-IsValid :
      (before after : Batch) (k : KernelThread)
      → Keeps b a loaded before after
      → IsValid before k
      → IsValid after k
  Keeps-IsValid before after k kept (inl over) = inl over
  Keeps-IsValid before after k kept (inr r) = inr (record {
    inside = r.inside;
    fits = r.fits;
    column = r.column;
    reached = λ y lo hi hy. kept k.place.block_x y r.inside hy (r.reached y lo hi hy);
    rounds = r.rounds;
  })

  -- A step keeps the items that are there, and its thread valid.
  abbrev StepValid : Batch → KernelThread × Batch → Type 0
  StepValid batch (k, after) = Keeps b a loaded batch after × IsValid after k

  break-StepValid :
      (t : ThreadIdx) (s : Sponge) (round left : ℕ) (batch : Batch)
      → leb chunk.side_length (u32 (start_size_y items_per_thread tpi t + round)) ≡ true
      → IsRunning (thread t s round (suc left)) batch
      → StepValid batch (thread t s round 0, batch)
  break-StepValid t s round left batch past v = (
    λ x y _ _ old. old,
    inr (record {
      inside = v.inside;
      fits = v.fits;
      column = v.column;
      reached = v.reached;
      rounds = inr (ground arith, refl);
    }),
  )

  row-StepValid :
      (t : ThreadIdx) (s : Sponge) (round left : ℕ) (batch : Batch)
      → leb chunk.side_length (u32 (start_size_y items_per_thread tpi t + round)) ≡ false
      → IsRunning (thread t s round (suc left)) batch
      → let (s', visited) = visit_row b a t round s batch in
        StepValid batch (thread t s' (round + 1) left, visited)
  row-StepValid t s round left batch row v =
      let rounds : round + suc left ≡ items_per_thread = elim v.rounds [
        | inl going ↦ going
        | inr (_, over) ↦ absurd (omega arith)
      ] in
      let plain : row_of b a loaded t round < chunk.side_length = ground arith in
      let (column, kept, item) =
        visit_row-items b a loaded t round s batch v.inside plain v.column in
      (
        kept,
        inr (record {
          inside = v.inside;
          fits = v.fits;
          column = column;
          reached = λ y lo hi hy. elim (dec_lt y (row_of b a loaded t round)) [
            | yes earlier ↦ kept t.block_x y v.inside hy (v.reached y lo earlier hy)
            | no now ↦
                subst
                  (λ n.
                    IsItem b a loaded t.block_x n
                      ((visit_row b a t round s batch).1 (cell b a loaded t.block_x n)))
                  (omega arith) item
          ];
          rounds = inl (omega arith);
        }),
      )

  thread_step-StepValid :
      (t : ThreadIdx) (s : Sponge) (round left : ℕ) (batch : Batch) (r : KernelThread × Batch)
      → IsValid batch (thread t s round left)
      → thread_step b a (thread t s round left) batch ≡ some r
      → StepValid batch r
  unfolding thread_step
  thread_step-StepValid t s round zero batch r v e = absurd (cc e)
  thread_step-StepValid t s round (suc left) batch r (inl over) e = absurd (omega arith)
  thread_step-StepValid t s round (suc left) batch r (inr v) e =
      elim (Bool-cases
        (leb chunk.side_length (u32 (start_size_y items_per_thread tpi t + round)))) [
          | inl past ↦
              subst (StepValid batch)
                (some-injective _ _ (sym (break_step b a t s round left batch past) ∙ e))
                (break-StepValid t s round left batch past v)
          | inr row ↦
              subst (StepValid batch)
                (some-injective _ _ (sym (row_step b a t s round left batch row) ∙ e))
                (row-StepValid t s round left batch row v)
        ]

  LaunchStep-IsValid :
      {s t : Launch}
      → LaunchStep b a s t
      → All (IsValid s.batch) s.threads
      → All (IsValid t.batch) t.threads
  LaunchStep-IsValid {s} (turn before k k' after batch e f r) valid =
      let valid' = subst (All (IsValid s.batch)) f valid in
      let v =
        All-mem (IsValid s.batch) (before ++ k ∷ after) k valid'
          (Memᴰ.append_right before (Memᴰ.head refl)) in
      let (kept, moved) =
        thread_step-StepValid k.place k.sponge k.round k.left s.batch (k', batch) v e in
      subst (λ (l : Launch). All (IsValid l.batch) l.threads) (sym r)
        (All-replace before k k' after (λ j. Keeps-IsValid s.batch batch j kept) (λ _. moved)
          valid')

  pub LaunchReach-IsValid :
      {s t : Launch}
      → LaunchReach b a s t
      → All (IsValid s.batch) s.threads
      → All (IsValid t.batch) t.threads
  LaunchReach-IsValid here valid = valid
  LaunchReach-IsValid (next r st) valid = LaunchStep-IsValid st (LaunchReach-IsValid r valid)
