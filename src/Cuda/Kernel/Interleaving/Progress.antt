-- ===== src/Cuda/Kernel/Interleaving/Progress.antt =====
-- Every launch has a run to its end.
use blue_space.Prelude.{
  ℕ, zero, suc, ◌+◌, ◌≤◌, ◌<◌, ◌≡◌, refl, sym, ap, ◌∙◌, ◌⊎◌, inl, inr, none, List, [], ◌∷◌, ◌++◌,
  arith, All, Option-cases,
}
use blue_space.Cuda.Cgbn.{Cgbn}
use blue_space.Cuda.Hash.{Sponge}
use blue_space.Cuda.Kernel.{Batch, ThreadIdx, KernelArgs}
use blue_space.Cuda.Kernel.Interleaving.{
  KernelThread, Launch, start_launch, thread_step, LaunchStep, turn, LaunchReach, here, next,
  IsOver,
}
use blue_space.Cuda.Kernel.Interleaving.Steps.{thread_step-MovesOn}
use mathlib.Core.List.{append_assoc}

-- The rounds that the threads have left.
abbrev rounds_left : List KernelThread → ℕ
rounds_left [] = 0
rounds_left (k ∷ ks) = k.left + rounds_left ks

rounds_left-append :
    (ks js : List KernelThread) → rounds_left (ks ++ js) ≡ rounds_left ks + rounds_left js
rounds_left-append [] js = omega arith
rounds_left-append (k ∷ ks) js = omega (arith, rounds_left-append ks js)

module _ (b : Cgbn) (a : KernelArgs) where
  open a use {chunk, items_per_thread}

  LaunchStep-rounds_left :
      {s t : Launch} → LaunchStep b a s t → rounds_left t.threads < rounds_left s.threads
  LaunchStep-rounds_left {s} (turn before k k' after batch e f r) = omega (
    arith,
    ap rounds_left f,
    ap (λ (l : Launch). rounds_left l.threads) r,
    rounds_left-append before (k ∷ after),
    rounds_left-append before (k' ∷ after),
    thread_step-MovesOn b a k.place k.sponge k.round k.left s.batch (k', batch) e,
  )

  -- Unless no thread can take a step, the launch can.
  goes_on :
      (before ks : List KernelThread) (l : Launch)
      → l.threads ≡ before ++ ks
      → All (λ k. thread_step b a k l.batch ≡ none) ks ⊎ ((m : Launch) × LaunchStep b a l m)
  goes_on before [] l e = inl tt
  goes_on before (k ∷ ks) l e = elim (Option-cases (thread_step b a k l.batch)) [
    | inr ((k', batch), move) ↦ inr (_, turn before k k' ks batch move e refl)
    | inl stuck ↦
        elim (goes_on (before ++ k ∷ []) ks l (e ∙ sym (append_assoc before (k ∷ []) ks))) [
          | inl all_stuck ↦ inl (stuck, all_stuck)
          | inr step ↦ inr step
        ]
  ]

  go_on :
      (fuel : ℕ) (s l : Launch)
      → rounds_left l.threads ≤ fuel
      → LaunchReach b a s l
      → (m : Launch) × LaunchReach b a s m × IsOver b a m
  go_on zero s l h r = elim (goes_on [] l.threads l refl) [
    | inl over ↦ (l, r, over)
    | inr (m, step) ↦ absurd (omega (arith, LaunchStep-rounds_left step))
  ]
  go_on (suc fuel) s l h r = elim (goes_on [] l.threads l refl) [
    | inl over ↦ (l, r, over)
    | inr (m, step) ↦ go_on fuel s m (omega (arith, LaunchStep-rounds_left step)) (next r step)
  ]

  -- Every launch can be brought to its end.
  pub some_launch-IsOver :
      (us : List (Sponge × ThreadIdx)) (batch : Batch)
      → (l : Launch) × LaunchReach b a (start_launch b a us batch) l × IsOver b a l
  some_launch-IsOver us batch =
      let start = start_launch b a us batch in
      go_on (rounds_left start.threads) start start (omega arith) here
