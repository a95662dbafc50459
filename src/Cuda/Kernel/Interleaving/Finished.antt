-- ===== src/Cuda/Kernel/Interleaving/Finished.antt =====
-- What a launch leaves, whatever the order of the rounds of its threads.
use blue_space.Prelude.{
  ℕ, ◌+◌, ◌*◌, ◌<◌, ◌≡◌, refl, sym, ap, ◌∙◌, inl, inr, none, List, [], ◌∷◌, map, arith, All,
  All-mem, subst,
}
use blue_space.Cuda.Cgbn.{Cgbn}
use blue_space.Cuda.Hash.{Sponge}
use blue_space.Cuda.Kernel.{Batch, ThreadIdx, KernelArgs}
use blue_space.Cuda.Kernel.Items.{IsLoaded, IsItem}
use blue_space.Cuda.Kernel.Launch.{FitsRows, Visits}
use blue_space.Cuda.Kernel.Interleaving.{
  KernelThread, Launch, start_thread, start_launch, thread_step, LaunchStep, turn, LaunchReach,
  here, next, IsOver,
}
use blue_space.Cuda.Kernel.Interleaving.Visited.{IsValid, start_launch-IsValid, LaunchReach-IsValid}
use blue_space.Cuda.Kernel.Interleaving.Steps.{thread_step-MovesOn, thread_step-none}
use mathlib.Core.List.{Memᴰ}
use mathlib.Core.List.Memᴰ

-- A thread of the launch has that place.
abbrev IsPresent : ThreadIdx → List KernelThread → Type 0
IsPresent t threads = (k : KernelThread) × Memᴰ k threads × (k.place ≡ t)

module _ (b : Cgbn) (a : KernelArgs) where
  open a use {chunk, items_per_thread, tpi}

  start_thread-place : (u : Sponge × ThreadIdx) → (start_thread b a u).place ≡ u.1
  unfolding start_thread
  start_thread-place (registers, t) = refl

  start_launch-IsPresent :
      (us : List (Sponge × ThreadIdx)) (u : Sponge × ThreadIdx)
      → Memᴰ u us
      → IsPresent u.1 (map (start_thread b a) us)
  start_launch-IsPresent [] u m = absurd (Memᴰ.not-nil m)
  start_launch-IsPresent (v ∷ us) u m = elim (Memᴰ.cases_cons m) [
    | inl e ↦ (start_thread b a v, Memᴰ.head refl, start_thread-place v ∙ ap (λ w. w.1) (sym e))
    | inr later ↦ let (k, at, same) = start_launch-IsPresent us u later in (k, Memᴰ.tail at, same)
  ]

  LaunchStep-IsPresent :
      {s t : Launch} (i : ThreadIdx)
      → LaunchStep b a s t
      → IsPresent i s.threads
      → IsPresent i t.threads
  LaunchStep-IsPresent {s} i (turn before k k' after batch e f r) (j, at, same) =
      let (place, _) =
        thread_step-MovesOn b a k.place k.sponge k.round k.left s.batch (k', batch) e in
      subst (λ (l : Launch). IsPresent i l.threads) (sym r)
        (elim (Memᴰ.append_cases before (subst (λ ks. Memᴰ j ks) f at)) [
          | inl earlier ↦ (j, Memᴰ.append_left (k' ∷ after) earlier, same)
          | inr from ↦ elim (Memᴰ.cases_cons from) [
            | inl now ↦ (
              k',
              Memᴰ.append_right before (Memᴰ.head refl),
              place ∙ ap (λ (l : KernelThread). l.place) (sym now) ∙ same,
            )
            | inr later ↦ (j, Memᴰ.append_right before (Memᴰ.tail later), same)
          ]
        ])

  LaunchReach-IsPresent :
      {s t : Launch} (i : ThreadIdx)
      → LaunchReach b a s t
      → IsPresent i s.threads
      → IsPresent i t.threads
  LaunchReach-IsPresent i here at = at
  LaunchReach-IsPresent i (next r st) at = LaunchStep-IsPresent i st (LaunchReach-IsPresent i r at)

  module _ (loaded : IsLoaded a) where
    running-IsItem :
        (k : KernelThread) (batch : Batch) (x y : ℕ)
        → IsValid b a loaded batch k
        → k.left ≡ 0
        → Visits b a k.place x y
        → x < chunk.side_length
        → y < chunk.side_length
        → IsItem b a loaded x y (batch (x + chunk.side_length * y))
    running-IsItem k batch x y (inl (beyond, _)) over v hx hy = absurd (omega (arith, v.0))
    running-IsItem k batch x y (inr r) over v hx hy =
        subst (λ c. IsItem b a loaded c y (batch (c + chunk.side_length * y))) v.0
          (r.reached y (omega (arith, v.1))
            (elim r.rounds [ inl all ↦ omega (arith, v.2) | inr (past, _) ↦ omega arith ]) hy)

    -- With a modulus between 2 ^ 32 and 2 ^ 255, a key and constants up to it, a side below 2 ^ 16,
    -- and threads whose rows stay within 32 bits: when a launch is over, in whatever order its threads
    -- have done the rounds of their loops, each location of the chunk that some thread visits has its
    -- item in its cell of the batch, whatever the batch and the registers held.
    pub interleaved-IsItem :
        (us : List (Sponge × ThreadIdx)) (batch : Batch) (l : Launch) (x y : ℕ)
        (u : Sponge × ThreadIdx)
        → All (λ u. FitsRows b a u.1) us
        → LaunchReach b a (start_launch b a us batch) l
        → IsOver b a l
        → Memᴰ u us
        → Visits b a u.1 x y
        → x < chunk.side_length
        → y < chunk.side_length
        → IsItem b a loaded x y (l.batch (x + chunk.side_length * y))
    unfolding start_launch
    interleaved-IsItem us batch l x y u fits r over m v hx hy =
        let (k, at, same) = LaunchReach-IsPresent u.1 r (start_launch-IsPresent us u m) in
        let valid =
          LaunchReach-IsValid b a loaded r (start_launch-IsValid b a loaded us batch fits) in
        running-IsItem k l.batch x y (All-mem _ l.threads k valid at)
          (thread_step-none b a k.place k.sponge k.round k.left l.batch
            (All-mem (λ j. thread_step b a j l.batch ≡ none) l.threads k over at))
          (subst (λ i. Visits b a i x y) (sym same) v) hx hy
