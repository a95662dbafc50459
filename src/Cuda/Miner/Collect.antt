-- ===== src/Cuda/Miner/Collect.antt =====
-- The rest of `run_mine_batch`: the launch, and the loop over the batch that it leaves.
use blue_space.Prelude.{
  ℕ, zero, suc, ◌+◌, ◌≤◌, ◌<◌, ◌≡◌, refl, arith, true, String, List, [], ◌∷◌, ◌++◌, ◌⊎◌, inl, inr,
  if◌then◌else◌, Bool-cases, dec_lt, subst,
}
use blue_space.Outcome.{Outcome, done, ◌>>=◌}
use blue_space.Footprint.{PlanetLocation}
use blue_space.Cuda.Cgbn.{Cgbn}
use blue_space.Cuda.Hash.{Sponge}
use blue_space.Cuda.Kernel.{Batch, CudaWorkItem, KernelArgs, ThreadIdx}
use blue_space.Cuda.Kernel.Launch.{run_threads}
use blue_space.Cuda.Grid.{CudaMinerOptions, LaunchSize, launch_size, InLaunch}
use blue_space.Cuda.Miner.Memory.{batch_size}
use mathlib.Core.List.{Memᴰ}
use mathlib.Core.List.Memᴰ

-- The order in which the device runs the threads of a launch, one after another, each with what its
-- registers hold.
pub record Device : Type 0 where
  pub schedule : LaunchSize → List (Sponge × ThreadIdx)
  pub all_run :
      (size : LaunchSize) (t : ThreadIdx)
      → InLaunch size t
      → (registers : Sponge) × Memᴰ (registers, t) (schedule size)
  pub none_else :
      (size : LaunchSize) (u : Sponge × ThreadIdx) → Memᴰ u (schedule size) → InLaunch size u.1

module _ (get_str : ℕ → String) where
  abbrev pub item_location : CudaWorkItem → PlanetLocation
  item_location item = record {
    coordinate = record { x = item.x; y = item.y };
    hash = get_str item.hash;
  }

  -- The loop over i, with `left` cells to go.
  unfoldable pub collect : ℕ → ℕ → Batch → List PlanetLocation → List PlanetLocation
  collect zero i cpu_batch result = result
  collect (suc left) i cpu_batch result =
      collect left (i + 1) cpu_batch
        (if (cpu_batch i).is_planet then result ++ item_location (cpu_batch i) ∷ [] else result)

  -- `batch` is what the device memory holds before the launch.
  unfoldable pub run_mine_batch :
      Cgbn
      → Device
      → CudaMinerOptions
      → KernelArgs
      → Batch
      → List PlanetLocation
      → Outcome (List PlanetLocation)
  run_mine_batch b device options a batch result = do
    size ← launch_size options a.chunk.side_length
    let mined = run_threads b a (device.schedule size) batch
    done (collect (batch_size a.chunk.side_length) 0 mined result)

  pub collect-old :
      (left i : ℕ) (batch : Batch) (result : List PlanetLocation) (p : PlanetLocation)
      → Memᴰ p result
      → Memᴰ p (collect left i batch result)
  unfolding collect
  collect-old zero i batch result p m = m
  collect-old (suc left) i batch result p m = elim (Bool-cases (batch i).is_planet) [
    | inl e ↦ rw e (collect-old left (i + 1) batch _ p (Memᴰ.append_left _ m))
    | inr e ↦ rw e (collect-old left (i + 1) batch result p m)
  ]

  pub collect-new :
      (left i : ℕ) (batch : Batch) (result : List PlanetLocation) (k : ℕ)
      → i ≤ k
      → k < i + left
      → (batch k).is_planet ≡ true
      → Memᴰ (item_location (batch k)) (collect left i batch result)
  unfolding collect
  collect-new zero i batch result k h l e = absurd (omega arith)
  collect-new (suc left) i batch result k h l e = elim (dec_lt i k) [
    | yes later ↦ collect-new left (i + 1) batch _ k (omega arith) (omega arith) e
    | no now ↦
        let same : k ≡ i = omega arith in
        subst
          (λ n. Memᴰ (item_location (batch k)) (
            collect left (i + 1) batch
              (if (batch n).is_planet then result ++ item_location (batch n) ∷ [] else result)))
          same
          (rw e (
            collect-old left (i + 1) batch _ (item_location (batch k))
              (Memᴰ.append_right result (Memᴰ.head refl))))
  ]

  -- What the loop adds is the location of a cell that holds a planet.
  abbrev pub IsCollected : ℕ → ℕ → Batch → PlanetLocation → Type 0
  IsCollected left i batch p =
      (k : ℕ) × (i ≤ k)
      × (k < i + left)
      × ((batch k).is_planet ≡ true)
      × (p ≡ item_location (batch k))

  pub collect_cases :
      (left i : ℕ) (batch : Batch) (result : List PlanetLocation) (p : PlanetLocation)
      → Memᴰ p (collect left i batch result)
      → Memᴰ p result ⊎ IsCollected left i batch p
  unfolding collect
  collect_cases zero i batch result p m = inl m
  collect_cases (suc left) i batch result p m = elim (Bool-cases (batch i).is_planet) [
    | inl e ↦
        elim (collect_cases left (i + 1) batch (result ++ item_location (batch i) ∷ []) p (
          subst
            (λ c. Memᴰ p (
              collect left (i + 1) batch
                (if c then result ++ item_location (batch i) ∷ [] else result)))
            e m)) [
              | inl old ↦ elim (Memᴰ.append_cases result old) [
                | inl before ↦ inl before
                | inr last ↦ inr (i, omega arith, omega arith, e, Memᴰ.eq_of_singleton last)
              ]
              | inr later ↦ inr (widen later)
            ]
    | inr e ↦
        elim (collect_cases left (i + 1) batch result p (
          subst
            (λ c. Memᴰ p (
              collect left (i + 1) batch
                (if c then result ++ item_location (batch i) ∷ [] else result)))
            e m)) [ inl old ↦ inl old | inr later ↦ inr (widen later) ]
  ]
    where
      widen : IsCollected left (i + 1) batch p → IsCollected (suc left) i batch p
      widen (k, h, l, e, same) = (k, omega arith, omega arith, e, same)
