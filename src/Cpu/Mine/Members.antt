-- ===== src/Cpu/Mine/Members.antt =====
-- Which locations are among the planets of a chunk.
use blue_space.Prelude.{
  ℕ, ◌<◌, ◌≡◌, ◌↔◌, refl, sym, inl, inr, List, [], ◌∷◌, ◌++◌, Mem, Perm, subst, ltb, ltb→lt, lt→ltb,
  Bool-cases,
}
use blue_space.Prelude.Int.{ℤ}
use blue_space.Prelude.Loops.{Within, mem-offsets}
use blue_space.Gmp.{Gmp}
use blue_space.Footprint.{PlanetLocation, ChunkFootprint}
use blue_space.Cpu.Mine.{CpuMinerOptions, OpenMp, Job, Team, coordinates, mine, Reach}
use blue_space.Cpu.Mine.Planets.{hash_at, planet_at, column_planets, columns_planets}
use blue_space.Cpu.Mine.Schedule.{coordinates-offsets}
use blue_space.Cpu.Mine.Progress.{IsFinished}
use blue_space.Cpu.Mine.Correct.{chunk_planets, job_of, mine_finished}
use blue_space.Outcome.{done}
use mathlib.Core.Logic.{∥∥₁_elim, ∥∥₁_map, ◌∨₁◌}
use mathlib.Core.Logic.Or
use mathlib.Core.List.{Memᴰ, mem-append}
use mathlib.Core.List.Perm
use mathlib.Core.List.Memᴰ

module _ (g : Gmp) where
  abbrev pub location : ℕ → ℤ → ℤ → PlanetLocation
  location key x y = record {
    coordinate = record { x = x; y = y };
    hash = g.get_str (hash_at g key x y);
  }

  abbrev pub PlanetAt : Job → ℤ → ℤ → PlanetLocation → Type 0
  PlanetAt job x y p = (hash_at g job.key x y < job.threshold) × (p ≡ location job.key x y)

  planet_at-mem :
      (job : Job) (x y : ℤ) (p : PlanetLocation) → Memᴰ p (planet_at g job x y) ↔ PlanetAt job x y p
  unfolding planet_at
  planet_at-mem job x y p = elim (Bool-cases (ltb (hash_at g job.key x y) job.threshold)) [
    | inl e ↦ rw e (λ m. (ltb→lt _ _ e, Memᴰ.eq_of_singleton m), λ h. Memᴰ.head h.1)
    | inr e ↦ rw e (
      λ m. absurd (Memᴰ.not-nil m),
      λ h. absurd (cc (lt→ltb (hash_at g job.key x y) job.threshold h.0)),
    )
  ]

  mem-column :
      (job : Job) (x : ℤ) (ys : List ℤ) (p : PlanetLocation)
      → Memᴰ p (column_planets g job x ys)
      → (y : ℤ) × Memᴰ y ys × PlanetAt job x y p
  unfolding column_planets
  mem-column job x [] p m = absurd (Memᴰ.not-nil m)
  mem-column job x (y ∷ ys) p m = elim (Memᴰ.append_cases (planet_at g job x y) m) [
    | inl here ↦ (y, Memᴰ.head refl, (planet_at-mem job x y p).0 here)
    | inr later ↦ let (z, at, f) = mem-column job x ys p later in (z, Memᴰ.tail at, f)
  ]

  column-mem :
      (job : Job) (x : ℤ) (ys : List ℤ) (p : PlanetLocation) (y : ℤ)
      → Memᴰ y ys
      → PlanetAt job x y p
      → Memᴰ p (column_planets g job x ys)
  unfolding column_planets
  column-mem job x [] p y m f = absurd (Memᴰ.not-nil m)
  column-mem job x (z ∷ ys) p y m f = elim (Memᴰ.cases_cons m) [
    | inl e ↦
        Memᴰ.append_left (column_planets g job x ys)
          ((planet_at-mem job x z p).1 (subst (λ w. PlanetAt job x w p) e f))
    | inr later ↦ Memᴰ.append_right (planet_at g job x z) (column-mem job x ys p y later f)
  ]

  mem-columns :
      (job : Job) (xs : List ℤ) (p : PlanetLocation)
      → Memᴰ p (columns_planets g job xs)
      → (x : ℤ) × Memᴰ x xs
        × (y : ℤ) × Memᴰ y (coordinates job.chunk.bottom_left.y job.chunk.side_length)
        × PlanetAt job x y p
  unfolding columns_planets
  mem-columns job [] p m = absurd (Memᴰ.not-nil m)
  mem-columns job (x ∷ xs) p m =
      elim (Memᴰ.append_cases (column_planets g job x (coordinates _ _)) m) [
        | inl here ↦ let (y, at, f) = mem-column job x _ p here in (x, Memᴰ.head refl, y, at, f)
        | inr later ↦
            let (z, at_x, y, at_y, f) = mem-columns job xs p later in
            (z, Memᴰ.tail at_x, y, at_y, f)
      ]

  columns-mem :
      (job : Job) (xs : List ℤ) (p : PlanetLocation) (x y : ℤ)
      → Memᴰ x xs
      → Memᴰ y (coordinates job.chunk.bottom_left.y job.chunk.side_length)
      → PlanetAt job x y p
      → Memᴰ p (columns_planets g job xs)
  unfolding columns_planets
  columns-mem job [] p x y m n f = absurd (Memᴰ.not-nil m)
  columns-mem job (z ∷ xs) p x y m n f = elim (Memᴰ.cases_cons m) [
    | inl e ↦
        Memᴰ.append_left (columns_planets g job xs)
          (column-mem job z _ p y n (subst (λ w. PlanetAt job w y p) e f))
    | inr later ↦ Memᴰ.append_right (column_planets g job z _) (columns-mem job xs p x y later n f)
  ]

  -- A location of the chunk whose hash is below the threshold, with its hash in decimal.
  pub record IsPlanetOf (job : Job) (p : PlanetLocation) : Type 0 where
    pub in_columns : Within job.chunk.bottom_left.x job.chunk.side_length p.coordinate.x
    pub in_rows : Within job.chunk.bottom_left.y job.chunk.side_length p.coordinate.y
    pub rare : hash_at g job.key p.coordinate.x p.coordinate.y < job.threshold
    pub hashed : p.hash ≡ g.get_str (hash_at g job.key p.coordinate.x p.coordinate.y)

  mem-coordinates : (x : ℤ) (n : ℕ) (c : ℤ) → Mem c (coordinates x n) ↔ Within x n c
  mem-coordinates x n c = rw (coordinates-offsets x n) (mem-offsets x n c)

  chunk_planets-IsPlanetOf :
      (job : Job) (p : PlanetLocation) → Memᴰ p (chunk_planets g job) → IsPlanetOf job p
  chunk_planets-IsPlanetOf job p m =
      let (x, at_x, y, at_y, (below, e)) = mem-columns job _ p m in
      subst (IsPlanetOf job) (sym e) (record {
        in_columns = (mem-coordinates _ _ x).0 ∣ at_x ∣₁;
        in_rows = (mem-coordinates _ _ y).0 ∣ at_y ∣₁;
        rare = below;
        hashed = refl;
      })

  IsPlanetOf-chunk_planets :
      (job : Job) (p : PlanetLocation) → IsPlanetOf job p → Mem p (chunk_planets g job)
  IsPlanetOf-chunk_planets job p v =
      ∥∥₁_elim ((mem-coordinates _ _ p.coordinate.x).1 v.in_columns) squash₁ λ at_x.
        ∥∥₁_map ((mem-coordinates _ _ p.coordinate.y).1 v.in_rows) λ at_y.
          columns-mem job _ p p.coordinate.x p.coordinate.y at_x at_y
            (v.rare, λ i. record { coordinate = p.coordinate; hash = v.hashed i })

  -- After any finished run of the team that `mine` starts, the result holds what it held before and
  -- the planets of the chunk, and nothing else: the locations of the square whose MiMC hash is below
  -- P / rarity, each with that hash in decimal.
  pub finished_result :
      (omp : OpenMp) (options : CpuMinerOptions) (chunk : ChunkFootprint) (rarity key : ℕ)
      (result : List PlanetLocation) (job : Job) (s t : Team)
      → mine g omp options chunk rarity key result ≡ done (job, s)
      → Reach g job s t
      → IsFinished g job t
      → (p : PlanetLocation)
      → Mem p t.result ↔ (Mem p result ∨₁ IsPlanetOf (job_of chunk rarity key) p)
  finished_result omp options chunk rarity key result job s t e r f p = (
    λ m. ∥∥₁_elim (mem-append.0 ((Perm.mem_iff perm).0 m)) squash₁ λ side. elim side [
      | inl old ↦ Or.inl old
      | inr new ↦ ∥∥₁_map new λ n. inr (chunk_planets-IsPlanetOf wanted p n)
    ],
    λ h. (Perm.mem_iff perm).1 (
        mem-append.1 (
          ∥∥₁_map h λ side. elim side [
            | inl old ↦ inl old
            | inr new ↦ inr (IsPlanetOf-chunk_planets wanted p new)
          ])),
  )
    where
      wanted : Job
      wanted = job_of chunk rarity key

      perm : Perm t.result (result ++ chunk_planets g wanted)
      perm = mine_finished g omp options chunk rarity key result job s t e r f
