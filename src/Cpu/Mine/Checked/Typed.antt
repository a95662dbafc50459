-- ===== src/Cpu/Mine/Checked/Typed.antt =====
-- On a square inside of 64 bits the miner computes nothing that an int64_t does not hold, so that it
-- does what `Cpu.Mine` says.
use blue_space.Prelude.{
  ℕ, ◌≡◌, refl, List, [], ◌∷◌, map, Mem, subst, arith, All, flatten, All-of_mem, some, Bool-cases,
  inl, inr, All-append,
}
use blue_space.Prelude.Int.{ℤ, pos, ◌-ℤ◌, -ℤ_parts}
use blue_space.Prelude.Loops.{mem-offsets}
use blue_space.Outcome.{done}
use blue_space.Int64.{
  HasOpposite, int64-eq-done, int64_coordinates, IsInside, int64_coordinates-eq-done,
}
use blue_space.Gmp.{Gmp}
use blue_space.Footprint.{IsInsideChunk, PlanetLocation, ChunkFootprint}
use blue_space.Cpu.Hash.{Sponge, restore, result, wrap_coordinate, inject, mix, is_planet}
use blue_space.Cpu.Mine.{
  CpuMinerOptions, OpenMp, Worker, Job, Team, coordinates, new_worker, team_size, start_column,
  visit, advance, Reach,
}
use blue_space.Cpu.Mine.Schedule.{coordinates-offsets}
use blue_space.Cpu.Mine.Invariants.{worker, Reach-All}
use blue_space.Cpu.Mine.Correct.{team_of}
use blue_space.Cpu.Mine.Checked.{
  checked_wrap_coordinate, checked_start_column, checked_visit, checked_advance,
}
use mathlib.Core.List.Perm
use mathlib.Core.Option.{some-injective}

-- What a worker holds in variables of type int64_t.
abbrev pub IsTyped : Worker → Type 0
IsTyped w = HasOpposite w.x × All HasOpposite w.ys × All HasOpposite w.xs

abbrev pub IsTypedPlanet : PlanetLocation → Type 0
IsTypedPlanet p = HasOpposite p.coordinate.x × HasOpposite p.coordinate.y

abbrev pub IsTypedTeam : Team → Type 0
IsTypedTeam t = All IsTyped t.workers × All IsTypedPlanet t.result

coordinate-HasOpposite :
    (start : ℤ) (side_length : ℕ) (c : ℤ)
    → IsInside start side_length
    → Mem c (coordinates start side_length)
    → HasOpposite c
coordinate-HasOpposite start side_length c h m =
    let within =
      (mem-offsets start side_length c).0
        (subst (Mem c) (coordinates-offsets start side_length) m) in
    ground arith

coordinates-HasOpposite :
    (start : ℤ) (side_length : ℕ)
    → IsInside start side_length
    → All HasOpposite (coordinates start side_length)
coordinates-HasOpposite start side_length h =
    All-of_mem (coordinates start side_length)
      λ c m. coordinate-HasOpposite start side_length c h ∣ m ∣₁

pub int64_coordinates-IsInside :
    (start : ℤ) (side_length : ℕ)
    → IsInside start side_length
    → int64_coordinates start side_length ≡ done (coordinates start side_length)
unfolding coordinates
int64_coordinates-IsInside start side_length h = int64_coordinates-eq-done start side_length h

module _ (g : Gmp) where
  checked_wrap_coordinate-eq-done :
      (c : ℤ) → HasOpposite c → checked_wrap_coordinate g c ≡ done (wrap_coordinate g c)
  unfolding checked_wrap_coordinate wrap_coordinate
  checked_wrap_coordinate-eq-done c h =
      ground (arith, int64-eq-done (pos 0 -ℤ c), -ℤ_parts (pos 0) c)

  checked_visit-eq-done :
      (job : Job) (s : Sponge) (x y : ℤ)
      → HasOpposite y
      → checked_visit g job s x y ≡ done (visit g job s x y)
  unfolding checked_visit visit
  checked_visit-eq-done job s x y h = rw (checked_wrap_coordinate-eq-done y h) refl

  checked_start_column-eq-done :
      (job : Job) (w : Worker) (x : ℤ) (xs : List ℤ)
      → IsInsideChunk job.chunk
      → HasOpposite x
      → checked_start_column g job w x xs ≡ done (start_column g job w x xs)
  unfolding checked_start_column start_column
  checked_start_column-eq-done job w x xs h hx =
      rw (checked_wrap_coordinate-eq-done x hx, int64_coordinates-IsInside _ _ h.1) refl

  pub checked_advance-eq-done :
      (job : Job) (s : Sponge) (x : ℤ) (ys xs : List ℤ)
      → let w = worker s x ys xs in
        IsInsideChunk job.chunk → IsTyped w → checked_advance g job w ≡ done (advance g job w)
  unfolding checked_advance advance
  checked_advance-eq-done job s x [] [] h typed = refl
  checked_advance-eq-done job s x [] (x' ∷ xs) h typed =
      rw (checked_start_column-eq-done job (worker s x [] (x' ∷ xs)) x' xs h typed.2.0) refl
  checked_advance-eq-done job s x (y ∷ ys) xs h typed =
      rw (checked_visit-eq-done job s x y typed.1.0) refl

  visit-IsTypedPlanet :
      (job : Job) (s : Sponge) (x y : ℤ)
      → HasOpposite x
      → HasOpposite y
      → All IsTypedPlanet (visit g job s x y).1
  unfolding visit
  visit-IsTypedPlanet job s x y hx hy =
      let hash = result (mix g job.key (inject g (restore s) (wrap_coordinate g y))) in
      elim (Bool-cases (is_planet g hash job.threshold)) [
        | inl e ↦ rw e ((hx, hy), tt)
        | inr e ↦ rw e tt
      ]

  -- What a worker holds after a step, and the planets that it pushes.
  abbrev IsTypedStep : Worker × List PlanetLocation → Type 0
  IsTypedStep (w, found) = IsTyped w × All IsTypedPlanet found

  -- A step leaves its worker's numbers in 64 bits, and those of the planet that it pushes.
  advance-IsTypedStep :
      (job : Job) (s : Sponge) (x : ℤ) (ys xs : List ℤ) (r : Worker × List PlanetLocation)
      → let w = worker s x ys xs in
        IsInsideChunk job.chunk → IsTyped w → advance g job w ≡ some r → IsTypedStep r
  unfolding advance start_column
  advance-IsTypedStep job s x [] [] r h typed e = absurd (cc e)
  advance-IsTypedStep job s x [] (x' ∷ xs) r h typed e =
      subst IsTypedStep (some-injective _ _ e)
        ((typed.2.0, coordinates-HasOpposite job.chunk.bottom_left.y _ h.1, typed.2.1), tt)
  advance-IsTypedStep job s x (y ∷ ys) xs r h typed e =
      subst IsTypedStep (some-injective _ _ e)
        ((typed.0, typed.1.1, typed.2), visit-IsTypedPlanet job s x y typed.0 typed.1.0)

  pub Reach-IsTypedTeam :
      {job : Job} {s t : Team}
      → IsInsideChunk job.chunk
      → Reach g job s t
      → IsTypedTeam s
      → IsTypedTeam t
  Reach-IsTypedTeam h =
      Reach-All g IsTyped IsTypedPlanet λ s x ys xs r. advance-IsTypedStep _ s x ys xs r h

  new_worker-IsTyped :
      (shares : List (List ℤ))
      → All HasOpposite (flatten shares)
      → All IsTyped (map new_worker shares)
  unfolding new_worker
  new_worker-IsTyped [] h = tt
  new_worker-IsTyped (xs ∷ shares) h =
      let (own, rest) = All-append HasOpposite xs (flatten shares) h in
      (((omega arith, omega arith), tt, own), new_worker-IsTyped shares rest)

  pub team_of-IsTypedTeam :
      (omp : OpenMp) (options : CpuMinerOptions) (chunk : ChunkFootprint)
      (result : List PlanetLocation)
      → IsInsideChunk chunk
      → All IsTypedPlanet result
      → IsTypedTeam (team_of omp options chunk result)
  team_of-IsTypedTeam omp options chunk result h typed = (
    new_worker-IsTyped shares (
        All-of_mem (flatten shares) λ c m.
          coordinate-HasOpposite chunk.bottom_left.x chunk.side_length c h.0
            ((Perm.mem_iff (omp.share_law (team_size options) columns)).0 ∣ m ∣₁)),
    typed,
  )
    where
      columns : List ℤ
      columns = coordinates chunk.bottom_left.x chunk.side_length

      shares : List (List ℤ)
      shares = omp.share (team_size options) columns
