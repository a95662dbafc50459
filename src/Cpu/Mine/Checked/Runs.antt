-- ===== src/Cpu/Mine/Checked/Runs.antt =====
-- The runs of the miner with the arithmetic of int64_t: which squares are safe, and which are not.
use blue_space.Prelude.{ℕ, ◌≡◌, refl, ◌∙◌, List, subst, All, All-weaken}
use blue_space.Outcome.{done}
use blue_space.Gmp.{Gmp}
use blue_space.Footprint.{IsInsideChunk, PlanetLocation, ChunkFootprint}
use blue_space.Cpu.Mine.{CpuMinerOptions, OpenMp, Job, Team, advance, Reach, mine}
use blue_space.Cpu.Mine.Correct.{mine-eq-done}
use blue_space.Cpu.Mine.Checked.{checked_advance, checked_mine}
use blue_space.Cpu.Mine.Checked.Typed.{
  IsTypedPlanet, IsTypedTeam, int64_coordinates-IsInside, checked_advance-eq-done,
  Reach-IsTypedTeam, team_of-IsTypedTeam,
}

module _ (g : Gmp) where
  checked_mine-IsInside :
      (omp : OpenMp) (options : CpuMinerOptions) (chunk : ChunkFootprint) (rarity key : ℕ)
      (result : List PlanetLocation)
      → IsInsideChunk chunk
      → checked_mine g omp options chunk rarity key result
        ≡ mine g omp options chunk rarity key result
  unfolding checked_mine mine
  checked_mine-IsInside omp options chunk rarity key result h =
      rw (int64_coordinates-IsInside chunk.bottom_left.x chunk.side_length h.0) refl

  -- For a square with coordinates above INT64_MIN and ends up to INT64_MAX, and a result with such
  -- coordinates: wherever a run is, no sum and no opposite that the miner has computed or that the
  -- next step of a worker computes overflows, so that checked arithmetic does the same, and every
  -- coordinate that a worker holds or that the result has is an int64_t, and its opposite, too.
  pub runs_typed :
      (omp : OpenMp) (options : CpuMinerOptions) (chunk : ChunkFootprint) (rarity key : ℕ)
      (result : List PlanetLocation) (job : Job) (s t : Team)
      → IsInsideChunk chunk
      → All IsTypedPlanet result
      → mine g omp options chunk rarity key result ≡ done (job, s)
      → Reach g job s t
      → (checked_mine g omp options chunk rarity key result ≡ done (job, s))
        × All (λ w. checked_advance g job w ≡ done (advance g job w)) t.workers
        × IsTypedTeam t
  runs_typed omp options chunk rarity key result job s t h old e r =
      let (same_job, same_team) = mine-eq-done g omp options chunk rarity key result job s e in
      let inside = subst (λ (j : Job). IsInsideChunk j.chunk) same_job h in
      let start =
        subst IsTypedTeam same_team (team_of-IsTypedTeam g omp options chunk result h old) in
      let typed = Reach-IsTypedTeam g inside r start in
      (
        checked_mine-IsInside omp options chunk rarity key result h ∙ e,
        All-weaken t.workers
            (λ w at. checked_advance-eq-done g job w.sponge w.x w.ys w.xs inside at) typed.0,
        typed,
      )
