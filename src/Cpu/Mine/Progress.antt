-- ===== src/Cpu/Mine/Progress.antt =====
-- How long the parallel region runs, and that it never gets stuck before the end.
use blue_space.Prelude.{
  ℕ, suc, ◌+◌, ◌*◌, ◌≡◌, refl, sym, ap, ◌∙◌, ◌⊎◌, inl, inr, none, some, List, [], ◌∷◌, ◌++◌, arith,
  length, All, Option-cases, ap₂,
}
use blue_space.Prelude.Int.{ℤ}
use blue_space.Prelude.Loops.{length-offsets}
use blue_space.Gmp.{Gmp}
use blue_space.Footprint.{PlanetLocation}
use blue_space.Cpu.Hash.{Sponge}
use blue_space.Cpu.Mine.{
  Worker, Job, Team, coordinates, start_column, advance, Step, turn, Reach, here, next,
}
use blue_space.Cpu.Mine.Planets.{pending, columns_planets, column_planets}
use blue_space.Cpu.Mine.Schedule.{coordinates-offsets, outstanding}
use mathlib.Core.List.{append_assoc}
use mathlib.Core.Option.{some-injective}

-- The steps that a worker has before it: one for each row, and one for each column's head.
abbrev pub work : Job → Worker → ℕ
work job w = length w.ys + length w.xs * (job.chunk.side_length + 1)

abbrev pub team_work : Job → List Worker → ℕ
team_work job [] = 0
team_work job (w ∷ ws) = work job w + team_work job ws

team_work-append :
    (job : Job) (xs ys : List Worker)
    → team_work job (xs ++ ys) ≡ team_work job xs + team_work job ys
team_work-append job [] ys = omega arith
team_work-append job (x ∷ xs) ys = omega (arith, team_work-append job xs ys)

pub length-coordinates : (x : ℤ) (n : ℕ) → length (coordinates x n) ≡ n
length-coordinates x n = ap length (coordinates-offsets x n) ∙ length-offsets x n

module _ (g : Gmp) where
  -- The number of steps of a run.
  abbrev pub steps : {job : Job} {s t : Team} → Reach g job s t → ℕ
  steps here = 0
  steps (next r st) = suc (steps r)

  -- No worker can take a step.
  abbrev pub IsFinished : Job → Team → Type 0
  IsFinished job t = All (λ w. advance g job w ≡ none) t.workers

  work_done :
      (job : Job) (s : Sponge) (x : ℤ) (ys xs : List ℤ)
      → let w : Worker = record { sponge = s; x = x; ys = ys; xs = xs } in
        advance g job w ≡ none → (ys ≡ []) × (xs ≡ [])
  unfolding advance
  work_done job s x [] [] h = (refl, refl)
  work_done job s x [] (x' ∷ xs) h = cc
  work_done job s x (y ∷ ys) xs h = cc

  -- A step does one unit of work.
  advance-work :
      (job : Job) (s : Sponge) (x : ℤ) (ys xs : List ℤ) (r : Worker × List PlanetLocation)
      → let w : Worker = record { sponge = s; x = x; ys = ys; xs = xs } in
        advance g job w ≡ some r → work job w ≡ suc (work job r.0)
  unfolding advance start_column
  advance-work job s x [] [] r e = cc
  advance-work job s x [] (x' ∷ xs) r e = omega (
    arith,
    length-coordinates job.chunk.bottom_left.y job.chunk.side_length,
    ap (λ (p : Worker × List PlanetLocation). work job p.0) (some-injective _ _ e),
  )
  advance-work job s x (y ∷ ys) xs r e =
      omega (arith, ap (λ (p : Worker × List PlanetLocation). work job p.0) (some-injective _ _ e))

  Step-work :
      {job : Job} {s t : Team}
      → Step g job s t
      → team_work job s.workers ≡ suc (team_work job t.workers)
  Step-work {job} {s} {t} (turn before w w' after found e f h) = omega (
    arith,
    ap (team_work job) f,
    ap (λ (u : Team). team_work job u.workers) h,
    team_work-append job before (w ∷ after),
    team_work-append job before (w' ∷ after),
    advance-work job w.sponge w.x w.ys w.xs (w', found) e,
  )

  -- A run has taken as many steps as the work that it did.
  pub steps-work :
      {job : Job} {s t : Team} (r : Reach g job s t)
      → steps r + team_work job t.workers ≡ team_work job s.workers
  steps-work here = omega arith
  steps-work (next r st) = omega (arith, steps-work r, Step-work st)

  idle_worker :
      (job : Job) (w : Worker) → advance g job w ≡ none → (pending g job w ≡ []) × (work job w ≡ 0)
  unfolding columns_planets column_planets
  idle_worker job w h = (
    ap₂ (λ ys xs. column_planets g job w.x ys ++ columns_planets g job xs) idle.0 idle.1,
    ap₂ (λ (ys xs : List ℤ). length ys + length xs * (job.chunk.side_length + 1)) idle.0 idle.1
        ∙ omega arith,
  )
    where
      idle : (w.ys ≡ []) × (w.xs ≡ [])
      idle = work_done job w.sponge w.x w.ys w.xs h

  -- Where no worker can step, nothing is left to push and no work to do.
  pub IsFinished-outstanding :
      (job : Job) (ws : List Worker)
      → All (λ w. advance g job w ≡ none) ws
      → (outstanding g job ws ≡ []) × (team_work job ws ≡ 0)
  IsFinished-outstanding job [] h = (refl, refl)
  IsFinished-outstanding job (w ∷ ws) h =
      let (pushed, worked) = idle_worker job w h.0 in
      let (pushed_all, worked_all) = IsFinished-outstanding job ws h.1 in
      (ap₂ ◌++◌ pushed pushed_all, ap₂ ◌+◌ worked worked_all)

  -- A team that has work can take a step.
  pub progress :
      (job : Job) (before ws : List Worker)
      → (t : Team) → t.workers ≡ before ++ ws
      → All (λ w. advance g job w ≡ none) ws ⊎ ((u : Team) × Step g job t u)
  progress job before [] t e = inl tt
  progress job before (w ∷ ws) t e = elim (Option-cases (advance g job w)) [
    | inl stuck ↦
        elim (progress job (before ++ w ∷ []) ws t (e ∙ sym (append_assoc before (w ∷ []) ws))) [
          | inl all_stuck ↦ inl (stuck, all_stuck)
          | inr step ↦ inr step
        ]
    | inr (r, move) ↦ inr (_, turn before w r.0 ws r.1 move e refl)
  ]
