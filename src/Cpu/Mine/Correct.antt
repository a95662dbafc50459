-- ===== src/Cpu/Mine/Correct.antt =====
-- What `mine` returns: the planets of the chunk, each once, whatever the threads do.
use blue_space.Prelude.{
  ℕ, zero, suc, ◌+◌, ◌*◌, ◌/◌, ◌≤◌, ◌<◌, ◌≡◌, refl, sym, ap, ◌∙◌, ◌⊎◌, inl, inr, List, [], ◌∷◌,
  ◌++◌, map, Perm, subst, arith, length, flatten, All, length-append,
}
use blue_space.Prelude.Int.{ℤ}
use blue_space.Outcome.{done, dies, done-injective, division_by_zero}
use blue_space.Gmp.{Gmp}
use blue_space.Constants.{mimc_p}
use blue_space.Footprint.{PlanetLocation, ChunkFootprint}
use blue_space.Cpu.Mine.{
  CpuMinerOptions, OpenMp, Job, Team, coordinates, new_worker, team_size, mine, Step, Reach,
}
use blue_space.Cpu.Mine.Planets.{IsReady, column_planets, columns_planets}
use blue_space.Cpu.Mine.Schedule.{perm_swap_blocks, outstanding, Conserves, Reach-Conserves}
use blue_space.Cpu.Mine.Progress.{
  length-coordinates, team_work, steps, IsFinished, steps-work, IsFinished-outstanding, progress,
}
use mathlib.Core.List.{append_assoc, append-nil, Permᴰ}
use mathlib.Core.List.Perm
use native.Mathlib.Nat.{ℕ_set}
use mathlib.Core.Logic.{∥∥₁_elim}

length-Permᴰ {ℓ} : {A : Type ℓ} {xs ys : List A} → Permᴰ xs ys → length xs ≡ length ys
length-Permᴰ Permᴰ.nil = refl
length-Permᴰ (Permᴰ.cons e p) = ap suc (length-Permᴰ p)
length-Permᴰ (Permᴰ.swap e f) = refl
length-Permᴰ (Permᴰ.trans p q) = length-Permᴰ p ∙ length-Permᴰ q

abbrev pub job_of : ChunkFootprint → ℕ → ℕ → Job
job_of chunk rarity key = record { chunk = chunk; threshold = mimc_p / rarity; key = key }

-- The team at the start of the parallel region.
abbrev pub team_of : OpenMp → CpuMinerOptions → ChunkFootprint → List PlanetLocation → Team
team_of omp options chunk result = record {
  workers =
      map new_worker
        (omp.share (team_size options) (coordinates chunk.bottom_left.x chunk.side_length));
  result = result;
}

module _ (g : Gmp) where
  abbrev one_column : Job → ℤ → List PlanetLocation
  one_column job x =
      column_planets g job x (coordinates job.chunk.bottom_left.y job.chunk.side_length)

  columns_planets-append :
      (job : Job) (xs ys : List ℤ)
      → columns_planets g job (xs ++ ys) ≡ columns_planets g job xs ++ columns_planets g job ys
  unfolding columns_planets
  columns_planets-append job [] ys = refl
  columns_planets-append job (x ∷ xs) ys =
      ap (◌++◌ (column_planets g job x _)) (columns_planets-append job xs ys)
      ∙ sym (append_assoc _ (columns_planets g job xs) (columns_planets g job ys))

  columns_planets-Permᴰ :
      (job : Job) {xs ys : List ℤ}
      → Permᴰ xs ys
      → Perm (columns_planets g job xs) (columns_planets g job ys)
  unfolding columns_planets
  columns_planets-Permᴰ job Permᴰ.nil = Perm.refl []
  columns_planets-Permᴰ job (Permᴰ.cons e p) =
      rw e (Perm.append_left _ (columns_planets-Permᴰ job p))
  columns_planets-Permᴰ job (Permᴰ.swap {a' = x} {b' = y} {l = l} e f) =
      rw (e, f) (perm_swap_blocks (one_column job y) (one_column job x) (columns_planets g job l))
  columns_planets-Permᴰ job (Permᴰ.trans p q) =
      Perm.trans (columns_planets-Permᴰ job p) (columns_planets-Permᴰ job q)

  -- At the start nothing of any share has been pushed.
  outstanding-new_worker :
      (job : Job) (shares : List (List ℤ))
      → outstanding g job (map new_worker shares) ≡ columns_planets g job (flatten shares)
  unfolding new_worker column_planets columns_planets
  outstanding-new_worker job [] = refl
  outstanding-new_worker job (xs ∷ shares) =
      ap (◌++◌ (columns_planets g job xs)) (outstanding-new_worker job shares)
      ∙ sym (columns_planets-append job xs (flatten shares))

  new_worker-IsReady :
      (job : Job) (shares : List (List ℤ)) → All (IsReady g job) (map new_worker shares)
  unfolding new_worker
  new_worker-IsReady job [] = tt
  new_worker-IsReady job (xs ∷ shares) = (inl refl, new_worker-IsReady job shares)

  work-new_worker :
      (job : Job) (shares : List (List ℤ))
      → team_work job (map new_worker shares)
        ≡ length (flatten shares) * (job.chunk.side_length + 1)
  unfolding new_worker
  work-new_worker job [] = omega arith
  work-new_worker job (xs ∷ shares) = omega (
    arith,
    work-new_worker job shares,
    ap (λ n. n * (job.chunk.side_length + 1)) (length-append xs (flatten shares)),
  )

  -- All the planets of a chunk, column by column.
  abbrev pub chunk_planets : Job → List PlanetLocation
  chunk_planets job =
      columns_planets g job (coordinates job.chunk.bottom_left.x job.chunk.side_length)

  -- Any rarity but zero starts the team on a threshold of P / rarity.
  pub mine_starts :
      (omp : OpenMp) (options : CpuMinerOptions) (chunk : ChunkFootprint) (rarity key : ℕ)
      (result : List PlanetLocation)
      → 0 < rarity
      → mine g omp options chunk rarity key result
        ≡ done (job_of chunk rarity key, team_of omp options chunk result)
  unfolding mine
  mine_starts omp options chunk rarity key result h = rw (g.tdiv_q_law mimc_p rarity h) refl

  -- For a rarity of zero `mine` divides by zero, and the process dies, whatever the other arguments.
  pub mine_zero_rarity :
      (omp : OpenMp) (options : CpuMinerOptions) (chunk : ChunkFootprint) (key : ℕ)
      (result : List PlanetLocation)
      → mine g omp options chunk 0 key result ≡ dies division_by_zero
  unfolding mine
  mine_zero_rarity omp options chunk key result = rw (g.tdiv_q_zero mimc_p) refl

  team_of-Conserves :
      (omp : OpenMp) (options : CpuMinerOptions) (chunk : ChunkFootprint) (rarity key : ℕ)
      (result : List PlanetLocation)
      → let job = job_of chunk rarity key in
        Conserves g job (result ++ chunk_planets job) (team_of omp options chunk result)
  team_of-Conserves omp options chunk rarity key result = record {
    ready = new_worker-IsReady job shares;
    balance = Perm.append_left result (
        rw (outstanding-new_worker job shares) (
          ∥∥₁_elim (omp.share_law (team_size options) columns) squash₁
            (columns_planets-Permᴰ job)));
  }
    where
      job : Job
      job = job_of chunk rarity key

      columns : List ℤ
      columns = coordinates chunk.bottom_left.x chunk.side_length

      shares : List (List ℤ)
      shares = omp.share (team_size options) columns

  -- Whatever the order of the workers' steps, a finished team has pushed the planets of the chunk.
  pub finished_planets :
      (omp : OpenMp) (options : CpuMinerOptions) (chunk : ChunkFootprint) (rarity key : ℕ)
      (result : List PlanetLocation) (t : Team)
      → let job = job_of chunk rarity key in
        Reach g job (team_of omp options chunk result) t
        → IsFinished g job t
        → Perm t.result (result ++ chunk_planets job)
  finished_planets omp options chunk rarity key result t r f =
      Perm.trans
        (rw ((IsFinished-outstanding g (job_of chunk rarity key) t.workers f).0, append-nil)
          (Perm.refl t.result))
        (Reach-Conserves g (team_of-Conserves omp options chunk rarity key result) r).balance

  -- Where `mine` gets to the parallel region, it starts it as above.
  pub mine-eq-done :
      (omp : OpenMp) (options : CpuMinerOptions) (chunk : ChunkFootprint) (rarity key : ℕ)
      (result : List PlanetLocation) (job : Job) (s : Team)
      → mine g omp options chunk rarity key result ≡ done (job, s)
      → (job_of chunk rarity key ≡ job) × (team_of omp options chunk result ≡ s)
  mine-eq-done omp options chunk zero key result job s e =
      absurd (cc (mine_zero_rarity omp options chunk key result))
  mine-eq-done omp options chunk (suc n) key result job s e =
      (ap (λ (r : Job × Team). r.0) started, ap (λ (r : Job × Team). r.1) started)
    where
      started :
          ◌≡◌ {A = Job × Team} (job_of chunk (suc n) key, team_of omp options chunk result) (job, s)
      started =
          done-injective (sym (mine_starts omp options chunk (suc n) key result (omega arith)) ∙ e)

  pub mine_finished :
      (omp : OpenMp) (options : CpuMinerOptions) (chunk : ChunkFootprint) (rarity key : ℕ)
      (result : List PlanetLocation) (job : Job) (s t : Team)
      → mine g omp options chunk rarity key result ≡ done (job, s)
      → Reach g job s t
      → IsFinished g job t
      → Perm t.result (result ++ chunk_planets (job_of chunk rarity key))
  mine_finished omp options chunk rarity key result job s t e r f =
      let (same_job, same_team) = mine-eq-done omp options chunk rarity key result job s e in
      finished_planets omp options chunk rarity key result t
        (subst (λ j. Reach g j (team_of omp options chunk result) t) (sym same_job)
          (subst (λ u. Reach g job u t) (sym same_team) r))
        (subst (λ j. IsFinished g j t) (sym same_job) f)

  team_of-work :
      (omp : OpenMp) (options : CpuMinerOptions) (chunk : ChunkFootprint) (rarity key : ℕ)
      (result : List PlanetLocation)
      → team_work (job_of chunk rarity key) (team_of omp options chunk result).workers
        ≡ chunk.side_length * (chunk.side_length + 1)
  team_of-work omp options chunk rarity key result =
      work-new_worker (job_of chunk rarity key) (omp.share (team_size options) columns)
      ∙ ap (λ n. n * (chunk.side_length + 1))
          (∥∥₁_elim (omp.share_law (team_size options) columns) (ℕ_set _ _) length-Permᴰ
            ∙ length-coordinates chunk.bottom_left.x chunk.side_length)
    where
      columns : List ℤ
      columns = coordinates chunk.bottom_left.x chunk.side_length

  -- A run from the team that `mine` starts takes at most side_length * (side_length + 1) steps. Unless
  -- it is finished, and then it has taken exactly as many, it can take a further step.
  pub run_terminates :
      (omp : OpenMp) (options : CpuMinerOptions) (chunk : ChunkFootprint) (rarity key : ℕ)
      (result : List PlanetLocation) (t : Team)
      → let job = job_of chunk rarity key in
        let all_steps = chunk.side_length * (chunk.side_length + 1) in
        (r : Reach g job (team_of omp options chunk result) t)
        → (steps g r ≤ all_steps)
          × ((IsFinished g job t × (steps g r ≡ all_steps)) ⊎ ((u : Team) × Step g job t u))
  run_terminates omp options chunk rarity key result t r = (
    omega (arith, balance),
    elim (progress g (job_of chunk rarity key) [] t.workers t refl) [
      | inl f ↦ inl (
        f,
        omega (arith, balance, (IsFinished-outstanding g (job_of chunk rarity key) t.workers f).1),
      )
      | inr step ↦ inr step
    ],
  )
    where
      balance :
          steps g r + team_work (job_of chunk rarity key) t.workers
          ≡ chunk.side_length * (chunk.side_length + 1)
      balance = steps-work g r ∙ team_of-work omp options chunk rarity key result
