-- ===== src/Cpu/Mine.antt =====
-- miner-cpu/include/miner/cpu/miner.h and miner-cpu/lib/miner.cc. The parallel region is a team of
-- workers with a private sponge each. A worker's step is the head of the outer loop for its next x,
-- or one round of the inner loop; the critical section makes its push atomic.
pub mod Planets
pub mod Schedule
pub mod Progress
pub mod Correct
pub mod Members
pub mod Invariants
pub mod Storage
pub mod Checked
use blue_space.Prelude.{
  ℕ, suc, ◌+◌, ◌<◌, ◌≡◌, Bool, String, Option, none, some, List, [], ◌∷◌, ◌++◌, map, Perm, ltb,
  if◌then◌else◌, flatten,
}
use blue_space.Prelude.Int.{ℤ, pos, ◌+ℤ◌, loop_values}
use blue_space.Outcome.{Outcome, done, ◌>>=◌}
use blue_space.Gmp.{Gmp}
use blue_space.Constants.{mimc_p}
use blue_space.Footprint.{Coordinate, PlanetLocation, ChunkFootprint}
use blue_space.Cpu.Hash.{
  Sponge, new_sponge, reset, save, restore, result, wrap_coordinate, inject, mix, is_planet,
}

pub record CpuMinerOptions : Type 0 where
  pub num_threads : ℕ  -- uint32_t

-- What OpenMP does with `omp for`: each iteration goes to one thread of the team, whose size may
-- have been asked for.
pub record OpenMp : Type 0 where
  pub share : Option ℕ → List ℤ → List (List ℤ)
  pub share_law : (n : Option ℕ) (xs : List ℤ) → Perm (flatten (share n xs)) xs

-- A thread of the team: the x of its current round, the y and the x that are to come.
pub record Worker : Type 0 where
  pub sponge : Sponge
  pub x : ℤ
  pub ys : List ℤ
  pub xs : List ℤ

-- What the threads share and do not change.
pub record Job : Type 0 where
  pub chunk : ChunkFootprint
  pub threshold : ℕ
  pub key : ℕ

pub record Team : Type 0 where
  pub workers : List Worker
  pub result : List PlanetLocation

-- `c < start + side_length` as the test of a loop from `start`.
unfoldable pub coordinates : ℤ → ℕ → List ℤ
coordinates start side_length = loop_values (suc side_length) start (start +ℤ pos side_length)

unfoldable pub new_worker : List ℤ → Worker
new_worker xs = record { sponge = new_sponge; x = pos 0; ys = []; xs = xs }

-- The size of the team that `omp_set_num_threads` asks for, if it is called.
unfoldable pub team_size : CpuMinerOptions → Option ℕ
team_size options = if ltb 0 options.num_threads then some options.num_threads else none

module _ (g : Gmp) where
  -- The head of the outer loop: the sponge after x, saved.
  unfoldable pub start_column : Job → Worker → ℤ → List ℤ → Worker
  start_column job w x xs = record {
    sponge = save (mix g job.key (inject g (reset w.sponge) (wrap_coordinate g x)));
    x = x;
    ys = coordinates job.chunk.bottom_left.y job.chunk.side_length;
    xs = xs;
  }

  -- One round of the inner loop: the sponge that it leaves and the planet that it pushes.
  unfoldable pub visit : Job → Sponge → ℤ → ℤ → Sponge × List PlanetLocation
  visit job s x y =
      let s' = mix g job.key (inject g (restore s) (wrap_coordinate g y)) in
      let planet_hash = result s' in
      let location : PlanetLocation = record {
        coordinate = record { x = x; y = y };
        hash = g.get_str planet_hash;
      } in
      (s', if is_planet g planet_hash job.threshold then location ∷ [] else [])

  -- A worker's next step, with what it pushes; `none` once its share is done.
  unfoldable pub advance : Job → Worker → Option (Worker × List PlanetLocation)
  advance job w = elim w.ys [
    | y ∷ ys ↦
        let (s, found) = visit job w.sponge w.x y in some (record w { sponge = s; ys = ys }, found)
    | [] ↦ elim w.xs [ x ∷ xs ↦ some (start_column job w x xs, []) | [] ↦ none ]
  ]

  -- Any worker may be the next to take a step.
  pub data Step (job : Job) (s : Team) (t : Team) : Type 0 where
    turn :
        (before : List Worker) (w w' : Worker) (after : List Worker) (found : List PlanetLocation)
        → advance job w ≡ some (w', found)
        → s.workers ≡ before ++ w ∷ after
        → t ≡ record { workers = before ++ w' ∷ after; result = s.result ++ found }
        → Step job s t

  pub data Reach (job : Job) (s : Team) : Team → Type 0 where
    here : Reach job s s
    next : {t u : Team} → Reach job s t → Step job t u → Reach job s u

  -- `mine` up to the parallel region: the job and the team at its start.
  unfoldable pub mine :
      OpenMp → CpuMinerOptions → ChunkFootprint → ℕ → ℕ → List PlanetLocation → Outcome (Job × Team)
  mine omp options chunk rarity key result = do
    threshold ← g.mpz_tdiv_q mimc_p rarity
    let columns = coordinates chunk.bottom_left.x chunk.side_length
    let shares = omp.share (team_size options) columns
    done (
      record { chunk = chunk; threshold = threshold; key = key },
      record { workers = map new_worker shares; result = result },
    )
