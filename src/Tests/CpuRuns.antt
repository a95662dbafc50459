-- ===== src/Tests/CpuRuns.antt =====
-- The CPU miner at a planet that miner-cpu/test/cpu_miner_test.cc expects.
use blue_space.Prelude.{
  ℕ, zero, suc, ◌≡◌, refl, List, [], ◌∷◌, ◌++◌, none, some, Option, ◌⊎◌, inl, inr, ◌↔◌, Mem, arith,
}
use blue_space.Prelude.Int.{pos, negsuc, to_u32, ◌-ℤ◌, ◌+ℤ◌, loop_values}
use blue_space.Constants.{mimc_p, mimc_c}
use blue_space.Footprint.{ChunkFootprint, PlanetLocation}
use blue_space.Mimc.{location_hash, absorb, permute, feistel_rounds, feistel_round, last_round}
use blue_space.Cpu.Hash.{
  wrap_coordinate, reset, save, restore, result, field_add, fifth_power, inject, mix_round,
  mix_rounds, mix_last, mix, is_planet,
}
use blue_space.Cpu.Mine.{
  CpuMinerOptions, Worker, Job, Team, new_worker, coordinates, start_column, visit, advance, mine,
  turn, Reach, here, next,
}
use blue_space.Cpu.Mine.Planets.{hash_at}
use blue_space.Cpu.Mine.Correct.{job_of, team_of, mine_starts}
use blue_space.Cpu.Mine.Progress.{IsFinished}
use blue_space.Cpu.Mine.Members.{IsPlanetOf, finished_result}
use blue_space.Outcome.{done}
use mathlib.Core.Logic.{◌∨₁◌}
use blue_space.Tests.Models.{gmp, one_thread}

-- The hash that the test lists for (-81, 13).
planet_hash :
    gmp.get_str (hash_at gmp 420 (negsuc 80) (pos 13))
    ≡ "940730834903647137929381122188788642093437120345760373357871377071349968"
unfolding mimc_p mimc_c location_hash absorb permute feistel_rounds feistel_round last_round
    wrap_coordinate to_u32 ◌-ℤ◌
planet_hash = refl

-- The chunk that holds that location alone.
abbrev pub chunk : ChunkFootprint
chunk = record { bottom_left = record { x = negsuc 80; y = pos 13 }; side_length = 1 }

abbrev pub planet : PlanetLocation
planet = record {
  coordinate = record { x = negsuc 80; y = pos 13 };
  hash = "940730834903647137929381122188788642093437120345760373357871377071349968";
}

abbrev pub options : CpuMinerOptions
options = record { num_threads = 0 }

pub record Run (job : Job) (s : Team) : Type 0 where
  pub last : Team
  pub reach : Reach gmp job s last

split : {A : Type 0} (o : Option A) → (o ≡ none) ⊎ ((a : A) × (o ≡ some a))
split none = inl refl
split (some a) = inr (a, refl)

-- Up to `fuel` steps of a team of one worker.
solo :
    {job : Job} {s : Team}
    → ℕ
    → (w : Worker) (found : List PlanetLocation)
    → Reach gmp job s (record { workers = w ∷ []; result = found })
    → Run job s
solo zero w found r = record { last = record { workers = w ∷ []; result = found }; reach = r }
solo {job} {s} (suc fuel) w found r = elim (split (advance gmp job w)) [
  | inl e ↦ record { last = record { workers = w ∷ []; result = found }; reach = r }
  | inr ((w', new), e) ↦ solo fuel w' (found ++ new) (next r (turn [] w w' [] new e refl refl))
]

abbrev pub job : Job
job = job_of chunk 16384 420

abbrev pub start : Team
start = team_of one_thread options chunk []

unfoldable pub whole_run : Run job start
unfolding solo split advance start_column visit coordinates loop_values ◌+ℤ◌ new_worker mimc_p
    mimc_c wrap_coordinate to_u32 ◌-ℤ◌ reset save restore result field_add fifth_power inject
    mix_round mix_rounds mix_last mix is_planet
whole_run = solo 5 (new_worker (coordinates (negsuc 80) 1)) [] here

whole_run_result : whole_run.last.result ≡ planet ∷ []
unfolding whole_run
whole_run_result = refl

pub whole_run-IsFinished : IsFinished gmp job whole_run.last
unfolding whole_run
whole_run-IsFinished = (refl, tt)

pub started : mine gmp one_thread options chunk 16384 420 [] ≡ done (job, start)
started = mine_starts gmp one_thread options chunk 16384 420 [] (omega arith)

finished_result_example :
    Mem planet whole_run.last.result
    ↔ (Mem planet [] ∨₁ IsPlanetOf gmp (job_of chunk 16384 420) planet)
finished_result_example =
    finished_result gmp one_thread options chunk 16384 420 [] job start whole_run.last started
      whole_run.reach whole_run-IsFinished planet
