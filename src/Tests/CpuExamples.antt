-- ===== src/Tests/CpuExamples.antt =====
-- The theorems on the CPU miner, applied to the run of `CpuRuns` and to concrete coordinates.
use blue_space.Prelude.{◌+◌, ◌*◌, ◌^◌, ◌≤◌, ◌<◌, ◌≡◌, ◌⊎◌, [], arith, All}
use blue_space.Prelude.Int.{pos, negsuc}
use blue_space.Constants.{mimc_p, mimc_c}
use blue_space.Mimc.{absorb}
use blue_space.Outcome.{done}
use blue_space.Cpu.Hash.{mpz_bit_size, new_sponge, wrap_coordinate, inject, mix}
use blue_space.Cpu.Hash.Refinement.{halves, mix-inject}
use blue_space.Cpu.Hash.Coordinates.{wrap_coordinate_aliases}
use blue_space.Cpu.Mine.{Worker, Team, Step, advance}
use blue_space.Cpu.Mine.Progress.{steps, IsFinished}
use blue_space.Cpu.Mine.Correct.{run_terminates}
use blue_space.Cpu.Hash.Storage.{numbers}
use blue_space.Cpu.Mine.Storage.{stored_mine, runs_stored}
use blue_space.Cpu.Mine.Checked.{checked_advance, checked_mine}
use blue_space.Cpu.Mine.Checked.Typed.{IsTypedTeam}
use blue_space.Cpu.Mine.Checked.Runs.{runs_typed}
use blue_space.Tests.Models.{gmp, one_thread}
use blue_space.Tests.CpuRuns.{chunk, options, job, start, whole_run, started}

run_terminates_example :
    (steps gmp whole_run.reach ≤ 1 * (1 + 1))
    × ((IsFinished gmp job whole_run.last × (steps gmp whole_run.reach ≡ 1 * (1 + 1)))
        ⊎ ((u : Team) × Step gmp job whole_run.last u))
run_terminates_example =
    run_terminates gmp one_thread options chunk 16384 420 [] whole_run.last whole_run.reach

mix-inject_example :
    halves (mix gmp 420 (inject gmp new_sponge 13))
    ≡ absorb mimc_p 420 mimc_c (record { l = 0; r = 0 }) 13
mix-inject_example = mix-inject gmp 420 13 new_sponge

wrap_coordinate_aliases_example :
    (wrap_coordinate gmp (pos (13 + 2 ^ 32)) ≡ wrap_coordinate gmp (pos 13))
    × (wrap_coordinate gmp (negsuc (13 + 2 ^ 32)) ≡ wrap_coordinate gmp (negsuc 13))
wrap_coordinate_aliases_example = wrap_coordinate_aliases gmp 13

runs_typed_example :
    (checked_mine gmp one_thread options chunk 16384 420 [] ≡ done (job, start))
    × All (λ w. checked_advance gmp job w ≡ done (advance gmp job w)) whole_run.last.workers
    × IsTypedTeam whole_run.last
runs_typed_example =
    runs_typed gmp one_thread options chunk 16384 420 [] job start whole_run.last (omega arith) tt
      started whole_run.reach

runs_stored_example :
    (stored_mine gmp one_thread options chunk 16384 420 [] ≡ done (job, start))
    × All
        (λ (w : Worker). All (λ n. n < 2 ^ mpz_bit_size) (numbers w.sponge))
        whole_run.last.workers
runs_stored_example =
    runs_stored gmp one_thread options chunk 16384 420 [] job start whole_run.last (omega arith)
      started whole_run.reach
