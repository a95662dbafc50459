-- ===== src/Service/CpuService.antt =====
-- The service with the CPU miner, miner-cpu/include/miner/cpu/miner.h, behind the interface of
-- miner-common/include/miner/common/miner.h.
pub mod Failures
use blue_space.Prelude.{ℕ, zero, suc, ◌<◌, refl, inl, inr, arith, String, List, []}
use blue_space.Outcome.{done, ◌>>=◌}
use blue_space.Gmp.{Gmp}
use blue_space.Cpu.Mine.{CpuMinerOptions, OpenMp, Job, Team, Reach, here, next, mine}
use blue_space.Cpu.Mine.Progress.{IsFinished, team_work, progress, steps-work}
use blue_space.Service.Api.{Miner}
use blue_space.Service.Session.{Session}
use blue_space.Service.Listener.{Listener}
use mathlib.Core.Logic.Or

module _ (g : Gmp) where
  -- A run of a team that has finished.
  pub record WholeRun (job : Job) (s : Team) : Type 0 where
    pub last : Team
    pub reach : Reach g job s last
    pub finished : IsFinished g job last

  -- The order in which the threads of a parallel region run, up to its end.
  abbrev pub Scheduler : Type 0
  Scheduler = (job : Job) (s : Team) → WholeRun job s

  finish :
      (n : ℕ) {job : Job} {s t : Team}
      → team_work job t.workers < n
      → Reach g job s t
      → WholeRun job s
  finish zero below r = absurd (omega (arith, below))
  finish (suc n) {job} {s} {t} below r = elim (progress g job [] t.workers t refl) [
    | inl over ↦ record { last = t; reach = r; finished = over }
    | inr (u, step) ↦ finish n (omega (arith, below, steps-work g (next here step))) (next r step)
  ]

  -- The run in which, at each step, the first thread that can go on does.
  pub first_come : Scheduler
  first_come job s = finish (suc (team_work job s.workers)) (omega arith) here

  -- `miner_->mine`, whose parallel region has ended when it returns.
  unfoldable pub cpu_interface : OpenMp → Scheduler → CpuMinerOptions → Miner
  cpu_interface omp scheduler options = record {
    mine = λ chunk rarity key result. do
      (job, team) ← mine g omp options chunk rarity key result
      done (scheduler job team).last.result;
  }
