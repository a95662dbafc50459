-- ===== src/Cpu/Mine/Checked.antt =====
-- miner-cpu/lib/miner.cc and wrap_coordinate of miner-cpu/lib/hash.cc with the arithmetic of int64_t,
-- where a sum or an opposite that does not fit is undefined behaviour.
pub mod Typed
pub mod Runs
use blue_space.Prelude.{ℕ, Option, none, some, List, [], ◌∷◌, map, if◌then◌else◌}
use blue_space.Prelude.Int.{ℤ, pos, ◌-ℤ◌, leb_ℤ, to_u32}
use blue_space.Outcome.{Outcome, done, ◌>>=◌}
use blue_space.Int64.{int64, int64_coordinates}
use blue_space.Gmp.{Gmp}
use blue_space.Constants.{mimc_p}
use blue_space.Footprint.{PlanetLocation, ChunkFootprint}
use blue_space.Cpu.Hash.{Sponge, reset, save, restore, result, inject, mix, is_planet}
use blue_space.Cpu.Mine.{CpuMinerOptions, OpenMp, Worker, Job, Team, new_worker, team_size}

module _ (g : Gmp) where
  unfoldable pub checked_wrap_coordinate : ℤ → Outcome ℕ
  checked_wrap_coordinate c =
      if leb_ℤ (pos 0) c
      then done (to_u32 c)
      else (do opposite ← int64 (pos 0 -ℤ c); done (g.mpz_sub_ui mimc_p (to_u32 opposite)))

  unfoldable pub checked_start_column : Job → Worker → ℤ → List ℤ → Outcome Worker
  checked_start_column job w x xs = do
    x_ ← checked_wrap_coordinate x
    ys ← int64_coordinates job.chunk.bottom_left.y job.chunk.side_length
    done (record {
      sponge = save (mix g job.key (inject g (reset w.sponge) x_));
      x = x;
      ys = ys;
      xs = xs;
    })

  unfoldable pub checked_visit : Job → Sponge → ℤ → ℤ → Outcome (Sponge × List PlanetLocation)
  checked_visit job s x y = do
    y_ ← checked_wrap_coordinate y
    let s' = mix g job.key (inject g (restore s) y_)
    let planet_hash = result s'
    let location : PlanetLocation = record {
      coordinate = record { x = x; y = y };
      hash = g.get_str planet_hash;
    }
    done (s', if is_planet g planet_hash job.threshold then location ∷ [] else [])

  unfoldable pub checked_advance : Job → Worker → Outcome (Option (Worker × List PlanetLocation))
  checked_advance job w = elim w.ys [
    | y ∷ ys ↦ do
      (s, found) ← checked_visit job w.sponge w.x y
      done (some (record w { sponge = s; ys = ys }, found))
    | [] ↦ elim w.xs [
      | x ∷ xs ↦ do w' ← checked_start_column job w x xs; done (some (w', []))
      | [] ↦ done none
    ]
  ]

  unfoldable pub checked_mine :
      OpenMp → CpuMinerOptions → ChunkFootprint → ℕ → ℕ → List PlanetLocation → Outcome (Job × Team)
  checked_mine omp options chunk rarity key result = do
    threshold ← g.mpz_tdiv_q mimc_p rarity
    columns ← int64_coordinates chunk.bottom_left.x chunk.side_length
    let shares = omp.share (team_size options) columns
    done (
      record { chunk = chunk; threshold = threshold; key = key },
      record { workers = map new_worker shares; result = result },
    )
