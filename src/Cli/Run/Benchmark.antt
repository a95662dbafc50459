-- ===== src/Cli/Run/Benchmark.antt =====
-- What the benchmark mines, and how many hashes it reports.
use native.Mathlib.Nat.{mod-eq_of_lt, mul-le-mul_left}
use blue_space.Prelude.{
  ℕ, ◌*◌, ◌/◌, ◌%◌, ◌^◌, ◌<◌, ◌≤◌, ◌≡◌, refl, arith, List, [], ◌++◌, ◌⊎◌, inl, inr, dec_lt,
}
use blue_space.Prelude.Int.{pos, ◌+ℤ◌, ◌<ℤ◌, int_laws}
use blue_space.Outcome.{done}
use blue_space.Footprint.{PlanetLocation}
use blue_space.Service.Api.{Miner}
use blue_space.Cli.{BlueSpace}
use blue_space.Cli.Run.{
  benchmark_chunk, run_benchmark_iteration, run_iterations, run_benchmark, num_hashes,
}

-- The square of the benchmark holds the origin, and half of it, rounded down, is before it.
pub benchmark_chunk-centred :
    (s : BlueSpace)
    → 0 < s.mine_size
    → let corner = (benchmark_chunk s).bottom_left in
      (corner.x +ℤ pos (s.mine_size / 2) ≡ pos 0)
      × (corner.y ≡ corner.x)
      × (pos 0 <ℤ corner.x +ℤ pos s.mine_size)
unfolding benchmark_chunk
benchmark_chunk-centred s h = (omega int_laws, refl, omega int_laws)

-- With a miner that adds planets to what it is given, the benchmark is left with them twice.
pub run_benchmark_twice :
    (miner : Miner) (s : BlueSpace) (planets : List PlanetLocation)
    → ((found : List PlanetLocation)
        → miner.mine (benchmark_chunk s) s.mine_rarity s.mine_key found ≡ done (found ++ planets))
    → run_benchmark miner s ≡ done (planets ++ planets)
unfolding run_benchmark run_iterations run_benchmark_iteration
run_benchmark_twice miner s planets h = rw (h [], h planets) refl

square_lt : (n : ℕ) → n < 2 ^ 16 → n * n % 2 ^ 32 ≡ n * n
square_lt n h =
    let above : n * n ≤ n * 65535 = mul-le-mul_left {m = n} {n = 65535} n (omega arith) in
    mod-eq_of_lt (omega arith)

square_ge : (n : ℕ) → 2 ^ 16 ≤ n → n * n % 2 ^ 32 < n * n
square_ge n h =
    let below : n * 65536 ≤ n * n = mul-le-mul_left {m = 65536} {n = n} n h in omega arith

-- The number of hashes that is reported is that of two squares for sides below 2 ^ 16, and below it
-- for all others that a uint32_t holds.
pub num_hashes-cases :
    (s : BlueSpace)
    → s.mine_size < 2 ^ 32
    → ((s.mine_size < 2 ^ 16) × (num_hashes s ≡ 2 * (s.mine_size * s.mine_size)))
      ⊎ ((2 ^ 16 ≤ s.mine_size) × (num_hashes s < 2 * (s.mine_size * s.mine_size)))
unfolding num_hashes
num_hashes-cases s h = elim (dec_lt s.mine_size (2 ^ 16)) [
  | yes k ↦ let square = square_lt s.mine_size k in inl (k, omega arith)
  | no k ↦ let square = square_ge s.mine_size (omega arith) in inr (omega arith, omega arith)
]
