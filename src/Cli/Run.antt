-- ===== src/Cli/Run.antt =====
-- blue-space/src/main.cc, `BlueSpace::run`, the benchmark and `main`.
pub mod Endings
pub mod Benchmark
use blue_space.Prelude.{
  ℕ, zero, suc, ◌*◌, ◌/◌, ◌%◌, ◌^◌, Bool, true, false, String, Option, none, some, List, [],
  if◌then◌else◌,
}
use blue_space.Prelude.Int.{ℤ, pos, ◌-ℤ◌}
use blue_space.Outcome.{
  Outcome, done, throws, dies, Exception, invalid_argument, invalid_parameters_fault, fault,
  ptree_error, parse_error, system_error, terminate, null_pointer, ◌>>=◌,
}
use blue_space.Footprint.{PlanetLocation, ChunkFootprint}
use blue_space.Cpu.Mine.{CpuMinerOptions}
use blue_space.Cuda.Grid.{CudaMinerOptions}
use blue_space.Service.Api.{Miner}
use blue_space.Service.Rpc.{Values}
use blue_space.Service.Rpc.Server.{JsonRpc}
use blue_space.Service.Rest.{PropertyTree}
use blue_space.Service.Listener.{Asio, Listener}
use blue_space.Service.Application.{
  pointed_to, new_application, initialize_application, start_application,
}
use blue_space.Cli.{
  MinerType, cpu, cuda, RunMode, benchmark, stateless, BlueSpace, Cli11, parse_args,
}

-- The constructors of the two miners, behind the interface that they share.
pub record Miners : Type 0 where
  pub cpu_miner : CpuMinerOptions → Miner
  pub cuda_miner : ℕ → CudaMinerOptions → Miner

-- A null pointer if the CUDA miner is asked for and is not built.
unfoldable pub make_miner : Bool → Miners → BlueSpace → Option Miner
make_miner has_cuda_miner miners s = elim s.miner_type [
  | cpu ↦ some (miners.cpu_miner s.cpu_miner_options)
  | cuda ↦
      if has_cuda_miner then some (miners.cuda_miner s.cuda_device s.cuda_miner_options) else none
]

-- The square of the benchmark.
unfoldable pub benchmark_chunk : BlueSpace → ChunkFootprint
benchmark_chunk s =
    let half_size = s.mine_size / 2 in
    record {
      bottom_left = record { x = pos 0 -ℤ pos half_size; y = pos 0 -ℤ pos half_size };
      side_length = s.mine_size;
    }

unfoldable pub run_benchmark_iteration :
    Miner → ChunkFootprint → ℕ → ℕ → List PlanetLocation → Outcome (List PlanetLocation)
run_benchmark_iteration miner chunk mine_rarity mine_key result =
    miner.mine chunk mine_rarity mine_key result

-- The rounds that are left of the loop.
unfoldable pub run_iterations :
    ℕ → Miner → BlueSpace → List PlanetLocation → Outcome (List PlanetLocation)
run_iterations zero miner s result = done result
run_iterations (suc n) miner s result = do
  found ← run_benchmark_iteration miner (benchmark_chunk s) s.mine_rarity s.mine_key result
  run_iterations n miner s found

abbrev num_iter : ℕ
num_iter = 2

-- The planets of all iterations, which are left in `result`.
unfoldable pub run_benchmark : Miner → BlueSpace → Outcome (List PlanetLocation)
run_benchmark miner s = run_iterations num_iter miner s []

-- What the benchmark says it has hashed: the square is computed on uint32_t, the product on size_t.
unfoldable pub num_hashes : BlueSpace → ℕ
num_hashes s = s.mine_size * s.mine_size % 2 ^ 32 * num_iter % 2 ^ 64

-- What a run comes to: the result of the benchmark, or the listener that `ioc->run()` serves.
pub data Run : Type 0 where
  mined : List PlanetLocation → Run
  listening : Listener → Run

module _ (j : Values) (rpc : JsonRpc j) (p : PropertyTree) (asio : Asio) where
  unfoldable pub run : Bool → Miners → BlueSpace → Outcome Run
  run has_cuda_miner miners s =
      let miner = make_miner has_cuda_miner miners s in
      elim s.run_mode [
        | benchmark ↦ do result ← run_benchmark (pointed_to miner) s; done (mined result)
        | stateless ↦ do
          let app = initialize_application j rpc p miner (new_application j rpc p s.http_port)
          listener ← start_application j rpc p asio app
          done (listening listener)
      ]

-- An exit status, or the listener that runs on.
pub data Ending : Type 0 where
  exits : ℕ → Ending
  serves : Listener → Ending

-- The handler for std::invalid_argument; any other exception terminates the process.
unfoldable pub catch_invalid_argument : Outcome Ending → Outcome Ending
catch_invalid_argument (done e) = done e
catch_invalid_argument (dies d) = dies d
catch_invalid_argument (throws invalid_argument) = done (exits 1)
catch_invalid_argument (throws (invalid_parameters_fault m)) = dies terminate
catch_invalid_argument (throws (fault m)) = dies terminate
catch_invalid_argument (throws ptree_error) = dies terminate
catch_invalid_argument (throws parse_error) = dies terminate
catch_invalid_argument (throws system_error) = dies terminate

unfoldable pub ending : Run → Ending
ending (mined result) = exits 0
ending (listening l) = serves l

module _ (j : Values) (rpc : JsonRpc j) (p : PropertyTree) (asio : Asio) (cli : Cli11) where
  -- The body of the `try` of `main`, past parse_args.
  unfoldable pub run_parsed : Bool → Miners → Bool × BlueSpace → Outcome Ending
  run_parsed has_cuda_miner miners (go_on, s) =
      if go_on
      then (run j rpc p asio has_cuda_miner miners s >>= λ r. done (ending r))
      else done (exits 0)

  -- `s` is what the members of the object hold before they are set.
  unfoldable pub main : Bool → Miners → List String → BlueSpace → Outcome Ending
  main has_cuda_miner miners argv s =
      catch_invalid_argument
        (parse_args cli has_cuda_miner argv s >>= run_parsed has_cuda_miner miners)
