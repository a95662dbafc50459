-- ===== src/Cli.antt =====
-- blue-space/src/main.cc, `BlueSpace::parse_args`: from the arguments to what is to be run.
pub mod Settings
pub mod Run
use blue_space.Prelude.{
  ℕ, ◌≤◌, ◌<◌, ◌^◌, ◌≡◌, Bool, true, false, String, Option, none, some, List, [], ◌∷◌, ◌++◌, leb,
  if◌then◌else◌,
}
use blue_space.Outcome.{Outcome, done, throws, parse_error, ◌>>=◌}
use blue_space.Cpu.Mine.{CpuMinerOptions}
use blue_space.Cuda.Grid.{ThreadsPerItem, tpi_4, tpi_8, tpi_16, tpi_32, CudaMinerOptions}

pub data MinerType : Type 0 where
  cpu cuda : MinerType

pub data RunMode : Type 0 where
  benchmark stateless : RunMode

-- `app.add_flag` and `app.add_option`, by the argument's name.
pub data Argument : Type 0 where
  flag : String → Argument
  option : String → Argument

-- What CLI11 stores: the flags that were given, and the numbers.
pub record Given : Type 0 where
  pub flag_of : String → Bool
  pub option_of : String → Option ℕ

-- CLI11. An argument that is not declared, or is no uint32_t, is a ParseError.
pub record Cli11 : Type 0 where
  pub parse : List Argument → List String → Outcome Given
  pub option_law :
      (declared : List Argument) (argv : List String) (given : Given) (name : String) (n : ℕ)
      → parse declared argv ≡ done given
      → given.option_of name ≡ some n
      → n < 2 ^ 32

-- The members of BlueSpace.
pub record BlueSpace : Type 0 where
  pub http_port : ℕ
  pub miner_type : MinerType
  pub cpu_miner_options : CpuMinerOptions
  pub cuda_device : ℕ
  pub cuda_miner_options : CudaMinerOptions
  pub mine_rarity : ℕ
  pub mine_key : ℕ
  pub mine_size : ℕ
  pub run_mode : RunMode

unfoldable pub value_or : Option ℕ → ℕ → ℕ
value_or none n = n
value_or (some m) n = m

-- HAS_CUDA_MINER is how the program was built.
unfoldable pub arguments : Bool → List Argument
arguments has_cuda_miner =
    flag "--help"
    ∷ flag "--version"
    ∷ flag "--benchmark"
    ∷ flag "--stateless"
    ∷ option "--http-port"
    ∷ flag "--cpu"
    ∷ option "--cpu-threads"
    ∷ ((if has_cuda_miner
          then flag "--cuda"
            ∷ option "--cuda-device"
            ∷ option "--cuda-thread-work-size"
            ∷ option "--cuda-block-size"
            ∷ option "--cuda-threads-per-item"
            ∷ []
          else [])
        ++ option "--rarity" ∷ option "--key" ∷ option "--size" ∷ [])

unfoldable pub use_cuda_miner : Bool → Given → Bool
use_cuda_miner has_cuda_miner given = if has_cuda_miner then given.flag_of "--cuda" else false

unfoldable pub threads_per_item : ℕ → ThreadsPerItem
threads_per_item tpi =
    if leb tpi 4 then tpi_4 else if leb tpi 8 then tpi_8 else if leb tpi 16 then tpi_16 else tpi_32

-- The choice of the miner and its options; those of the other stay as they are.
unfoldable pub set_miner : Bool → Given → BlueSpace → BlueSpace
set_miner has_cuda_miner given s =
    if use_cuda_miner has_cuda_miner given
    then record s {
      miner_type = cuda;
      cuda_device = value_or (given.option_of "--cuda-device") 0;
      cuda_miner_options = record {
        thread_work_size = value_or (given.option_of "--cuda-thread-work-size") 16;
        block_size = value_or (given.option_of "--cuda-block-size") 32;
        threads_per_item =
            threads_per_item (value_or (given.option_of "--cuda-threads-per-item") 8);
      };
    }
    else record s {
      miner_type = cpu;
      cpu_miner_options = record { num_threads = value_or (given.option_of "--cpu-threads") 0 };
    }

unfoldable pub set_run_mode : Given → BlueSpace → BlueSpace
set_run_mode given s =
    if given.flag_of "--benchmark"
    then record s { run_mode = benchmark }
    else if given.flag_of "--stateless"
    then record s { run_mode = stateless }
    else record s { run_mode = stateless }

-- The members from the arguments, once neither help nor the version is asked for.
unfoldable pub settings : Bool → Given → BlueSpace → BlueSpace
settings has_cuda_miner given s =
    let ported = record s { http_port = value_or (given.option_of "--http-port") 8000 } in
    let mined = set_miner has_cuda_miner given ported in
    set_run_mode given (record mined {
      mine_rarity = value_or (given.option_of "--rarity") 16384;
      mine_key = value_or (given.option_of "--key") 420;
      mine_size = value_or (given.option_of "--size") 256;
    })

-- Whether to go on, and the members. What is printed for help and the version is left out.
unfoldable pub parse_args : Cli11 → Bool → List String → BlueSpace → Outcome (Bool × BlueSpace)
parse_args cli has_cuda_miner argv s = do
  given ← cli.parse (arguments has_cuda_miner) argv
  let go_on : Bool × BlueSpace = (true, settings has_cuda_miner given s)
  let stop : Bool × BlueSpace = (false, s)
  done (if given.flag_of "--help" then stop else if given.flag_of "--version" then stop else go_on)
