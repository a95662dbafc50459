-- ===== src/Tests/CliExamples.antt =====
-- The theorems on the program, at a few arguments.
use blue_space.Prelude.{
  ℕ, ◌*◌, ◌^◌, ◌≤◌, ◌<◌, ◌≡◌, ◌⊎◌, inl, refl, ap, ◌∙◌, arith, Bool, true, false, ◌||◌, String, none,
  some, List, [], ◌∷◌, if◌then◌else◌,
}
use blue_space.Outcome.{Outcome, done, throws, dies, parse_error, terminate, done-injective}
use blue_space.Cuda.Grid.{tpi_4}
use blue_space.Service.Api.{Miner}
use blue_space.Service.Rest.{same_string}
use blue_space.Service.Listener.{Listener}
use blue_space.Service.Listener.Steps.{IsAccepting}
use blue_space.Service.Listener.Opening.{ListensOn}
use blue_space.Service.Application.Serving.{serve}
use blue_space.Cli.{
  threads_per_item, set_miner, set_run_mode, use_cuda_miner, cpu, stateless, Argument, flag, option,
  Given, Cli11, BlueSpace, value_or, arguments, settings, parse_args,
}
use blue_space.Cli.Settings.{IsParsed, parse_args-IsParsed}
use blue_space.Prelude.Int.{negsuc, ◌-ℤ◌}
use blue_space.Service.Application.{pointed_to}
use blue_space.Cuda.Grid.{threads}
use blue_space.Cli.Run.{
  exits, run_benchmark, run_iterations, run_benchmark_iteration, benchmark_chunk, run_parsed, run,
  catch_invalid_argument, ending, Miners, make_miner, serves, main, num_hashes,
}
use blue_space.Cli.Run.Benchmark.{num_hashes-cases}
use blue_space.Cli.Run.Endings.{IsServerRun, main_serves, main_terminates}
use blue_space.Tests.ServiceExamples.{corner_miner, values, tree}
use blue_space.Tests.RpcModel.{json_rpc}
use blue_space.Tests.ListenerExamples.{asio, acceptor}

abbrev is_flag : String → List Argument → Bool
is_flag name [] = false
is_flag name (flag f ∷ rest) = same_string f name || is_flag name rest
is_flag name (option f ∷ rest) = is_flag name rest

abbrev all_flags : List Argument → List String → Bool
all_flags declared [] = true
all_flags declared (name ∷ names) =
    if is_flag name declared then all_flags declared names else false

abbrev given_flag : List String → String → Bool
given_flag [] name = false
given_flag (f ∷ fs) name = same_string f name || given_flag fs name

abbrev flags : List String → Given
flags argv = record { flag_of = given_flag argv; option_of = λ name. none }

abbrev parsed_if : Bool → List String → Outcome Given
parsed_if true argv = done (flags argv)
parsed_if false argv = throws parse_error

no_options :
    (b : Bool) (argv : List String) (given : Given) (name : String) (n : ℕ)
    → parsed_if b argv ≡ done given
    → given.option_of name ≡ some n
    → n < 2 ^ 32
no_options true argv given name n e f =
    absurd (none_given (ap (λ g. g.option_of name) (done-injective e) ∙ f))
  where
    none_given : ¬ (none ≡ some n)
    none_given g = absurd (cc g)
no_options false argv given name n e f = absurd (cc e)

-- Takes the flags that are declared, and no options.
abbrev flags_only : Cli11
flags_only = record {
  parse = λ declared argv. parsed_if (all_flags declared argv) argv;
  option_law =
      λ declared argv given name n e f. no_options (all_flags declared argv) argv given name n e f;
}

abbrev miners : Miners
miners = record { cpu_miner = λ o. corner_miner; cuda_miner = λ device o. corner_miner }

abbrev unset : BlueSpace
unset = record {
  http_port = 7;
  miner_type = cpu;
  cpu_miner_options = record { num_threads = 7 };
  cuda_device = 7;
  cuda_miner_options = record { thread_work_size = 7; block_size = 7; threads_per_item = tpi_4 };
  mine_rarity = 7;
  mine_key = 7;
  mine_size = 70000;
  run_mode = stateless;
}

abbrev argv : List String
argv = "--cuda" ∷ []

unfoldable server_run : IsServerRun values json_rpc tree asio flags_only true miners argv unset
unfolding arguments same_string
server_run = record {
  given = flags argv;
  parsed = refl;
  no_help = refl;
  no_version = refl;
  no_benchmark = refl;
}

main_serves_example :
    (m : Miner) × (l : Listener) × (make_miner true miners (settings true (flags argv) unset)
      ≡ some m)
    × (main values json_rpc tree asio flags_only true miners argv unset ≡ done (serves l))
    × ListensOn 8000 l
    × IsAccepting (serve values json_rpc tree (some m) 8000) l
unfolding server_run value_or
main_serves_example =
    main_serves values json_rpc tree asio flags_only true miners argv unset server_run
      (acceptor 8000) refl

-- Not built with the CUDA miner.
main_terminates_example :
    main values json_rpc tree asio flags_only false miners argv unset ≡ dies terminate
unfolding arguments same_string
main_terminates_example =
    main_terminates values json_rpc tree asio flags_only false miners argv unset (inl refl)

num_hashes-cases_example :
    ((70000 < 2 ^ 16) × (num_hashes unset ≡ 2 * (70000 * 70000)))
    ⊎ ((2 ^ 16 ≤ 70000) × (num_hashes unset < 2 * (70000 * 70000)))
num_hashes-cases_example = num_hashes-cases unset (omega arith)

parse_args-IsParsed_example :
    IsParsed true (settings true (flags argv) unset)
    × ((m : Miner) × (make_miner true miners (settings true (flags argv) unset) ≡ some m))
unfolding parse_args arguments same_string
parse_args-IsParsed_example =
    parse_args-IsParsed flags_only true argv unset (settings true (flags argv) unset) miners refl

-- The benchmark finds the corner of its square twice.
benchmark_runs :
    run_benchmark corner_miner unset
    ≡ done (
        record { coordinate = (benchmark_chunk unset).bottom_left; hash = "0" }
        ∷ record { coordinate = (benchmark_chunk unset).bottom_left; hash = "0" }
        ∷ [])
unfolding run_benchmark run_iterations run_benchmark_iteration
benchmark_runs = refl

benchmark_corner :
    (benchmark_chunk unset).bottom_left ≡ record { x = negsuc 34999; y = negsuc 34999 }
unfolding benchmark_chunk ◌-ℤ◌
benchmark_corner = refl

benchmark_exits :
    main values json_rpc tree asio flags_only true miners ("--benchmark" ∷ []) unset
    ≡ done (exits 0)
unfolding main parse_args arguments same_string run_parsed run make_miner settings set_miner
    set_run_mode use_cuda_miner run_benchmark run_iterations run_benchmark_iteration pointed_to
    catch_invalid_argument ending
benchmark_exits = refl

help_exits :
    main values json_rpc tree asio flags_only true miners ("--cuda" ∷ "--help" ∷ []) unset
    ≡ done (exits 0)
unfolding main parse_args arguments same_string run_parsed catch_invalid_argument
help_exits = refl

five_threads : threads (threads_per_item 5) ≡ 8
unfolding threads_per_item
five_threads = refl
