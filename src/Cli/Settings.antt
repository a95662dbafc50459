-- ===== src/Cli/Settings.antt =====
-- What parse_args leaves in the members, whatever the arguments.
use blue_space.Prelude.{
  ℕ, ◌≤◌, ◌<◌, ◌^◌, ◌≡◌, refl, sym, ap, subst, arith, Bool, true, false, String, Option, none, some,
  List, ◌⊎◌, inl, inr, if◌then◌else◌, Bool-cases,
}
use blue_space.Outcome.{done, done-injective, bind_done}
use blue_space.Cuda.Grid.{ThreadsPerItem, tpi_4, tpi_8, tpi_16, tpi_32, threads}
use blue_space.Service.Api.{Miner}
use blue_space.Cli.{
  cpu, cuda, RunMode, benchmark, stateless, Given, Cli11, BlueSpace, value_or, arguments,
  use_cuda_miner, threads_per_item, set_miner, set_run_mode, settings, parse_args,
}
use blue_space.Cli.Run.{Miners, make_miner}

-- The number of threads for an item is the least of 4, 8, 16 and 32 that is not below the number
-- asked for, and 32 where that is above them all.
pub threads-threads_per_item :
    (n : ℕ)
    → ((t : ThreadsPerItem) → n ≤ threads t → threads (threads_per_item n) ≤ threads t)
      × ((n ≤ threads (threads_per_item n)) ⊎ (32 < n))
unfolding threads_per_item
threads-threads_per_item n = (least, enough)
  where
    least : (t : ThreadsPerItem) → n ≤ threads t → threads (threads_per_item n) ≤ threads t
    least tpi_4 h = ground arith
    least tpi_8 h = ground arith
    least tpi_16 h = ground arith
    least tpi_32 h = ground arith

    enough : (n ≤ threads (threads_per_item n)) ⊎ (32 < n)
    enough = ground arith

value_or_lt : (o : Option ℕ) (n b : ℕ) → ((m : ℕ) → o ≡ some m → m < b) → n < b → value_or o n < b
unfolding value_or
value_or_lt none n b h k = k
value_or_lt (some m) n b h k = h m refl

-- The miner is the CUDA one only if that is built, and its options are below 2 ^ 32.
abbrev pub MinerIsParsed : Bool → BlueSpace → Type 0
MinerIsParsed has_cuda_miner s =
    ((s.miner_type ≡ cpu) × (s.cpu_miner_options.num_threads < 2 ^ 32))
    ⊎ ((s.miner_type ≡ cuda)
        × (has_cuda_miner ≡ true)
        × (s.cuda_device < 2 ^ 32)
        × (s.cuda_miner_options.thread_work_size < 2 ^ 32)
        × (s.cuda_miner_options.block_size < 2 ^ 32))

-- So are the other numbers.
pub record IsParsed (has_cuda_miner : Bool) (s : BlueSpace) : Type 0 where
  pub http_port_lt : s.http_port < 2 ^ 32
  pub rarity_lt : s.mine_rarity < 2 ^ 32
  pub key_lt : s.mine_key < 2 ^ 32
  pub size_lt : s.mine_size < 2 ^ 32
  pub miner : MinerIsParsed has_cuda_miner s

module _ (given : Given)
    (h : (name : String) (n : ℕ) → given.option_of name ≡ some n → n < 2 ^ 32) where
  option_lt : (name : String) (n : ℕ) → n < 2 ^ 32 → value_or (given.option_of name) n < 2 ^ 32
  option_lt name n k = value_or_lt (given.option_of name) n (2 ^ 32) (h name) k

  set_miner-MinerIsParsed :
      (has_cuda_miner : Bool) (s : BlueSpace)
      → MinerIsParsed has_cuda_miner (set_miner has_cuda_miner given s)
        × ((set_miner has_cuda_miner given s).http_port ≡ s.http_port)
  unfolding set_miner use_cuda_miner
  set_miner-MinerIsParsed false s = (inl (refl, option_lt "--cpu-threads" 0 (omega arith)), refl)
  set_miner-MinerIsParsed true s = elim (Bool-cases (given.flag_of "--cuda")) [
    | inl e ↦ rw e (
      inr (
        refl,
        refl,
        option_lt "--cuda-device" 0 (omega arith),
        option_lt "--cuda-thread-work-size" 16 (omega arith),
        option_lt "--cuda-block-size" 32 (omega arith),
      ),
      refl,
    )
    | inr e ↦ rw e (inl (refl, option_lt "--cpu-threads" 0 (omega arith)), refl)
  ]

  set_run_mode-IsParsed :
      (has_cuda_miner : Bool) (s : BlueSpace)
      → IsParsed has_cuda_miner s
      → IsParsed has_cuda_miner (set_run_mode given s)
  unfolding set_run_mode
  set_run_mode-IsParsed has_cuda_miner s v = elim (Bool-cases (given.flag_of "--benchmark")) [
    | inl e ↦ rw e (in_mode benchmark)
    | inr e ↦ elim (Bool-cases (given.flag_of "--stateless")) [
      | inl f ↦ rw (e, f) (in_mode stateless)
      | inr f ↦ rw (e, f) (in_mode stateless)
    ]
  ]
    where
      in_mode : (m : RunMode) → IsParsed has_cuda_miner (record s { run_mode = m })
      in_mode m = record {
        http_port_lt = v.http_port_lt;
        rarity_lt = v.rarity_lt;
        key_lt = v.key_lt;
        size_lt = v.size_lt;
        miner = v.miner;
      }

  settings-IsParsed :
      (has_cuda_miner : Bool) (s : BlueSpace)
      → IsParsed has_cuda_miner (settings has_cuda_miner given s)
  unfolding settings
  settings-IsParsed has_cuda_miner s = set_run_mode-IsParsed has_cuda_miner _ (record {
    http_port_lt =
        subst (λ n. n < 2 ^ 32) (sym chosen.1) (option_lt "--http-port" 8000 (omega arith));
    rarity_lt = option_lt "--rarity" 16384 (omega arith);
    key_lt = option_lt "--key" 420 (omega arith);
    size_lt = option_lt "--size" 256 (omega arith);
    miner = chosen.0;
  })
    where
      ported : BlueSpace
      ported = record s { http_port = value_or (given.option_of "--http-port") 8000 }

      chosen :
          MinerIsParsed has_cuda_miner (set_miner has_cuda_miner given ported)
          × ((set_miner has_cuda_miner given ported).http_port ≡ ported.http_port)
      chosen = set_miner-MinerIsParsed has_cuda_miner ported

stopped : ¬ (false ≡ true)
stopped e = absurd (cc e)

went_on :
    (help version : Bool) (s u t : BlueSpace)
    → ◌≡◌ {A = Bool × BlueSpace}
        (if help then (false, s) else if version then (false, s) else (true, u))
        (true, t)
    → u ≡ t
went_on true version s u t e = absurd (stopped (ap (λ r. r.0) e))
went_on false true s u t e = absurd (stopped (ap (λ r. r.0) e))
went_on false false s u t e = ap (λ r. r.1) e

made :
    (has_cuda_miner : Bool) (s : BlueSpace) (miners : Miners)
    → MinerIsParsed has_cuda_miner s
    → (m : Miner) × (make_miner has_cuda_miner miners s ≡ some m)
unfolding make_miner
made has_cuda_miner s miners (inl (e, k)) = (miners.cpu_miner s.cpu_miner_options, rw e refl)
made has_cuda_miner s miners (inr (e, b, device, size, block)) =
    (miners.cuda_miner s.cuda_device s.cuda_miner_options, rw (e, b) refl)

-- When parse_args says to go on, the port, the rarity, the key, the size and the numbers for the
-- chosen miner are below 2 ^ 32, and `run` has a miner, which is the CUDA one only in a program that
-- is built with it.
pub parse_args-IsParsed :
    (cli : Cli11) (has_cuda_miner : Bool) (argv : List String) (s t : BlueSpace) (miners : Miners)
    → parse_args cli has_cuda_miner argv s ≡ done (true, t)
    → IsParsed has_cuda_miner t × ((m : Miner) × (make_miner has_cuda_miner miners t ≡ some m))
unfolding parse_args
parse_args-IsParsed cli has_cuda_miner argv s t miners e =
    let (given, parsed, rest) =
      bind_done (cli.parse (arguments has_cuda_miner) argv) _ (true, t) e in
    let same =
      went_on (given.flag_of "--help") (given.flag_of "--version") s
        (settings has_cuda_miner given s) t (done-injective rest) in
    let valid : IsParsed has_cuda_miner t = subst (IsParsed has_cuda_miner) same (
      settings-IsParsed given
        (λ name n f. cli.option_law (arguments has_cuda_miner) argv given name n parsed f)
        has_cuda_miner s) in
    (valid, made has_cuda_miner t miners valid.miner)

-- Without the flag of the benchmark it is the server that runs, on the port of the option.
pub settings_stateless :
    (has_cuda_miner : Bool) (given : Given) (s : BlueSpace)
    → given.flag_of "--benchmark" ≡ false
    → ((settings has_cuda_miner given s).run_mode ≡ stateless)
      × ((settings has_cuda_miner given s).http_port
          ≡ value_or (given.option_of "--http-port") 8000)
unfolding settings set_miner set_run_mode
settings_stateless has_cuda_miner given s e =
    elim (Bool-cases (use_cuda_miner has_cuda_miner given)) [
      | inl c ↦ elim (Bool-cases (given.flag_of "--stateless")) [
        | inl f ↦ rw (e, f, c) (refl, refl)
        | inr f ↦ rw (e, f, c) (refl, refl)
      ]
      | inr c ↦ elim (Bool-cases (given.flag_of "--stateless")) [
        | inl f ↦ rw (e, f, c) (refl, refl)
        | inr f ↦ rw (e, f, c) (refl, refl)
      ]
    ]
