-- ===== src/Cli/Run/Endings.antt =====
-- How the program ends, from its arguments on.
use blue_space.Prelude.{
  ℕ, ◌%◌, ◌^◌, ◌≡◌, refl, ap, ◌∙◌, Bool, true, false, String, some, List, ◌⊎◌, inl, inr,
  if◌then◌else◌,
}
use blue_space.Outcome.{
  Outcome, done, throws, dies, parse_error, system_error, terminate, ◌>>=◌, bind_assoc,
}
use blue_space.Service.Api.{Miner}
use blue_space.Service.Rpc.{Values}
use blue_space.Service.Rpc.Server.{JsonRpc}
use blue_space.Service.Rest.{PropertyTree}
use blue_space.Service.Listener.{
  Acceptor, Asio, Listener, initialize, new_listener, start_server, start_listener, accept_one,
  set_new_session_handler,
}
use blue_space.Service.Listener.Steps.{IsAccepting}
use blue_space.Service.Listener.Opening.{ListensOn}
use blue_space.Service.Application.{new_application, initialize_application, start_application}
use blue_space.Service.Application.Serving.{serve, start_application-ListensOn}
use blue_space.Cli.{Given, Cli11, BlueSpace, stateless, value_or, arguments, settings, parse_args}
use blue_space.Cli.Settings.{settings_stateless, parse_args-IsParsed}
use blue_space.Cli.Run.{
  Miners, make_miner, listening, run, serves, ending, catch_invalid_argument, run_parsed, main,
}

module _ (j : Values) (rpc : JsonRpc j) (p : PropertyTree) (asio : Asio) (cli : Cli11)
    (has_cuda_miner : Bool) (miners : Miners) (argv : List String) (s : BlueSpace) where
  -- The arguments ask for the server, and for neither help nor the version.
  pub record IsServerRun : Type 0 where
    pub given : Given
    pub parsed : cli.parse (arguments has_cuda_miner) argv ≡ done given
    pub no_help : given.flag_of "--help" ≡ false
    pub no_version : given.flag_of "--version" ≡ false
    pub no_benchmark : given.flag_of "--benchmark" ≡ false

  -- The port that is asked for.
  abbrev pub asked_port : IsServerRun → ℕ
  asked_port r = value_or (r.given.option_of "--http-port") 8000

  parse_args-IsServerRun :
      (r : IsServerRun)
      → parse_args cli has_cuda_miner argv s ≡ done (true, settings has_cuda_miner r.given s)
  unfolding parse_args
  parse_args-IsServerRun r = rw (r.parsed, r.no_help, r.no_version) refl

  run_stateless :
      (t : BlueSpace)
      → t.run_mode ≡ stateless
      → run j rpc p asio has_cuda_miner miners t
        ≡ start_application j rpc p asio (
            initialize_application j rpc p
              (make_miner has_cuda_miner miners t)
              (new_application j rpc p t.http_port))
          >>= λ l. done (listening l)
  unfolding run
  run_stateless t e = rw e refl

  -- The miner that the settings lead to.
  chosen :
      (r : IsServerRun)
      → (m : Miner) × (make_miner has_cuda_miner miners (settings has_cuda_miner r.given s)
          ≡ some m)
  chosen r =
      (parse_args-IsParsed cli has_cuda_miner argv s (settings has_cuda_miner r.given s) miners
        (parse_args-IsServerRun r)).1

  abbrev started : (m : Miner) → ℕ → Outcome Listener
  started m port =
      start_application j rpc p asio
        (initialize_application j rpc p (some m) (new_application j rpc p port))

  main-IsServerRun :
      (r : IsServerRun)
      → main j rpc p asio cli has_cuda_miner miners argv s
        ≡ catch_invalid_argument (started (chosen r).0 (asked_port r) >>= λ l. done (serves l))
  unfolding main run_parsed ending
  main-IsServerRun r =
      rw
        (
          parse_args-IsServerRun r,
          run_stateless (settings has_cuda_miner r.given s) moded.0,
          (chosen r).1,
          moded.1,
        )
        (ap catch_invalid_argument (bind_assoc (started (chosen r).0 (asked_port r)) _ _))
    where
      moded :
          ((settings has_cuda_miner r.given s).run_mode ≡ stateless)
          × ((settings has_cuda_miner r.given s).http_port ≡ asked_port r)
      moded = settings_stateless has_cuda_miner r.given s r.no_benchmark

  started_done :
      (m : Miner) (port : ℕ) (a : Acceptor)
      → asio.make_acceptor (port % 2 ^ 16) ≡ done a
      → (l : Listener) × (started m port ≡ done l)
  unfolding start_application initialize_application new_application start_server initialize
      new_listener start_listener
  started_done m port a e = (
    set_new_session_handler (serve j rpc p (some m) port)
        (if a.is_open then accept_one opened else opened),
    rw e refl,
  )
    where
      opened : Listener
      opened = record (new_listener (port % 2 ^ 16)) { acceptor = some a }

  started_throws :
      (m : Miner) (port : ℕ)
      → asio.make_acceptor (port % 2 ^ 16) ≡ throws system_error
      → started m port ≡ throws system_error
  unfolding start_application initialize_application new_application start_server initialize
      new_listener
  started_throws m port e = rw e refl

  -- Arguments that ask for the server lead to one that accepts connections on the port of the
  -- option modulo 2 ^ 16, where Asio can listen, and answers with the miner that the settings
  -- choose.
  pub main_serves :
      (r : IsServerRun) (a : Acceptor)
      → asio.make_acceptor (asked_port r % 2 ^ 16) ≡ done a
      → (m : Miner) × (l : Listener) × (make_miner has_cuda_miner miners
            (settings has_cuda_miner r.given s)
          ≡ some m)
        × (main j rpc p asio cli has_cuda_miner miners argv s ≡ done (serves l))
        × ListensOn (asked_port r % 2 ^ 16) l
        × IsAccepting (serve j rpc p (some m) (asked_port r)) l
  unfolding catch_invalid_argument
  main_serves r a e =
      let (m, made) = chosen r in
      let (l, begun) = started_done m (asked_port r) a e in
      let (listens, accepting) =
        start_application-ListensOn j rpc p asio (some m) (asked_port r) l begun in
      (
        m,
        l,
        made,
        main-IsServerRun r ∙ ap (λ o. catch_invalid_argument (o >>= λ k. done (serves k))) begun,
        listens,
        accepting,
      )

  -- Arguments that CLI11 refuses end the process by std::terminate, and so do arguments that ask for
  -- the server on a port, modulo 2 ^ 16, on which Asio cannot listen.
  pub main_terminates :
      (cli.parse (arguments has_cuda_miner) argv ≡ throws parse_error)
        ⊎ ((r : IsServerRun) × (asio.make_acceptor (asked_port r % 2 ^ 16) ≡ throws system_error))
      → main j rpc p asio cli has_cuda_miner miners argv s ≡ dies terminate
  unfolding catch_invalid_argument main parse_args
  main_terminates (inl e) = rw e refl
  main_terminates (inr (r, e)) =
      main-IsServerRun r
      ∙ ap (λ o. catch_invalid_argument (o >>= λ k. done (serves k)))
          (started_throws (chosen r).0 (asked_port r) e)
