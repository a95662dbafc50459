-- ===== src/Lib.antt =====
-- Blue Space: miners that look for planets in a square of a two-dimensional universe. A location
-- (x, y) is hashed by a MiMC sponge over a prime field; it is a planet if its hash is below
-- P / rarity. A CPU miner (GMP, OpenMP) and a CUDA miner (CGBN) answer the same question.
--
-- The parts of the program and the files that model them:
--   miner-common/include/miner/common/miner.h       Footprint
--   miner-common/include/miner/common/constants.h   Constants
--   miner-cpu/lib/hash.h, hash.cc                   Cpu/Hash (one function per method of Sponge)
--   miner-cpu/lib/miner.cc, CpuMiner::mine          Cpu/Mine (mine up to the parallel region; the
--                                                   region is the relation Step on a Team),
--                                                   Cpu/Mine/Storage (with the reallocations) and
--                                                   Cpu/Mine/Checked (with int64_t arithmetic)
--   miner-cuda/lib/miner.cu, device functions       Cuda/Hash
--   miner-cuda/lib/miner.cu, mine_batch_kernel      Cuda/Kernel, and run_threads in Kernel/Launch
--   miner-cuda/lib/miner.cu, run_mine_batch         Cuda/Grid (the launch configuration) and
--                                                   Cuda/Miner/Collect
--   miner-cuda/lib/miner.cu, from_mpz and to_mpz    Cuda/Miner/Limbs
--   miner-cuda/lib/miner.cu, prepare_cache          Cuda/Miner/Memory (the size of the batch) and
--                                                   Cuda/Miner/Cache
--   miner-cuda/lib/miner.cu, the class CudaMiner    Cuda/Mine (its constructor, initialize, mine)
--   miner-cuda/lib/cu_helpers.h                     Cuda/Checks, and Cuda/Mine/Checked (the class with
--                                                   its checks)
--   blue-space/lib/api/stateless.cpp                Service/Api
--   blue-space/lib/rpc/stateless.cpp, method.h      Service/Rpc
--   blue-space/lib/rest.cpp, and handle_request     Service/Rest
--     of lib/server.cpp and lib/rpc/server.cpp
--   blue-space/lib/rpc/server.cpp                   Service/Rpc/Server
--   blue-space/lib/session.h, session.cpp           Service/Session
--   blue-space/lib/listener.h, listener.cpp, and    Service/Listener (the network is the relation
--     start of lib/server.cpp                         NetworkStep on the listener and its sessions)
--   blue-space/lib/application.cpp                  Service/Application
--   either miner as the service's miner             Service/CpuService, Service/CudaService
--   blue-space/src/main.cc, parse_args              Cli
--   blue-space/src/main.cc, run and main            Cli/Run
-- The arguments say which miner is made and whether it is run once, on a square around the origin,
-- or serves. The application gives the miner to the API that both endpoints share. The listener
-- makes a session for each connection and gives it the server's handler for requests.
-- A session hands the target and the body of a POST to `route`, which hands them to one of the two
-- endpoints; these ask the API for the planets, and the API asks a miner. The miner of the service is
-- the interface, a function. Service/CpuService puts the CPU miner behind it, with a Scheduler for
-- the order in which its threads run to their ends; Service/CudaService the CUDA miner, as it stands
-- after the calls of Cuda/Mine/Calls. Service/Rest/Response says what the tree that is written as a
-- response holds, and Cuda/Mine/Checked/Calls which calls of the CUDA run-time decide how a call of
-- the miner ends.
--
-- Mimc is the specification that both sponges are compared with: the permutation without
-- temporaries, and the hash of a location. Cpu/Mine/Members says which locations are planets,
-- Cuda/Miner/Planets and Cuda/Miner/Interleaved what the CUDA miner finds, with its threads one after
-- another and at once, and Cuda/Agreement compares the two miners.
--
-- Libraries are parameters: Gmp (GMP's integers), Cuda/Cgbn (CGBN's 256-bit numbers), OpenMp in
-- Cpu/Mine (how the iterations are shared out), GmpWords in Cuda/Miner/Limbs (import and export of
-- words), Device in Cuda/Miner/Collect (in which order the device runs the threads of a launch, one
-- after another; Kernel/Interleaving leaves open which thread does the next round of its loop, where
-- a round is one step), Values in Service/Rpc
-- (jsonrpc::Value), JsonRpc in Service/Rpc/Server, PropertyTree in Service/Rest, Beast in
-- Service/Session, Asio in Service/Listener, and Cli11 in Cli. Their records hold the operations with
-- the behaviour that the libraries document; the modules under Tests have an instance of each.
-- Prelude has the integers, tests and lemmas that the parts share; Outcome says how a call can end.
--
-- Numbers: an mpz_t is a natural number, since no negative one is built. A number of CGBN is below
-- 2 ^ 256. uint32_t arithmetic is written out modulo 2 ^ 32, and a cast to uint32_t is `to_u32`.
-- Coordinates are unbounded integers, but in Int64, Cpu/Mine/Checked and Cuda/Kernel/Checked, where
-- each sum and each opposite on int64_t is computed by `int64`, which ends in `signed_overflow`
-- where C++ leaves the behaviour undefined.
--
-- Fuel: the loop of the device's field_add has a round more than its sum has multiples of P, and
-- each round takes one away. The loops over coordinates have a round for each coordinate and one
-- for the test that ends them.
--
-- Not modelled: logging and what is printed, the time that the benchmark measures, the expiry of a
-- connection, how GMP allocates and frees its numbers, and the CUDA run-time. What the CUDA calls
-- return is a parameter of Cuda/Mine/Checked (CudaStatus); in the rest of Cuda they are taken to
-- succeed. The tests and the benchmark programs of the repository are left out.
pub mod Prelude
pub mod Outcome
pub mod Gmp
pub mod Int64
pub mod Constants
pub mod Footprint
pub mod Mimc
pub mod Cpu
pub mod Cuda
pub mod Service
pub mod Cli
mod Tests
