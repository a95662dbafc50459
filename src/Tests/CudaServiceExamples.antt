-- ===== src/Tests/CudaServiceExamples.antt =====
-- The theorem on the service with the CUDA miner, at a request for one location.
use blue_space.Prelude.{ℕ, ◌<◌, ◌≡◌, ◌↔◌, arith, String, some, List, [], Mem}
use blue_space.Prelude.Int.{pos, negsuc, to_u32}
use blue_space.Outcome.{throws, ptree_error, done}
use blue_space.Footprint.{PlanetLocation}
use blue_space.Cuda.Agreement.{cuda_hash, cuda_location, IsOfChunk}
use blue_space.Cuda.Mine.{new_cuda_miner}
use blue_space.Cuda.Mine.Calls.{none_yet}
use blue_space.Service.Rest.{PropertyTree}
use blue_space.Service.Rest.Response.{IsResponse}
use blue_space.Service.Application.Serving.{serve}
use blue_space.Service.CudaService.{cuda_interface, answered_as_cpu}
use blue_space.Prelude.{refl, inr}
use blue_space.Service.Api.{Miner}
use blue_space.Tests.Models.{gmp, cgbn, one_thread}
use blue_space.Tests.WordModel.{gmp_words}
use blue_space.Tests.CacheExamples.{platform}
use blue_space.Tests.DeviceModel.{device}
use blue_space.Tests.CpuRuns as Runs
use blue_space.Tests.AgreementExamples.{options, empty_batch, set_up}
use blue_space.Tests.MineExamples.{new_miner}
use blue_space.Tests.ServiceExamples.{values, tree}
use blue_space.Tests.RpcModel.{json_rpc}
use blue_space.Tests.ApplicationExamples.{asked}

answered_as_cpu_example :
    let place = cuda_location gmp cgbn device options Runs.chunk 16384 420 set_up empty_batch in
    (found : List PlanetLocation) × (reply : String) × IsResponse tree
      (pos 1)
      (negsuc 80)
      (pos 13)
      found
      reply
    × (serve values json_rpc tree
          (some (cuda_interface gmp_words gmp cgbn platform device new_miner empty_batch))
          8000
          "/mine"
          "{}"
        ≡ done (some reply))
    × ((x y : ℕ)
        → x < 1
        → y < 1
        → 0 < cuda_hash gmp cgbn device options Runs.chunk 16384 420 set_up empty_batch x y
        → Mem (place x y) found ↔ Mem (place x y) Runs.whole_run.last.result)
    × ((q : PlanetLocation)
        → Mem q found
        → ∥ IsOfChunk gmp cgbn device options Runs.chunk 16384 420 set_up empty_batch q ∥₁)
unfolding asked to_u32 new_cuda_miner
answered_as_cpu_example =
    answered_as_cpu gmp_words gmp cgbn platform device values json_rpc tree 8000 0 options
      (record { global_mimc_p = []; global_mimc_c = [] }) new_miner empty_batch "{}" asked set_up
      one_thread Runs.options Runs.job Runs.start Runs.whole_run.last none_yet (omega arith)
      (omega arith) Runs.started Runs.whole_run.reach Runs.whole_run-IsFinished

-- Nothing is JSON.
abbrev no_json : PropertyTree
no_json = record tree { read_json = λ s. throws ptree_error; read_law = λ s. inr refl }

abbrev miner : Miner
miner = cuda_interface gmp_words gmp cgbn platform device new_miner empty_batch
