-- ===== src/Service/CudaService.antt =====
-- The service with the CUDA miner, miner-cuda/include/miner/cuda/miner.h, behind the interface of
-- miner-common/include/miner/common/miner.h.
pub mod Failures
use Prim.Native.String.{len}
use blue_space.Prelude.{ℕ, ◌<◌, ◌≡◌, ◌↔◌, ap, String, some, List, [], Mem}
use blue_space.Prelude.Int.{to_u32, to_u32_lt}
use blue_space.Outcome.{done, ◌>>=◌}
use blue_space.Gmp.{Gmp}
use blue_space.Footprint.{PlanetLocation}
use blue_space.Cpu.Mine as CpuMine
use blue_space.Cpu.Mine.{CpuMinerOptions, OpenMp, Job, Team, Reach}
use blue_space.Cpu.Mine.Progress.{IsFinished}
use blue_space.Cuda.Cgbn.{Cgbn}
use blue_space.Cuda.Kernel.{Batch}
use blue_space.Cuda.Grid.{CudaMinerOptions}
use blue_space.Cuda.Miner.Limbs.{GmpWords}
use blue_space.Cuda.Miner.Cache.{Platform}
use blue_space.Cuda.Miner.Collect.{Device}
use blue_space.Cuda.Miner.Mined.{OneBlock}
use blue_space.Cuda.Agreement.{launch_args, cuda_hash, cuda_location, IsOfChunk}
use blue_space.Cuda.Mine.{Symbols, CudaMiner, new_cuda_miner, mine}
use blue_space.Cuda.Mine.Ready.{new_cuda_miner-IsReady}
use blue_space.Cuda.Mine.Calls.{Called, Called-IsReady}
use blue_space.Cuda.Mine.Planets.{mine_same_planets}
use blue_space.Service.Api.{Miner, mine_single}
use blue_space.Service.Rpc.{Values}
use blue_space.Service.Rpc.Server.{JsonRpc}
use blue_space.Service.Rest.{PropertyTree}
use blue_space.Service.Rest.Response.{IsResponse}
use blue_space.Service.Rest.Requests.{IsAsked, asked_chunk}
use blue_space.Service.Application.Serving.{serve, rest_answers}

module _ (words : GmpWords) (g : Gmp) (b : Cgbn) (platform : Platform) (device : Device) where
  -- `miner_->mine`, on the miner as it is then, with what device memory holds then.
  unfoldable pub cuda_interface : CudaMiner → Batch → Miner
  cuda_interface miner batch = record {
    mine = λ chunk rarity key result.
        mine words g b platform device batch miner chunk rarity key result >>= λ r. done r.1;
  }

  -- However many calls of a new CUDA miner have returned: a request to /mine whose rarity, cut to
  -- 32 bits, is not 0, for a chunk with a side, cut to 32 bits, below 2 ^ 16 and at most as many
  -- rows as a block, where no product of the configuration wraps, is answered with the JSON of a
  -- tree that reads as the chunk that was asked for and a list of planets, in its order. A
  -- location of the chunk whose hash is not 0 is in the list exactly if any finished run of the
  -- CPU miner has found it on that chunk with that rarity and that key, cut to 32 bits; and
  -- whatever is in the list is at a location of the chunk, and is that location with its hash
  -- unless the hash is 0.
  pub answered_as_cpu :
      (j : Values) (rpc : JsonRpc j) (p : PropertyTree) (http_port : ℕ) (id : ℕ)
      (options : CudaMinerOptions) (symbols : Symbols) (miner : CudaMiner) (batch : Batch)
      (body : String) (r : IsAsked p body)
      (set_up : OneBlock miner.options
        (launch_args miner.options (asked_chunk p r) (to_u32 r.rarity) (to_u32 r.key)))
      (omp : OpenMp) (cpu_options : CpuMinerOptions) (job : Job) (s t : Team)
      → Called words g b platform device (new_cuda_miner id options symbols) miner
      → 0 < len body
      → 0 < to_u32 r.rarity
      → CpuMine.mine g omp cpu_options (asked_chunk p r) (to_u32 r.rarity) (to_u32 r.key) []
        ≡ done (job, s)
      → Reach g job s t
      → IsFinished g job t
      → let chunk = asked_chunk p r in
        let place =
          cuda_location g b device miner.options chunk
            (to_u32 r.rarity)
            (to_u32 r.key)
            set_up
            batch in
        (found : List PlanetLocation) × (reply : String) × IsResponse p r.side_length r.x r.y found
          reply
        × (serve j rpc p (some (cuda_interface miner batch)) http_port "/mine" body
            ≡ done (some reply))
        × ((x y : ℕ)
            → x < chunk.side_length
            → y < chunk.side_length
            → 0
              < cuda_hash g b device miner.options chunk
                  (to_u32 r.rarity)
                  (to_u32 r.key)
                  set_up
                  batch
                  x
                  y
            → Mem (place x y) found ↔ Mem (place x y) t.result)
        × ((q : PlanetLocation)
            → Mem q found
            → ∥ IsOfChunk g b device miner.options chunk
                (to_u32 r.rarity)
                (to_u32 r.key)
                set_up
                batch
                q ∥₁)
  unfolding cuda_interface mine_single
  answered_as_cpu j rpc p http_port id options symbols miner batch body r set_up omp cpu_options job
        s t calls long positive started run finished =
      let (ready, _) =
        Called-IsReady words g b platform device (new_cuda_miner id options symbols) miner
          (new_cuda_miner-IsReady platform id options symbols) calls in
      let (after, found, returns, _, same, inside) =
        mine_same_planets words g b platform device batch miner (asked_chunk p r) (to_u32 r.rarity)
          (to_u32 r.key) set_up omp cpu_options job s t ready positive (to_u32_lt r.key) started run
          finished in
      let (reply, reads_as, answers) =
        rest_answers j rpc p (cuda_interface miner batch) http_port body r found long
          (ap (λ o. o >>= λ q. done q.1) returns) in
      (found, reply, reads_as, answers, same, inside)
