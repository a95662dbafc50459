-- ===== src/Service/CudaService/Failures.antt =====
-- One request that ends the service with the CUDA miner.
use blue_space.Prelude.{String}
use blue_space.Gmp.{Gmp}
use blue_space.Cuda.Cgbn.{Cgbn}
use blue_space.Service.Session.{Session}
use blue_space.Service.Listener.{Listener}
