-- ===== src/Service.antt =====
-- blue-space/: the HTTP service that answers requests with what a miner finds.
pub mod Api
pub mod Rpc
pub mod Rest
pub mod Session
pub mod Listener
pub mod Application
pub mod CpuService
pub mod CudaService
