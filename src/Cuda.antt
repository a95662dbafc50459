-- ===== src/Cuda.antt =====
-- miner-cuda: the miner that computes with CGBN on a CUDA device.
pub mod Checks
pub mod Cgbn
pub mod Hash
pub mod Kernel
pub mod Grid
pub mod Miner
pub mod Agreement
pub mod Mine
