-- ===== src/Cuda/Miner.antt =====
-- miner-cuda/lib/miner.cu: the numbers that go to the device and back, and the memory that the miner
-- keeps between calls.
pub mod Limbs
pub mod Cache
pub mod Memory
pub mod Collect
pub mod Collected
pub mod Mined
pub mod Planets
pub mod Interleaved
pub mod Stale
