-- ===== src/Cpu.antt =====
-- miner-cpu: the miner that computes with GMP on the threads of OpenMP.
pub mod Hash
pub mod Mine
