-- ===== src/Hpc.antt =====
-- src/hpc and include/hpc.
pub mod Parallel
pub mod Spsc
pub mod BlockingQueue
pub mod ThreadPool
