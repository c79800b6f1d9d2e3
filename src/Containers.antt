-- ===== src/Containers.antt =====
-- src/containers and include/containers.
pub mod Hash
pub mod HashMap
pub mod Queue
pub mod RingBuf
pub mod Vec
pub mod StrBuf
pub mod StrView
