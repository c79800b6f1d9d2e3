-- ===== src/Math.antt =====
-- src/math and include/math: matrices and random numbers.
pub mod MatX
pub mod Rng
