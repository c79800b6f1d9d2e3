-- ===== src/Ml.antt =====
-- src/ml and include/ml.
pub mod Dataset
