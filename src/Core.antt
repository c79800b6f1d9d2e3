-- ===== src/Core.antt =====
-- The core module: src/core and include/core.
pub mod Error
