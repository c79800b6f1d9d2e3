-- ===== src/Systems.antt =====
-- src/systems: paths.
pub mod Path
