-- ===== src/Rendering.antt =====
-- src/rendering: the software renderer.
pub mod Software
