-- ===== src/Networking.antt =====
-- src/networking: the event loop.
pub mod EventLoop
