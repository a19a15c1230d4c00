-- ===== src/Hyperspace.antt =====
-- src/cc/Hyperspace: the lock service.
pub mod Lock
pub mod Session
