-- ===== src/Janitor.antt =====
-- internal/janitor: the periodic work of every broker process.
pub mod Schedule
pub mod Sweeps
pub mod Dead
pub mod Wills
pub mod Tick
pub mod Immortal
pub mod Consistent
pub mod Cleared
pub mod Kept
