-- ===== src/Kernel.antt =====
-- The kernel: processes, their scheduler, the messages between them, and locks.
pub mod State
pub mod Process
pub mod Ipc
pub mod Sync
