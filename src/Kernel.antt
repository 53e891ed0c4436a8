-- ===== src/Kernel.antt =====
-- The processes of the kernel: kernel/src/process.rs, the calls between them in
-- kernel/src/syscall.rs, and the scheduler.
pub mod Process
pub mod Ipc
pub mod Schedule
pub mod Grants
pub mod Run
