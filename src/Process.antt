-- ===== src/Process.antt =====
-- kernel/process: process identifiers, the ready queue and the scheduler.
pub mod Pid
pub mod Scheduler
pub mod Children
