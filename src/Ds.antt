-- ===== src/Ds.antt =====
-- kernel/ds: the generic data structures of the kernel.
pub mod Fifo
pub mod Queue
pub mod Hash
pub mod Lock
