-- ===== src/Memory.antt =====
-- kernel/memory: page frames, the heap and the page tables.
pub mod Address
pub mod Frame
pub mod Buddy
