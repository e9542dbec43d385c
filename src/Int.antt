-- ===== src/Int.antt =====
-- kernel/int: interrupts and what they handle.
pub mod Idt
pub mod Syscall
pub mod Controller
pub mod KeyMap
pub mod KeyBoard
