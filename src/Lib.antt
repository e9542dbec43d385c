-- ===== src/Lib.antt =====
-- A model of the GOS kernel (C, 32-bit x86) and the theorems that make its parts correct.
--
-- The parts, from the bottom up. Paths are from the repository's root.
--
-- - Common: shared names, C arrays as lists, words as bits, bitmaps as lists of flags
--   (Common/Bitmap), and how a kernel function ends: `ok`, `panic` (a call of `Panic`, which
--   suspends the machine) or `hang` (a loop that is still running when its fuel is used up).
-- - Utils: src/kernel/common/utils.c. Functions keep their names in snake_case.
-- - Ds: src/kernel/ds. Ds/Queue is queue.c, with Ds/Fifo for what it promises; Ds/Hash is hash.c;
--   Ds/Lock is lock.c, with Ds/Lock/Steps for the processes that call it.
-- - Memory: src/kernel/memory. Memory/Address has the conversions of frame.c, Memory/Frame its
--   allocation and release of pages, on the physical memory and the array of page states. What lies
--   behind that array is kept apart from the two counts that memory has there, so that the model is
--   that of the runs that stay inside the array.
--   Memory/Buddy is the heap of buddy.c, with Memory/Buddy/Orders and Memory/Buddy/Joins for what it
--   promises of `Malloc` and `Free` on the blocks in the order of their addresses, and
--   Memory/Buddy/Reachable for the heap from its start on.
-- - Process: src/kernel/process. Process/Pid has the identifiers, Process/Scheduler the ready queue
--   and `Schedule`, Process/Children the searches for children and `WaitProcess`.
-- - Int: src/kernel/int. Int/Idt is idt.c; Int/Controller is the interrupt controller and the table of
--   handlers of interrupt_entry.c; Int/KeyMap is the table of key_board.c, Int/KeyBoard its
--   handler and its two ways to read. The handler is a function of the state and the scan code.
--   Int/Syscall is the handler of the system calls of syscall.c with the functions of
--   src/kernel/lib/syscall.c that call it; what the handler calls is recorded.
-- - Gdt: src/kernel/gdt. Gdt/Layout reads the descriptors as the processor does.
-- - Fs: src/kernel/fs. Fs/BitMap is the allocation of inodes and data blocks of fs.c, on the blocks
--   that the disk cache reads and writes (its cache is switched off in the source). Fs/Inode has the
--   inodes, Fs/Directory the entries of directories: search, creation and removal, Fs/Content the
--   writing and printing of files, and Fs/Path the search of paths.
-- - Device: src/kernel/device. Device/Install is what an installed device does; the drivers are
--   functions on a world that is a parameter.
-- - Console: src/kernel/console. The registers of the monitor are four bytes; Console/Place and
--   Console/Untouched follow one character, Console/Screen and Console/Line whole texts.
-- - Print: src/kernel/lib. Print is `Number` of print.c, Print/Format its `Vsprintf`, Print/Log what
--   print.c, log.c and assert.c write on the console, with Print/Log/Stores for what `%n` stores in its
--   memory.
-- - User: src/user. User/Stdlib has the functions of stdlib.c that the shell calls, User/Shell the
--   reading of a line by gshell.c and the choice of the command, with User/Shell/Meaning for what the
--   words of a line mean. An access behind `argv` or `temp` is an outcome of its own.
--
-- The ready queue is read through the circular queue of Ds/Queue, whose shape it has; bitmaps of
-- identifiers are read through Common/Bitmap.
--
-- Numbers are native naturals. A `u32` result that can wrap is taken modulo 2 ^ 32; subtraction is
-- written with the modulus added first. A pointer is a number and null is 0; what pointers lead to
-- is part of a state or a parameter. Code in assembly is recorded or a parameter.
--
-- Fuel. The probing loop of the hash map is given HASH_TABLE_SIZE rounds: after these it is back
-- where it began, with the same table, so that it never ends. The walks of the heap are given more rounds
-- than there are blocks, and the merging as many for each merge. The search of the ready queue is given
-- MAX_PROCESS_COUNT + 1 rounds, more than there are slots. `Vsprintf` is given one more round than its
-- format has characters, and the loops on digits 32 rounds, as a `u32` has no more digits. `WaitPid` is given as
-- many rounds as it is asked for. All other loops are structural.
--
-- Not modelled: the assembly files and the bootloader, port input and output, the start of the
-- kernel and the user programs other than the shell; the page tables of src/kernel/memory; the
-- creation and end of processes; the lines, the listing, the change of directories and the
-- start of fs.c; the messages of the exceptions and the clock. Floating point is a parameter of
-- Print/Format.
pub mod Common
pub mod Utils
pub mod Ds
pub mod Memory
pub mod Process
pub mod Int
pub mod Gdt
pub mod Fs
pub mod Device
pub mod Console
pub mod Print
pub mod User
