-- ===== src/Gdt/Tests.antt =====
-- The table for a task state segment at 1 MB.
