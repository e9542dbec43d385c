-- ===== src/User.antt =====
-- src/user: the shell and the functions of stdlib.c that it calls.
pub mod Stdlib
pub mod Shell
