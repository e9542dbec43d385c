-- ===== src/Int/Syscall/Tests.antt =====
-- A child that ends after some rounds.
use gos_v.Common.{ℕ, zero, suc, ◌-◌, ◌^◌, ◌≡◌, refl, arith, Outcome, ok}
use gos_v.Int.Syscall.{
  KernelCall, info, console_write, read_line, wait_process, list_files, write_file, fork_process,
  schedule, read_char, current_pid, get_time_ms, get_current_path, exit_process, create_file,
  print_file, syscall_print, fork, get_time, yield_processor, read, run_syscall_test, pwd, get_char,
  get_pid, exit, list_dir, touch_file, write_to_file, browser_file, wait_pid, without_value,
}
use gos_v.Int.Syscall.Waiting.{library-calls, ended, alive, wait_pid-Ends}

-- The world is the number of rounds that the child is still alive.
abbrev kernel : KernelCall → ℕ → Outcome (ℕ × ℕ)
kernel (wait_process pid exit_code) zero = ok (pid, 0)
kernel (wait_process pid exit_code) (suc n) = ok (2 ^ 32 - 2, suc n)
kernel schedule n = ok (0, n - 1)
kernel (info a b c) n = ok (0, n)
kernel (console_write a b) n = ok (0, n)
kernel (read_line a b) n = ok (b, n)
kernel (list_files a b) n = ok (0, n)
kernel (write_file a b) n = ok (1, n)
kernel (exit_process a) n = ok (0, n)
kernel (create_file a) n = ok (5, n)
kernel (print_file a) n = ok (1, n)
kernel fork_process n = ok (2, n)
kernel read_char n = ok (200, n)
kernel current_pid n = ok (1, n)
kernel get_time_ms n = ok (10, n)
kernel get_current_path n = ok (0, n)

wait_pid-Ends_example : wait_pid kernel 3 4 0 2 ≡ ok (4, 0)
wait_pid-Ends_example = wait_pid-Ends kernel 4 0 3 2 2 4 0 (omega arith) (
    alive 2 2 1 0 4 0 1 refl refl
      (alive 1 1 0 0 4 0 0 refl refl (ended 0 0 4 refl (λ e. omega (arith, e)))))

library-calls_example :
    (run_syscall_test kernel 7 ≡ ok 7)
    × (syscall_print kernel 1 2 7 ≡ ok 7)
    × (fork kernel 7 ≡ ok (2, 7))
    × (get_time kernel 7 ≡ ok (10, 7))
    × (yield_processor kernel 7 ≡ ok 6)
    × (read kernel 1 2 7 ≡ ok (2, 7))
    × (get_char kernel 7 ≡ ok (200, 7))
    × (get_pid kernel 7 ≡ ok (1, 7))
    × (exit kernel 1 7 ≡ ok 7)
    × (pwd kernel 7 ≡ ok 7)
    × (list_dir kernel 1 2 7 ≡ ok 7)
    × (touch_file kernel 1 7 ≡ ok 7)
    × (write_to_file kernel 1 2 7 ≡ ok 7)
    × (browser_file kernel 1 7 ≡ ok 7)
unfolding without_value
library-calls_example = library-calls kernel 1 2 7
