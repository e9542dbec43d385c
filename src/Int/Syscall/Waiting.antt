-- ===== src/Int/Syscall/Waiting.antt =====
-- What the functions of kernel/lib/syscall.c make the kernel do.
use gos_v.Common.{
  ℕ, zero, suc, ◌%◌, ◌^◌, ◌-◌, ◌<◌, ◌≡◌, refl, ap, arith, ne→==, Outcome, ok, panic, hang, ◌>>=◌,
}
use gos_v.Utils.{widen}
use gos_v.Int.Syscall.{
  KernelCall, info, get_current_path, run_syscall_test, pwd, console_write, read_line, wait_process,
  list_files, write_file, fork_process, schedule, read_char, current_pid, get_time_ms, exit_process,
  create_file, print_file, no_value, char_value, trap_handler, without_value, syscall_print, fork,
  get_time, yield_processor, read, get_char, get_pid, exit, list_dir, touch_file, write_to_file,
  browser_file, wait_pid,
}

module _ {World : Type 0} (perform : KernelCall → World → Outcome (ℕ × World)) where
  no_value_lem :
      (x : Outcome (ℕ × World))
      → without_value perform (x >>= (λ (r, w). ok (0, w))) ≡ without_value perform x
  unfolding without_value
  no_value_lem (ok (r, w)) = refl
  no_value_lem panic = refl
  no_value_lem hang = refl

  -- The result as a `char`.
  abbrev pub as_char : Outcome (ℕ × World) → Outcome (ℕ × World)
  as_char (ok (r, w)) = ok (r % 2 ^ 8, w)
  as_char panic = panic
  as_char hang = hang

  char_value_lem :
      (x : Outcome (ℕ × World))
      → ((x >>= (λ (r, w). ok (widen r, w))) >>= (λ (r, w). ok (r % 2 ^ 8, w))) ≡ as_char x
  char_value_lem (ok (r, w)) =
      let z : widen r % 2 ^ 8 ≡ r % 2 ^ 8 = ground arith in ap (λ c. ok (c, w)) z
  char_value_lem panic = refl
  char_value_lem hang = refl

  -- Each function of the library but `WaitPid` calls the function of the kernel that it is meant for,
  -- with its arguments in the order of that function, and has its value, if it has one; a character is
  -- the lowest byte. `PWD`, which has no `return`, only makes the call for the path. Each panics or
  -- hangs just when that function does.
  pub library-calls :
      (a b : ℕ) (w : World)
      → (run_syscall_test perform w ≡ without_value perform (perform (info 1 2 3) w))
        × (syscall_print perform a b w ≡ without_value perform (perform (console_write a b) w))
        × (fork perform w ≡ perform fork_process w)
        × (get_time perform w ≡ perform get_time_ms w)
        × (yield_processor perform w ≡ without_value perform (perform schedule w))
        × (read perform a b w ≡ perform (read_line a b) w)
        × (get_char perform w ≡ as_char (perform read_char w))
        × (get_pid perform w ≡ perform current_pid w)
        × (exit perform a w ≡ without_value perform (perform (exit_process a) w))
        × (pwd perform w ≡ without_value perform (perform get_current_path w))
        × (list_dir perform a b w ≡ without_value perform (perform (list_files b a) w))
        × (touch_file perform a w ≡ without_value perform (perform (create_file a) w))
        × (write_to_file perform a b w ≡ without_value perform (perform (write_file b a) w))
        × (browser_file perform a w ≡ without_value perform (perform (print_file a) w))
  unfolding run_syscall_test pwd syscall_print fork get_time yield_processor read get_char get_pid
      exit list_dir touch_file write_to_file browser_file trap_handler no_value char_value
  library-calls a b w = (
    no_value_lem (perform (info 1 2 3) w),
    no_value_lem (perform (console_write a b) w),
    refl,
    refl,
    no_value_lem (perform schedule w),
    refl,
    char_value_lem (perform read_char w),
    refl,
    no_value_lem (perform (exit_process a) w),
    refl,
    no_value_lem (perform (list_files b a) w),
    no_value_lem (perform (create_file a) w),
    no_value_lem (perform (write_file b a) w),
    no_value_lem (perform (print_file a) w),
  )

  -- The child is alive for a number of rounds, in each of which the process yields; then
  -- `WaitProcess` gives something else than -2.
  pub data Ends (pid exit_code : ℕ) : ℕ → World → ℕ → World → Type 0 where
    ended :
        (w w' : World) (r : ℕ)
        → perform (wait_process pid exit_code) w ≡ ok (r, w')
        → ¬ (r ≡ 2 ^ 32 - 2)
        → Ends pid exit_code 0 w r w'
    alive :
        (w w1 w2 w' : World) (r x rounds : ℕ)
        → perform (wait_process pid exit_code) w ≡ ok (2 ^ 32 - 2, w1)
        → perform schedule w1 ≡ ok (x, w2)
        → Ends pid exit_code rounds w2 r w'
        → Ends pid exit_code (suc rounds) w r w'

  -- `WaitPid` of a child that ends after some rounds, fewer than the rounds that it is given, yields in
  -- each of them and returns what `WaitProcess` then gives.
  pub wait_pid-Ends :
      (pid exit_code fuel rounds : ℕ) (w : World) (r : ℕ) (w' : World)
      → rounds < fuel
      → Ends pid exit_code rounds w r w'
      → wait_pid perform fuel pid exit_code w ≡ ok (r, w')
  unfolding wait_pid trap_handler yield_processor no_value without_value
  wait_pid-Ends pid exit_code zero rounds w r w' l e = absurd (omega (arith, l))
  wait_pid-Ends pid exit_code (suc fuel) _ _ _ _ l (ended w w' r e n) =
      rw (e, ne→== r (2 ^ 32 - 2) n) refl
  wait_pid-Ends pid exit_code (suc fuel) _ _ _ _ l (alive w w1 w2 w' r x rounds e f s) =
      rw (e, f) (wait_pid-Ends pid exit_code fuel rounds w2 r w' (omega (arith, l)) s)
