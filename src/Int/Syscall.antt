-- ===== src/Int/Syscall.antt =====
-- kernel/int/syscall.c and kernel/lib/syscall.c: the handler of the system calls, and the functions of
-- the user programs that call it.
-- What the handler calls stands in other files, so that it is recorded as a call, which works on a
-- world that is a parameter. The interrupt leads to the handler with the four numbers that a
-- function puts into registers, and gives back its result; that part is in assembly.
pub mod Waiting
mod Tests
use gos_v.Common.{
  ℕ, zero, suc, ◌+◌, ◌-◌, ◌%◌, ◌^◌, Bool, true, false, List, [], ◌∷◌, Outcome, ok, panic, hang,
  ◌>>=◌, ◌==◌, if◌then◌else◌,
}
use gos_v.Utils.{widen}

-- The numbers of the system calls.
abbrev pub syscall_test : ℕ
syscall_test = 0

abbrev pub syscall_write : ℕ
syscall_write = 1

abbrev pub syscall_pwd : ℕ
syscall_pwd = 10

abbrev pub syscall_ls : ℕ
syscall_ls = 11

abbrev pub syscall_create_file : ℕ
syscall_create_file = 12

abbrev pub syscall_read_char : ℕ
syscall_read_char = 13

abbrev pub syscall_write_file : ℕ
syscall_write_file = 14

abbrev pub syscall_cat_file : ℕ
syscall_cat_file = 15

abbrev pub syscall_fork : ℕ
syscall_fork = 88

abbrev pub syscall_yield : ℕ
syscall_yield = 99

abbrev pub syscall_get_pid : ℕ
syscall_get_pid = 111

abbrev pub syscall_exit : ℕ
syscall_exit = 444

abbrev pub syscall_wait_pid : ℕ
syscall_wait_pid = 555

abbrev pub syscall_get_time : ℕ
syscall_get_time = 888

abbrev pub syscall_read : ℕ
syscall_read = 999

-- The calls of the handler; addresses of strings are numbers. `console_write` is
-- `ConsoleWriteWithColor` in white, `create_file` that of a file in the current directory,
-- `write_file` is `WriteFileContent` of a file that is emptied, `print_file` is `PrintFileContent` of
-- one line, and `current_pid` reads the identifier of the current process.
pub data KernelCall : Type 0 where
  info : ℕ → ℕ → ℕ → KernelCall
  console_write read_line wait_process list_files write_file : ℕ → ℕ → KernelCall
  fork_process schedule read_char current_pid get_time_ms get_current_path : KernelCall
  exit_process create_file print_file : ℕ → KernelCall

module _ {World : Type 0} (perform : KernelCall → World → Outcome (ℕ × World)) where
  -- A function without a value: the handler returns 0.
  unfoldable pub no_value : KernelCall → World → Outcome (ℕ × World)
  no_value c w = do (r, w') ← perform c w; ok (0, w')

  -- A `char` that is returned as a `u32`.
  unfoldable pub char_value : KernelCall → World → Outcome (ℕ × World)
  char_value c w = do (r, w') ← perform c w; ok (widen r, w')

  unfoldable pub trap_handler : ℕ → ℕ → ℕ → ℕ → World → Outcome (ℕ × World)
  trap_handler num arg1 arg2 arg3 w =
      if num == syscall_test
      then no_value (info arg1 arg2 arg3) w
      else if num == syscall_write
      then no_value (console_write arg1 arg2) w
      else if num == syscall_fork
      then perform fork_process w
      else if num == syscall_yield
      then no_value schedule w
      else if num == syscall_read
      then perform (read_line arg1 arg2) w
      else if num == syscall_read_char
      then char_value read_char w
      else if num == syscall_get_pid
      then perform current_pid w
      else if num == syscall_get_time
      then perform get_time_ms w
      else if num == syscall_exit
      then no_value (exit_process arg1) w
      else if num == syscall_wait_pid
      then perform (wait_process arg1 arg2) w
      else if num == syscall_pwd
      then perform get_current_path w
      else if num == syscall_ls
      then no_value (list_files arg2 arg1) w
      else if num == syscall_create_file
      then no_value (create_file arg1) w
      else if num == syscall_write_file
      then no_value (write_file arg2 arg1) w
      else if num == syscall_cat_file
      then no_value (print_file arg1) w
      else panic

  -- A function of the library without a value.
  unfoldable pub without_value : Outcome (ℕ × World) → Outcome World
  without_value r = do (x, w') ← r; ok w'

  unfoldable pub run_syscall_test : World → Outcome World
  run_syscall_test w = without_value (trap_handler syscall_test 1 2 3 w)

  unfoldable pub syscall_print : ℕ → ℕ → World → Outcome World
  syscall_print message len w = without_value (trap_handler syscall_write message len 0 w)

  unfoldable pub fork : World → Outcome (ℕ × World)
  fork w = trap_handler syscall_fork 0 0 0 w

  unfoldable pub get_time : World → Outcome (ℕ × World)
  get_time w = trap_handler syscall_get_time 0 0 0 w

  unfoldable pub yield_processor : World → Outcome World
  yield_processor w = without_value (trap_handler syscall_yield 0 0 0 w)

  unfoldable pub read : ℕ → ℕ → World → Outcome (ℕ × World)
  read buf len w = trap_handler syscall_read buf len 0 w

  -- The result is a `char` again.
  unfoldable pub get_char : World → Outcome (ℕ × World)
  get_char w = do (r, w') ← trap_handler syscall_read_char 0 0 0 w; ok (r % 2 ^ 8, w')

  unfoldable pub get_pid : World → Outcome (ℕ × World)
  get_pid w = trap_handler syscall_get_pid 0 0 0 w

  unfoldable pub exit : ℕ → World → Outcome World
  exit exit_code w = without_value (trap_handler syscall_exit exit_code 0 0 w)

  -- `PWD` has no `return`: no value of it is defined, and none is modelled.
  unfoldable pub pwd : World → Outcome World
  pwd w = without_value (trap_handler syscall_pwd 0 0 0 w)

  unfoldable pub list_dir : ℕ → ℕ → World → Outcome World
  list_dir path option w = without_value (trap_handler syscall_ls path option 0 w)

  unfoldable pub touch_file : ℕ → World → Outcome World
  touch_file name w = without_value (trap_handler syscall_create_file name 0 0 w)

  unfoldable pub write_to_file : ℕ → ℕ → World → Outcome World
  write_to_file content filename w =
      without_value (trap_handler syscall_write_file content filename 0 w)

  unfoldable pub browser_file : ℕ → World → Outcome World
  browser_file filename w = without_value (trap_handler syscall_cat_file filename 0 0 w)

  -- `WaitPid`: as long as the result is -2 the process yields. It is given a number of rounds.
  unfoldable pub wait_pid : ℕ → ℕ → ℕ → World → Outcome (ℕ × World)
  wait_pid zero pid exit_code w = hang
  wait_pid (suc rounds) pid exit_code w = do
    (rid, w1) ← trap_handler syscall_wait_pid pid exit_code 0 w
    (if rid == 2 ^ 32 - 2
        then yield_processor w1 >>= (λ w2. wait_pid rounds pid exit_code w2)
        else ok (rid, w1))
