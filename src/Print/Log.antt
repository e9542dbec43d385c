-- ===== src/Print/Log.antt =====
-- kernel/lib/print.c, log.c and assert.c: the functions that print on the console.
-- `memory` and `real_of` are as in Print/Format; `buffer` is where the caller's `buf` stands. The
-- stores of `%n` are made in the memory that the monitor is a part of; the local buffers are on the
-- stack, which is not in it.
pub mod Stores
pub mod Shown
mod Tests
use gos_v.Common.{
  ℕ, ◌+◌, ◌-◌, ◌/◌, ◌^◌, ◌%◌, ◌&&◌, leb, ltb, List, [], ◌∷◌, ◌++◌, Outcome, ok, panic, hang, ◌>>=◌,
  ◌==◌, if◌then◌else◌,
}
use gos_v.Utils.{Bytes}
use gos_v.Console.{
  ConsoleColor, white, cyan, gray, green, yellow, red, light_red, Monitor, console_write_with_color,
  console_align_line,
}
use gos_v.Print.{chars, Value}
use gos_v.Print.Format.{vsprintf}

-- The four bytes that `%n` stores, and all stores of a text; the last one stands first.
unfoldable pub store_word : ℕ → ℕ → Bytes → Bytes
store_word p v memory a = if leb p a && ltb a (p + 4) then v / 256 ^ (a - p) % 256 else memory a

unfoldable pub stored : List (ℕ × ℕ) → Bytes → Bytes
stored [] memory = memory
stored ((p, v) ∷ stores) memory = store_word p v (stored stores memory)

abbrev pub with_stores : List (ℕ × ℕ) → Monitor → Monitor
with_stores stores m = record m { memory = stored stores m.memory }

-- What a call returns, the console, and the stores that were made.
pub record Printed : Type 0 where
  pub value : ℕ
  pub monitor : Monitor
  pub stores : List (ℕ × ℕ)

-- The calls that print, each with what it is given.
pub data Call : Type 0 where
  to_printf to_println : (ℕ → List ℕ) → List ℕ → (ℕ → ℕ) → Call
  to_print_with_color : (ℕ → List ℕ) → ConsoleColor → List ℕ → (ℕ → ℕ) → Call
  to_debug_handle to_trace_handle to_info_handle to_warn_handle to_error_handle :
      (ℕ → List ℕ) → ℕ → ℕ → ℕ → List ℕ → (ℕ → ℕ) → Call
  to_panic : (ℕ → List ℕ) → ℕ → List ℕ → (ℕ → ℕ) → Call
  to_assert_failed : (ℕ → List ℕ) → ℕ → ℕ → ℕ → Call

module _ (real_of : ℕ → ℕ → Value) where
  unfoldable pub print_with_color :
      (ℕ → List ℕ) → ConsoleColor → List ℕ → (ℕ → ℕ) → Monitor → Outcome Printed
  print_with_color memory color fmt args m = do
    (i, buf, stores) ← vsprintf memory real_of args fmt
    let (value, m') = console_write_with_color (with_stores stores m) buf i color in
        ok (record { value = value; monitor = m'; stores = stores })

  unfoldable pub printf : (ℕ → List ℕ) → List ℕ → (ℕ → ℕ) → Monitor → Outcome Printed
  printf memory fmt args m = do
    (i, buf, stores) ← vsprintf memory real_of args fmt
    let (value, m') = console_write_with_color (with_stores stores m) buf i white in
        ok (record { value = value; monitor = m'; stores = stores })

  unfoldable pub println : (ℕ → List ℕ) → List ℕ → (ℕ → ℕ) → Monitor → Outcome Printed
  println memory fmt args m = do
    (i, buf, stores) ← vsprintf memory real_of args fmt
    let m' = (console_write_with_color (with_stores stores m) buf i white).1 in
        ok (record {
          value = (i + 1) % 2 ^ 32;
          monitor = (console_write_with_color m' (b'\n' ∷ []) 1 white).1;
          stores = stores;
        })

  -- The memory once the text is in the caller's buffer.
  abbrev pub with_buffer : (ℕ → List ℕ) → ℕ → List ℕ → ℕ → List ℕ
  with_buffer memory buffer text p = if p == buffer then text else memory p

  abbrev pub three : ℕ → ℕ → ℕ → ℕ → ℕ
  three a b c i = if i == 0 then a else (if i == 1 then b else c)

  unfoldable pub log_handle :
      ConsoleColor
      → List ℕ
      → (ℕ → List ℕ)
      → ℕ
      → ℕ
      → ℕ
      → List ℕ
      → (ℕ → ℕ)
      → Monitor
      → Outcome Printed
  log_handle color prefix memory buffer file line fmt args m = do
    (i, buf, stores) ← vsprintf memory real_of args fmt
    p ←
        print_with_color (with_buffer memory buffer buf) color prefix (three file line buffer)
          (console_align_line (with_stores stores m))
    ok (record p { stores = p.stores ++ stores })

  unfoldable pub debug_handle :
      (ℕ → List ℕ) → ℕ → ℕ → ℕ → List ℕ → (ℕ → ℕ) → Monitor → Outcome Printed
  debug_handle = log_handle cyan (chars "[DEBUG] %s:%d %s\n")

  unfoldable pub trace_handle :
      (ℕ → List ℕ) → ℕ → ℕ → ℕ → List ℕ → (ℕ → ℕ) → Monitor → Outcome Printed
  trace_handle = log_handle gray (chars "[TRACE] %s:%d %s\n")

  unfoldable pub info_handle :
      (ℕ → List ℕ) → ℕ → ℕ → ℕ → List ℕ → (ℕ → ℕ) → Monitor → Outcome Printed
  info_handle = log_handle green (chars "[INFO] %s:%d %s\n")

  unfoldable pub warn_handle :
      (ℕ → List ℕ) → ℕ → ℕ → ℕ → List ℕ → (ℕ → ℕ) → Monitor → Outcome Printed
  warn_handle = log_handle yellow (chars "[WARN] %s:%d %s\n")

  unfoldable pub error_handle :
      (ℕ → List ℕ) → ℕ → ℕ → ℕ → List ℕ → (ℕ → ℕ) → Monitor → Outcome Printed
  error_handle = log_handle red (chars "[ERROR] %s:%d %s\n")

  -- What `Panic` leaves on the console when it suspends the machine.
  unfoldable pub panic_screen : (ℕ → List ℕ) → ℕ → List ℕ → (ℕ → ℕ) → Monitor → Outcome Printed
  panic_screen memory buffer fmt args m = do
    (i, buf, stores) ← vsprintf memory real_of args fmt
    p ←
        print_with_color (with_buffer memory buffer buf) light_red (chars "[PANIC] %s\n")
          (λ i. buffer) (with_stores stores m)
    ok (record p { stores = p.stores ++ stores })

  -- What `AssertFailed` leaves on the console when it suspends the machine.
  unfoldable pub assert_failed_screen : (ℕ → List ℕ) → ℕ → ℕ → ℕ → Monitor → Outcome Printed
  assert_failed_screen memory expression file line m =
      print_with_color memory light_red (chars "[Assertion] %s failed!, %s:%d\n")
        (three expression file line) m

  unfoldable pub call : Call → Monitor → Outcome Printed
  call (to_printf memory fmt args) = printf memory fmt args
  call (to_println memory fmt args) = println memory fmt args
  call (to_print_with_color memory color fmt args) = print_with_color memory color fmt args
  call (to_debug_handle memory buffer file line fmt args) =
      debug_handle memory buffer file line fmt args
  call (to_trace_handle memory buffer file line fmt args) =
      trace_handle memory buffer file line fmt args
  call (to_info_handle memory buffer file line fmt args) =
      info_handle memory buffer file line fmt args
  call (to_warn_handle memory buffer file line fmt args) =
      warn_handle memory buffer file line fmt args
  call (to_error_handle memory buffer file line fmt args) =
      error_handle memory buffer file line fmt args
  call (to_panic memory buffer fmt args) = panic_screen memory buffer fmt args
  call (to_assert_failed memory expression file line) =
      assert_failed_screen memory expression file line

  -- Calls one after the other, with the stores of all of them.
  unfoldable pub calls : List Call → Printed → Outcome Printed
  calls [] p = ok p
  calls (c ∷ cs) p =
      call c p.monitor >>= (λ q. calls cs (record q { stores = q.stores ++ p.stores }))
