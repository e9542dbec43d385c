-- ===== src/Print/Log/Tests.antt =====
-- Checks of what is printed on the console.
use gos_v.Common.{false, ℕ, List, [], ◌∷◌}
use gos_v.Console.{Monitor, red, initialize_console}
use gos_v.Print.{chars, Value, real}
use gos_v.Print.Log.{Call, to_printf, to_info_handle, to_print_with_color, calls}
use gos_v.Print.Log.Shown.{Shows, calls_after_initialize}

abbrev monitor : Monitor
monitor = record {
  screen_address_high = 7;
  screen_address_low = 7;
  cursor_address_high = 7;
  cursor_address_low = 7;
  memory = λ a. 7;
}

abbrev reals : ℕ → ℕ → Value
reals low high = real false 0 0

abbrev words : ℕ → List ℕ
words p = chars "gos"

abbrev printing : List Call
printing =
    to_printf words (chars "%s\n") (λ i. 4096)
    ∷ to_info_handle words 8192 4096 12 (chars "%d pages") (λ i. 3)
    ∷ to_print_with_color words red (chars "%x\t%c") (λ i. 65)
    ∷ to_printf words (chars "%s%n") (λ i. 20480)
    ∷ []

calls_after_initialize_example :
    Shows (initialize_console monitor) (
      calls reals printing
        (record { value = 0; monitor = initialize_console monitor; stores = [] }))
calls_after_initialize_example = calls_after_initialize reals monitor printing
