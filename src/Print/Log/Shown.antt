-- ===== src/Print/Log/Shown.antt =====
-- What the functions that print leave on the console.
use gos_v.Common.{
  ℕ, refl, subst, sym, List, [], ◌∷◌, Outcome, ok, panic, hang, ◌>>=◌, Bool, true, false, length,
  ◌++◌, if◌then◌else◌, ltb,
}
use gos_v.Console.{
  white, light_red, initialize_console, ConsoleColor, Monitor, console_write_with_color,
}
use gos_v.Console.Screen.{initialize-IsShown, IsShown, console_write-IsShown, align-IsShown}
use gos_v.Console.Untouched.{Untouched-trans, same}
use gos_v.Print.{Value}
use gos_v.Print.Format.{vsprintf}
use gos_v.Print.Format.Ends.{vsprintf-ends}
use gos_v.Print.Log.{
  Call, to_printf, to_println, to_print_with_color, to_debug_handle, to_trace_handle,
  to_info_handle, to_warn_handle, to_error_handle, to_panic, to_assert_failed, call, calls, Printed,
  with_stores, print_with_color, printf, println, log_handle, debug_handle, trace_handle,
  info_handle, warn_handle, error_handle, panic_screen, assert_failed_screen,
}
use gos_v.Print.Log.Stores.{Kept, Kept-append, with_stores-IsShown, with_stores-Kept}

-- A call returns or panics, and if it returns the cursor is on the screen, the screen is at a line of
-- the memory, and the rest of the memory is kept but for the stores.
unfoldable pub Shows : Monitor → Outcome Printed → Type 0
Shows m (ok p) = IsShown p.monitor × Kept p.stores m p.monitor
Shows m panic = Unit {0}
Shows m hang = ⊥

-- A result that is not a loop for ever.
Returns : {A : Type 0} → Outcome A → Type 0
Returns (ok x) = Unit {0}
Returns panic = Unit {0}
Returns hang = ⊥

bind-Shows :
    {A : Type 0} (m : Monitor) (r : Outcome A) (k : A → Outcome Printed)
    → Returns r
    → ((x : A) → Shows m (k x))
    → Shows m (r >>= k)
unfolding Shows Returns
bind-Shows m (ok x) k h g = g x
bind-Shows m panic k h g = tt
bind-Shows m hang k h g = h

-- What is printed behind stores.
then-Shows :
    (m n : Monitor) (r : Outcome Printed) (stores : List (ℕ × ℕ))
    → Kept stores m n
    → Shows n r
    → Shows m (r >>= (λ p. ok (record p { stores = p.stores ++ stores })))
unfolding Shows
then-Shows m n (ok p) stores u (s, v) = (s, Kept-append p.stores stores m n p.monitor u v)
then-Shows m n panic stores u h = tt
then-Shows m n hang stores u h = h

onward :
    (m n : Monitor) (r : Outcome Printed) (stores : List (ℕ × ℕ)) (k : Printed → Outcome Printed)
    → Kept stores m n
    → Shows n r
    → ((q : Printed) → IsShown q.monitor → Kept q.stores m q.monitor → Shows m (k q))
    → Shows m (r >>= (λ q. k (record q { stores = q.stores ++ stores })))
unfolding Shows
onward m n (ok q) stores k u (t, v) g = g _ t (Kept-append q.stores stores m n q.monitor u v)
onward m n panic stores k u h g = tt
onward m n hang stores k u h g = h

answers : {A : Type 0} (b : Bool) (x : A) → Returns (if b then ok x else panic)
unfolding Returns
answers true x = tt
answers false x = tt

module _ (real_of : ℕ → ℕ → Value) where
  vsprintf-Returns :
      (memory : ℕ → List ℕ) (args : ℕ → ℕ) (fmt : List ℕ)
      → Returns (vsprintf memory real_of args fmt)
  vsprintf-Returns memory args fmt =
      let (s, e, f) = vsprintf-ends memory real_of args fmt in
      subst Returns (sym f) (answers (ltb (length s.out) 1024) _)

  print_with_color-Shows :
      (memory : ℕ → List ℕ) (color : ConsoleColor) (fmt : List ℕ) (args : ℕ → ℕ) (m : Monitor)
      → IsShown m
      → Shows m (print_with_color real_of memory color fmt args m)
  unfolding print_with_color Shows
  print_with_color-Shows memory color fmt args m s =
      bind-Shows m (vsprintf memory real_of args fmt) _ (vsprintf-Returns memory args fmt)
        (λ (i, buf, stores).
          let (t, u) =
            console_write-IsShown (with_stores stores m) buf i color
              (with_stores-IsShown stores m s) in
          (t, with_stores-Kept stores m _ u))

  line-Shows :
      (memory : ℕ → List ℕ) (color : ConsoleColor) (prefix : List ℕ) (args : ℕ → ℕ)
      (stores : List (ℕ × ℕ)) (m n : Monitor)
      → IsShown n
      → Kept stores m n
      → Shows m (
          print_with_color real_of memory color prefix args n
          >>= (λ p. ok (record p { stores = p.stores ++ stores })))
  line-Shows memory color prefix args stores m n s u =
      then-Shows m n _ stores u (print_with_color-Shows memory color prefix args n s)

  log_handle-Shows :
      (color : ConsoleColor) (prefix : List ℕ) (memory : ℕ → List ℕ) (buffer file line : ℕ)
      (fmt : List ℕ) (args : ℕ → ℕ) (m : Monitor)
      → IsShown m
      → Shows m (log_handle real_of color prefix memory buffer file line fmt args m)
  unfolding log_handle
  log_handle-Shows color prefix memory buffer file line fmt args m s =
      bind-Shows m (vsprintf memory real_of args fmt) _ (vsprintf-Returns memory args fmt)
        (λ (i, buf, stores).
          let (t, u) = align-IsShown (with_stores stores m) (with_stores-IsShown stores m s) in
          line-Shows _ color prefix _ stores m _ t (with_stores-Kept stores m _ u))

  panic_screen-Shows :
      (memory : ℕ → List ℕ) (buffer : ℕ) (fmt : List ℕ) (args : ℕ → ℕ) (m : Monitor)
      → IsShown m
      → Shows m (panic_screen real_of memory buffer fmt args m)
  unfolding panic_screen
  panic_screen-Shows memory buffer fmt args m s =
      bind-Shows m (vsprintf memory real_of args fmt) _ (vsprintf-Returns memory args fmt)
        (λ (i, buf, stores).
          line-Shows _ light_red _ _ stores m (with_stores stores m)
            (with_stores-IsShown stores m s) (with_stores-Kept stores m _ (same _)))

  printf-Shows :
      (memory : ℕ → List ℕ) (fmt : List ℕ) (args : ℕ → ℕ) (m : Monitor)
      → IsShown m
      → Shows m (printf real_of memory fmt args m)
  unfolding printf Shows
  printf-Shows memory fmt args m s =
      bind-Shows m (vsprintf memory real_of args fmt) _ (vsprintf-Returns memory args fmt)
        (λ (i, buf, stores).
          let (t, u) =
            console_write-IsShown (with_stores stores m) buf i white
              (with_stores-IsShown stores m s) in
          (t, with_stores-Kept stores m _ u))

  println-Shows :
      (memory : ℕ → List ℕ) (fmt : List ℕ) (args : ℕ → ℕ) (m : Monitor)
      → IsShown m
      → Shows m (println real_of memory fmt args m)
  unfolding println Shows
  println-Shows memory fmt args m s =
      bind-Shows m (vsprintf memory real_of args fmt) _ (vsprintf-Returns memory args fmt)
        (λ (i, buf, stores).
          let n = with_stores stores m in
          let (t, u) = console_write-IsShown n buf i white (with_stores-IsShown stores m s) in
          let (v, w) =
            console_write-IsShown (console_write_with_color n buf i white).1 (b'\n' ∷ []) 1 white
              t in
          (v, with_stores-Kept stores m _ (Untouched-trans n _ _ u w)))

  call-Shows : (c : Call) (m : Monitor) → IsShown m → Shows m (call real_of c m)
  unfolding call debug_handle trace_handle info_handle warn_handle error_handle assert_failed_screen
  call-Shows (to_printf memory fmt args) m s = printf-Shows memory fmt args m s
  call-Shows (to_println memory fmt args) m s = println-Shows memory fmt args m s
  call-Shows (to_print_with_color memory color fmt args) m s =
      print_with_color-Shows memory color fmt args m s
  call-Shows (to_debug_handle memory buffer file line fmt args) m s =
      log_handle-Shows _ _ memory buffer file line fmt args m s
  call-Shows (to_trace_handle memory buffer file line fmt args) m s =
      log_handle-Shows _ _ memory buffer file line fmt args m s
  call-Shows (to_info_handle memory buffer file line fmt args) m s =
      log_handle-Shows _ _ memory buffer file line fmt args m s
  call-Shows (to_warn_handle memory buffer file line fmt args) m s =
      log_handle-Shows _ _ memory buffer file line fmt args m s
  call-Shows (to_error_handle memory buffer file line fmt args) m s =
      log_handle-Shows _ _ memory buffer file line fmt args m s
  call-Shows (to_panic memory buffer fmt args) m s = panic_screen-Shows memory buffer fmt args m s
  call-Shows (to_assert_failed memory expression file line) m s =
      print_with_color-Shows memory light_red _ _ m s

  calls-Shows :
      (cs : List Call) (m : Monitor) (p : Printed)
      → IsShown p.monitor
      → Kept p.stores m p.monitor
      → Shows m (calls real_of cs p)
  unfolding calls Shows
  calls-Shows [] m p s u = (s, u)
  calls-Shows (c ∷ cs) m p s u =
      onward m p.monitor (call real_of c p.monitor) p.stores (calls real_of cs) u
        (call-Shows c p.monitor s) (λ q t v. calls-Shows cs m q t v)

  -- From `InitializeConsole` on any calls of the functions that print, `Panic` and a failed
  -- assertion included, return or panic; when they return the cursor is on the screen, the screen
  -- at a line of the monitor's memory, and the memory is the one after `InitializeConsole` outside
  -- the 103 lines and where no `%n` of these calls has stored.
  pub calls_after_initialize :
      (m : Monitor) (cs : List Call)
      → Shows
          (initialize_console m)
          (calls real_of cs (record { value = 0; monitor = initialize_console m; stores = [] }))
  unfolding Kept
  calls_after_initialize m cs =
      calls-Shows cs (initialize_console m) _ (initialize-IsShown m) (λ a o s. refl)
