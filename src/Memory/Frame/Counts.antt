-- ===== src/Memory/Frame/Counts.antt =====
-- The two counts of free pages that kernel/memory/frame.c keeps.
use gos_v.Common.{
  ℕ, ◌*◌, ◌/◌, ◌%◌, ◌^◌, ◌<◌, ◌≡◌, refl, sym, ◌∙◌, ap, arith, true, false, ok, ◌==◌, ==→eq, eq→==,
  inl, inr, if◌then◌else◌, Bool-cases,
}
use gos_v.Common.Count.{count-ext}
use gos_v.Memory.Address.{get_ppn_from_address_floor, page_size}
use gos_v.Memory.Frame.{
  FrameAllocator, MachineMode, kernel_mode, user_mode, max_page_count, suits, is_free,
  is_specified_mode, take_page, clear_pages, allocate_one_page, free_one_page, give_back,
}
use gos_v.Memory.Frame.Allocate.{allocate_one-ok}
use gos_v.Memory.Frame.Runs.{take_page-free, take_page-mode, clear_pages-free}
use gos_v.Memory.Frame.Counted.{
  Counted, take_page-Counted, give_back-Counted, give_back-free, give_back-mode,
  clear_pages-Counted,
}

free_at :
    (a : FrameAllocator) (i : ℕ)
    → i < max_page_count
    → free_one_page a (i * page_size) ≡ ok (give_back a i)
unfolding free_one_page get_ppn_from_address_floor
free_at a i l =
    let t : i * 4096 % 4096 ≡ 0 = omega arith in
    let u : i * 4096 / 2 ^ 12 ≡ i = omega arith in rw (t, u) refl

-- `a''` is `a` again, as far as free pages, their modes and the two counts go.
pub record Restored (a a'' : FrameAllocator) : Type 0 where
  pub counted : Counted a''
  pub free : (k : ℕ) → is_free a'' k ≡ is_free a k
  pub modes : (k : ℕ) (m : MachineMode) → is_specified_mode a'' k m ≡ is_specified_mode a k m
  pub total : a''.total_free_page_count ≡ a.total_free_page_count
  pub kernel : a''.kernel_free_page_count ≡ a.kernel_free_page_count

module _ (a : FrameAllocator) (mode : MachineMode) (i : ℕ) (l : i < max_page_count)
    (e : suits a mode i ≡ true) (c : Counted a) where
  given_out : FrameAllocator
  given_out = clear_pages (take_page a mode i) i page_size

  given_out-Counted : Counted given_out
  unfolding given_out
  given_out-Counted = clear_pages-Counted _ i page_size (take_page-Counted a mode i l e c)

  given_out-free : (k : ℕ) → is_free given_out k ≡ (if k == i then false else is_free a k)
  unfolding given_out
  given_out-free k = clear_pages-free (take_page a mode i) i page_size k ∙ take_page-free a mode i k

  given_back-free : (k : ℕ) → is_free (give_back given_out i) k ≡ is_free a k
  given_back-free k =
      let f : is_free a i ≡ true = ground arith in
      rw (give_back-free given_out i k, given_out-free k)
        (elim (Bool-cases (k == i)) [
          | inl s ↦ rw s (sym (ap (is_free a) (==→eq k i s) ∙ f))
          | inr s ↦ rw s refl
        ])

  given_out-mode :
      (k : ℕ) (m : MachineMode)
      → is_specified_mode given_out k m ≡ is_specified_mode (take_page a mode i) k m
  unfolding given_out clear_pages is_specified_mode
  given_out-mode k kernel_mode = refl
  given_out-mode k user_mode = refl

  given_back-mode :
      (k : ℕ) (m : MachineMode)
      → is_specified_mode (give_back given_out i) k m ≡ is_specified_mode a k m
  given_back-mode k m =
      give_back-mode given_out i k m ∙ given_out-mode k m ∙ take_page-mode a mode i k m

  given_back-suits : (k : ℕ) → suits (give_back given_out i) kernel_mode k ≡ suits a kernel_mode k
  given_back-suits k = rw (given_back-free k, given_back-mode k kernel_mode) refl

  given_back-Restored : Restored a (give_back given_out i)
  given_back-Restored =
      let d =
        give_back-Counted given_out i l
          (given_out-free i ∙ ap (λ b. if b then false else is_free a i) (eq→== i i refl))
          given_out-Counted in
      record {
        counted = d;
        free = given_back-free;
        modes = given_back-mode;
        total = d.total ∙ count-ext _ _ 8192 (λ k m. given_back-free k) ∙ sym c.total;
        kernel =
            d.kernel
            ∙ count-ext (suits (give_back given_out i) kernel_mode) (suits a kernel_mode) 8192
                (λ k m. given_back-suits k)
            ∙ sym c.kernel;
      }

-- A page that `AllocateOnePage` gives out from counts that are right leaves them right, and
-- `FreeOnePage` of its address then succeeds, and the two calls leave the same pages free, each
-- page with the mode that it had, and both counts right and as they were.
pub allocate_then_free_page :
    (a : FrameAllocator) (mode : MachineMode) {address : ℕ} {a' : FrameAllocator}
    → Counted a
    → allocate_one_page a mode ≡ ok (address, a')
    → Counted a' × ((a'' : FrameAllocator) × (free_one_page a' address ≡ ok a'') × Restored a a'')
unfolding given_out
allocate_then_free_page a mode {address} {a'} c h =
    let (i, l, e, p, q) = allocate_one-ok a mode h in
    let r = given_back-Restored a mode i l e c in
    rw (q, p) (given_out-Counted a mode i l e c, (_, free_at _ i l, r))
