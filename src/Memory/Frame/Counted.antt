-- ===== src/Memory/Frame/Counted.antt =====
-- Right counts of free pages, and what taking and giving back one page does to the counts and the page
-- of kernel/memory/frame.c.
use gos_v.Common.{
  ℕ, suc, ◌≤◌, ◌<◌, ◌≡◌, refl, sym, ◌∙◌, ap, arith, true, false, ◌&&◌, ◌==◌, ==→eq, inl, inr,
  if◌then◌else◌, Bool-cases,
}
use gos_v.Common.Bits.{has_bit, has_bit-clear_bit}
use gos_v.Common.Count.{count, count-le, count-ext, count-drop, count-add, count-none}
use gos_v.Memory.Frame.{
  FrameAllocator, MachineMode, kernel_mode, user_mode, max_page_count, suits, is_free,
  is_specified_mode, take_page, clear_pages, set_used, set_free, give_back, decrement, increment,
  is_kernel_mode, global_frame_allocator_init,
}
use gos_v.Memory.Frame.Runs.{take_page-free, take_page-mode}

-- The counts are those of the free pages and of the free pages of the kernel.
pub record Counted (a : FrameAllocator) : Type 0 where
  pub total : a.total_free_page_count ≡ count (is_free a) max_page_count
  pub kernel : a.kernel_free_page_count ≡ count (suits a kernel_mode) max_page_count

take_total :
    (a : FrameAllocator) (mode : MachineMode) (i : ℕ)
    → (take_page a mode i).total_free_page_count ≡ decrement a.total_free_page_count
unfolding take_page set_used
take_total a kernel_mode i = refl
take_total a user_mode i = refl

take_kernel :
    (a : FrameAllocator) (mode : MachineMode) (i : ℕ)
    → (take_page a mode i).kernel_free_page_count ≡ (
        if is_kernel_mode mode
        then decrement a.kernel_free_page_count
        else a.kernel_free_page_count)
unfolding take_page set_used
take_kernel a kernel_mode i = refl
take_kernel a user_mode i = refl

take_suits :
    (a : FrameAllocator) (mode : MachineMode) (i k : ℕ)
    → suits (take_page a mode i) kernel_mode k ≡ (if k == i then false else suits a kernel_mode k)
take_suits a mode i k =
    rw (take_page-free a mode i k, take_page-mode a mode i k kernel_mode) (ground arith)

not_kernel :
    (a : FrameAllocator) (i : ℕ) → suits a user_mode i ≡ true → suits a kernel_mode i ≡ false
unfolding is_specified_mode
not_kernel a i h = ground arith

same_count :
    (a : FrameAllocator) (i k : ℕ)
    → suits a user_mode i ≡ true
    → (if k == i then false else suits a kernel_mode k) ≡ suits a kernel_mode k
same_count a i k e = elim (Bool-cases (k == i)) [
  | inl q ↦ rw q (sym (ap (suits a kernel_mode) (==→eq k i q) ∙ not_kernel a i e))
  | inr q ↦ rw q refl
]

decrement_lem : (x n : ℕ) → x ≡ suc n → n ≤ 8192 → decrement x ≡ n
decrement_lem x n h l = omega arith

-- Taking a free page of the mode keeps the counts right.
pub take_page-Counted :
    (a : FrameAllocator) (mode : MachineMode) (i : ℕ)
    → i < max_page_count
    → suits a mode i ≡ true
    → Counted a
    → Counted (take_page a mode i)
take_page-Counted a kernel_mode i l e c = record {
  total =
      take_total a kernel_mode i
      ∙ decrement_lem _ _
          (c.total
            ∙ count-drop (is_free a) (is_free (take_page a kernel_mode i)) 8192 i l (ground arith)
                (take_page-free a kernel_mode i))
          (count-le _ 8192);
  kernel =
      take_kernel a kernel_mode i
      ∙ decrement_lem _ _
          (c.kernel
            ∙ count-drop (suits a kernel_mode) (suits (take_page a kernel_mode i) kernel_mode) 8192
                i l e (take_suits a kernel_mode i))
          (count-le _ 8192);
}
take_page-Counted a user_mode i l e c = record {
  total =
      take_total a user_mode i
      ∙ decrement_lem _ _
          (c.total
            ∙ count-drop (is_free a) (is_free (take_page a user_mode i)) 8192 i l (ground arith)
                (take_page-free a user_mode i))
          (count-le _ 8192);
  kernel =
      take_kernel a user_mode i
      ∙ c.kernel
      ∙ count-ext _ _ 8192 (λ k m. sym (take_suits a user_mode i k ∙ same_count a i k e));
}

pub give_back-free :
    (a : FrameAllocator) (i k : ℕ)
    → is_free (give_back a i) k ≡ (if k == i then true else is_free a k)
unfolding give_back set_free is_specified_mode is_free
give_back-free a i k = ground (arith, has_bit-clear_bit (a.pages i) 0 0)

pub give_back-mode :
    (a : FrameAllocator) (i k : ℕ) (m : MachineMode)
    → is_specified_mode (give_back a i) k m ≡ is_specified_mode a k m
unfolding give_back set_free is_specified_mode
give_back-mode a i k kernel_mode = ground (arith, has_bit-clear_bit (a.pages i) 0 1)
give_back-mode a i k user_mode = ground (arith, has_bit-clear_bit (a.pages i) 0 1)

give_total :
    (a : FrameAllocator) (i : ℕ)
    → (give_back a i).total_free_page_count ≡ increment a.total_free_page_count
unfolding give_back set_free is_specified_mode
give_total a i = ground (arith, has_bit-clear_bit (a.pages i) 0 1)

give_kernel :
    (a : FrameAllocator) (i : ℕ)
    → (give_back a i).kernel_free_page_count ≡ (
        if is_specified_mode a i kernel_mode
        then increment a.kernel_free_page_count
        else a.kernel_free_page_count)
unfolding give_back set_free is_specified_mode
give_kernel a i = ground (arith, has_bit-clear_bit (a.pages i) 0 1)

increment_lem : (x n m : ℕ) → x ≡ n → m ≡ suc n → m ≤ 8192 → increment x ≡ m
increment_lem x n m h k l = omega arith

give_suits :
    (a : FrameAllocator) (i : ℕ)
    → is_specified_mode a i kernel_mode ≡ true
    → (k : ℕ)
    → suits (give_back a i) kernel_mode k ≡ (if k == i then true else suits a kernel_mode k)
give_suits a i q k =
    rw (give_back-free a i k, give_back-mode a i k kernel_mode)
      (elim (Bool-cases (k == i)) [
        | inl s ↦ rw s (ap (λ x. is_specified_mode a x kernel_mode) (==→eq k i s) ∙ q)
        | inr s ↦ rw s refl
      ])

give_others :
    (a : FrameAllocator) (i k : ℕ)
    → is_specified_mode a i kernel_mode ≡ false
    → suits (give_back a i) kernel_mode k ≡ suits a kernel_mode k
give_others a i k q =
    rw (give_back-free a i k, give_back-mode a i k kernel_mode)
      (elim (Bool-cases (k == i)) [
        | inl s ↦
            let t = ap (λ x. is_specified_mode a x kernel_mode) (==→eq k i s) ∙ q in
            rw (s, t) (ground arith)
        | inr s ↦ rw s refl
      ])

-- Giving back a page that is in use keeps the counts right.
pub give_back-Counted :
    (a : FrameAllocator) (i : ℕ)
    → i < max_page_count
    → is_free a i ≡ false
    → Counted a
    → Counted (give_back a i)
give_back-Counted a i l e c = record {
  total =
      give_total a i
      ∙ increment_lem _ _ _ c.total
          (count-add (is_free a) (is_free (give_back a i)) 8192 i l e (give_back-free a i))
          (count-le _ 8192);
  kernel = give_kernel a i ∙ elim (Bool-cases (is_specified_mode a i kernel_mode)) [
    | inl q ↦ rw q (
        increment_lem _ _ _ c.kernel
          (count-add (suits a kernel_mode) (suits (give_back a i) kernel_mode) 8192 i l
            (ap (λ b. b && is_specified_mode a i kernel_mode) e) (give_suits a i q))
          (count-le _ 8192))
    | inr q ↦ rw q (c.kernel ∙ count-ext _ _ 8192 (λ k m. sym (give_others a i k q)))
  ];
}

pub clear_pages-Counted :
    (a : FrameAllocator) (i size : ℕ) → Counted a → Counted (clear_pages a i size)
unfolding clear_pages is_free is_specified_mode
clear_pages-Counted a i size c = record { total = c.total; kernel = c.kernel }

init_used :
    (a : FrameAllocator) (k : ℕ)
    → k < max_page_count
    → is_free (global_frame_allocator_init a) k ≡ false
unfolding is_free global_frame_allocator_init has_bit
init_used a k l = ground arith

-- At the start no page is free and both counts are zero.
pub init-Counted : (a : FrameAllocator) → Counted (global_frame_allocator_init a)
unfolding global_frame_allocator_init
init-Counted a = record {
  total = sym (count-none _ 8192 (λ k l. init_used a k l));
  kernel = sym (
      count-none _ 8192 (λ k l.
        ap (λ b. b && is_specified_mode (global_frame_allocator_init a) k kernel_mode)
          (init_used a k l)));
}
