-- ===== src/Memory/Frame/Runs.antt =====
-- Runs of free pages and what taking them leaves, for kernel/memory/frame.c.
use gos_v.Common.{
  ℕ, zero, suc, ◌+◌, ◌*◌, ◌%◌, ◌^◌, ◌≤◌, ◌<◌, ◌≡◌, refl, subst, ◌∙◌, inl, inr, arith, true, false,
  ◌&&◌, ◌==◌, if◌then◌else◌, leb, ltb,
}
use gos_v.Common.Bits.{has_bit-set_bit}
use gos_v.Common.Search.{at_or_after}
use gos_v.Utils.Memory.{memory_free-memory_set, memory_set_lem}
use gos_v.Memory.Address.{get_address_from_ppn, page_size}
use gos_v.Memory.Frame.{
  FrameAllocator, MachineMode, kernel_mode, user_mode, max_page_count, suits, is_free,
  is_specified_mode, has_pages, take_page, take_run, clear_pages, set_used,
}

-- `n` pages from page `i` on are free and of the mode.
pub IsRun : FrameAllocator → MachineMode → ℕ → ℕ → Type 0
IsRun a mode n i = (k : ℕ) → i ≤ k → k < i + n → suits a mode k ≡ true

-- What is left of the pages after `n` of them from `i` on are given out.
pub record Taken (a : FrameAllocator) (n i : ℕ) (a' : FrameAllocator) : Type 0 where
  pub free : (k : ℕ) → is_free a' k ≡ (if leb i k && ltb k (i + n) then false else is_free a k)
  pub same_mode :
      (k : ℕ) (mode : MachineMode) → is_specified_mode a' k mode ≡ is_specified_mode a k mode

pub has_pages-IsRun :
    (a : FrameAllocator) (mode : MachineMode) (n i : ℕ)
    → has_pages a mode n i ≡ true
    → IsRun a mode n i
unfolding has_pages IsRun
has_pages-IsRun a mode zero i h = λ k l g. absurd (omega arith)
has_pages-IsRun a mode (suc n) i h = λ k l g.
    let e : suits a mode i ≡ true = ground arith in
    let f : has_pages a mode n (i + 1) ≡ true = ground arith in
    elim (at_or_after i k l) [
      | inl q ↦ subst (λ x. suits a mode x ≡ true) q e
      | inr q ↦ has_pages-IsRun a mode n (i + 1) f k q (omega arith)
    ]

pub IsRun-has_pages :
    (a : FrameAllocator) (mode : MachineMode) (n i : ℕ)
    → IsRun a mode n i
    → has_pages a mode n i ≡ true
unfolding has_pages IsRun
IsRun-has_pages a mode zero i h = refl
IsRun-has_pages a mode (suc n) i h =
    rw
      (
        h i (omega arith) (omega arith),
        IsRun-has_pages a mode n (i + 1) (λ k l g. h k (omega arith) (omega arith)),
      )
      refl

pub take_page-free :
    (a : FrameAllocator) (mode : MachineMode) (i k : ℕ)
    → is_free (take_page a mode i) k ≡ (if k == i then false else is_free a k)
unfolding is_free take_page set_used
take_page-free a kernel_mode i k = ground (arith, has_bit-set_bit (a.pages i) 0 0)
take_page-free a user_mode i k = ground (arith, has_bit-set_bit (a.pages i) 0 0)

pub take_page-mode :
    (a : FrameAllocator) (mode : MachineMode) (i k : ℕ) (m : MachineMode)
    → is_specified_mode (take_page a mode i) k m ≡ is_specified_mode a k m
unfolding is_specified_mode take_page set_used
take_page-mode a kernel_mode i k kernel_mode = ground (arith, has_bit-set_bit (a.pages i) 0 1)
take_page-mode a user_mode i k kernel_mode = ground (arith, has_bit-set_bit (a.pages i) 0 1)
take_page-mode a kernel_mode i k user_mode = ground (arith, has_bit-set_bit (a.pages i) 0 1)
take_page-mode a user_mode i k user_mode = ground (arith, has_bit-set_bit (a.pages i) 0 1)

pub take_run-free :
    (a : FrameAllocator) (mode : MachineMode) (n i k : ℕ)
    → is_free (take_run a mode n i) k ≡ (if leb i k && ltb k (i + n) then false else is_free a k)
unfolding take_run
take_run-free a mode zero i k = ground arith
take_run-free a mode (suc n) i k =
    take_run-free (take_page a mode i) mode n (i + 1) k
    ∙ rw (take_page-free a mode i k) (ground arith)

pub take_run-mode :
    (a : FrameAllocator) (mode : MachineMode) (n i k : ℕ) (m : MachineMode)
    → is_specified_mode (take_run a mode n i) k m ≡ is_specified_mode a k m
unfolding take_run
take_run-mode a mode zero i k m = refl
take_run-mode a mode (suc n) i k m =
    take_run-mode (take_page a mode i) mode n (i + 1) k m ∙ take_page-mode a mode i k m

pub take_page-memory :
    (a : FrameAllocator) (mode : MachineMode) (i : ℕ) → (take_page a mode i).memory ≡ a.memory
unfolding take_page set_used
take_page-memory a kernel_mode i = refl
take_page-memory a user_mode i = refl

pub take_run-memory :
    (a : FrameAllocator) (mode : MachineMode) (n i : ℕ) → (take_run a mode n i).memory ≡ a.memory
unfolding take_run
take_run-memory a mode zero i = refl
take_run-memory a mode (suc n) i =
    take_run-memory (take_page a mode i) mode n (i + 1) ∙ take_page-memory a mode i

pub clear_pages-memory :
    (a : FrameAllocator) (i size b : ℕ)
    → i < max_page_count
    → (clear_pages a i size).memory b
      ≡ (if leb (i * page_size) b && ltb b (i * page_size + size) then 0 else a.memory b)
unfolding clear_pages get_address_from_ppn
clear_pages-memory a i size b h =
    let e : i * 4096 % 2 ^ 32 ≡ i * 4096 = omega arith in
    rw
      (
        e,
        memory_free-memory_set (i * 4096) size a.memory,
        memory_set_lem (i * 4096) 0 size a.memory b,
      )
      refl

pub clear_pages-free :
    (a : FrameAllocator) (i size k : ℕ) → is_free (clear_pages a i size) k ≡ is_free a k
unfolding clear_pages is_free
clear_pages-free a i size k = refl

pub clear_pages-mode :
    (a : FrameAllocator) (i size k : ℕ) (m : MachineMode)
    → is_specified_mode (clear_pages a i size) k m ≡ is_specified_mode a k m
unfolding clear_pages is_specified_mode
clear_pages-mode a i size k kernel_mode = refl
clear_pages-mode a i size k user_mode = refl

pub address_of : (i : ℕ) → i < max_page_count → get_address_from_ppn i ≡ i * page_size
unfolding get_address_from_ppn
address_of i h = omega arith
