-- ===== src/Memory/Frame/Allocate.antt =====
-- What the allocations of kernel/memory/frame.c give out.
use gos_v.Common.{
  ℕ, zero, suc, ◌+◌, ◌-◌, ◌*◌, ◌%◌, ◌^◌, ◌≤◌, ◌<◌, ◌≡◌, refl, sym, ◌∙◌, ap, inl, inr, arith, true,
  false, ◌&&◌, Option, none, some, Outcome, ok, panic, hang, ◌==◌, if◌then◌else◌, leb, ltb,
  Bool-cases, ==→eq,
}
use gos_v.Common.Search.{first_from, Found, first_from-Found}
use gos_v.Memory.Address.{get_address_from_ppn, page_size}
use gos_v.Memory.Frame.Runs.{
  Taken, IsRun, has_pages-IsRun, IsRun-has_pages, take_run-free, take_run-mode, take_run-memory,
  clear_pages-memory, clear_pages-free, clear_pages-mode, address_of,
}
use gos_v.Memory.Frame.{
  FrameAllocator, MachineMode, first_page, max_page_count, suits, starts_run, has_pages, take_page,
  take_run, clear_pages, allocate_one_page, allocate_pages_continuously,
}

-- What an allocation of `n` pages tells: it panics only where there is no run of them, and what it
-- gives out is the first run, which is in use from then on and filled with zeros.
pub Allocation : FrameAllocator → MachineMode → ℕ → Outcome (ℕ × FrameAllocator) → Type 0
Allocation a mode n panic = (i : ℕ) → first_page ≤ i → i < max_page_count → ¬ IsRun a mode n i
Allocation a mode n hang = ⊥
Allocation a mode n (ok (address, a')) =
    (i : ℕ) × (first_page ≤ i)
    × (i < max_page_count)
    × (address ≡ i * page_size)
    × IsRun a mode n i
    × ((k : ℕ) → first_page ≤ k → k < i → ¬ IsRun a mode n k)
    × Taken a n i a'
    × ((b : ℕ)
        → a'.memory b
          ≡ (if leb address b && ltb b (address + n * page_size) then 0 else a.memory b))

-- One page is a run of one page.
starts_one :
    (a : FrameAllocator) (mode : MachineMode) (i : ℕ) → suits a mode i ≡ starts_run a mode 1 i
unfolding has_pages
starts_one a mode i = ground arith

starts-has :
    (a : FrameAllocator) (mode : MachineMode) (n i : ℕ)
    → 1 ≤ n
    → starts_run a mode n i ≡ has_pages a mode n i
unfolding has_pages
starts-has a mode zero i h = absurd (omega arith)
starts-has a mode (suc n) i h = ground arith

-- What an allocation of `n` pages does with the result of its search.
given : FrameAllocator → MachineMode → ℕ → Option ℕ → Outcome (ℕ × FrameAllocator)
given a mode n none = panic
given a mode n (some i) =
    ok (get_address_from_ppn i, clear_pages (take_run a mode n i) i (n * page_size % 2 ^ 32))

first_from_one :
    (a : FrameAllocator) (mode : MachineMode) (n i : ℕ)
    → first_from (suits a mode) n i ≡ first_from (starts_run a mode 1) n i
unfolding first_from
first_from_one a mode zero i = refl
first_from_one a mode (suc n) i =
    ap (λ b. if b then some i else first_from (suits a mode) n (i + 1)) (starts_one a mode i)
    ∙ ap (λ r. if starts_run a mode 1 i then some i else r) (first_from_one a mode n (i + 1))

taken_one : FrameAllocator → MachineMode → Option ℕ → Outcome (ℕ × FrameAllocator)
taken_one a mode none = panic
taken_one a mode (some i) =
    ok (get_address_from_ppn i, clear_pages (take_page a mode i) i page_size)

taken_one-given :
    (a : FrameAllocator) (mode : MachineMode) (r : Option ℕ) → taken_one a mode r ≡ given a mode 1 r
unfolding taken_one given take_run
taken_one-given a mode none = refl
taken_one-given a mode (some i) = refl

rounds : ℕ
rounds = max_page_count - first_page

allocate_one-taken :
    (a : FrameAllocator) (mode : MachineMode)
    → allocate_one_page a mode ≡ taken_one a mode (first_from (suits a mode) rounds first_page)
unfolding allocate_one_page taken_one rounds
allocate_one-taken a mode =
    elim (first_from (suits a mode) (max_page_count - first_page) first_page)
      as (λ r.
        elim r as (λ _. Outcome (ℕ × FrameAllocator)) [
          | none ↦ panic
          | some i ↦ ok (get_address_from_ppn i, clear_pages (take_page a mode i) i page_size)
        ]
        ≡ taken_one a mode r) [ none ↦ refl | some i ↦ refl ]

allocate_one-given :
    (a : FrameAllocator) (mode : MachineMode)
    → allocate_one_page a mode ≡ given a mode 1 (first_from (starts_run a mode 1) rounds first_page)
allocate_one-given a mode =
    allocate_one-taken a mode
    ∙ ap (taken_one a mode) (first_from_one a mode rounds first_page)
    ∙ taken_one-given a mode (first_from (starts_run a mode 1) rounds first_page)

several :
    (a : FrameAllocator) (mode : MachineMode) (n : ℕ) (r : Option ℕ)
    → elim r as (λ _. Outcome (ℕ × FrameAllocator)) [
      | none ↦ panic
      | some i ↦
          ok (get_address_from_ppn i, clear_pages (take_run a mode n i) i (n * page_size % 2 ^ 32))
    ]
      ≡ given a mode n r
unfolding given
several a mode n none = refl
several a mode n (some i) = refl

allocate_pages-given :
    (a : FrameAllocator) (mode : MachineMode) (n : ℕ)
    → allocate_pages_continuously a mode n
      ≡ given a mode n (first_from (starts_run a mode n) rounds first_page)
unfolding allocate_pages_continuously rounds
allocate_pages-given a mode n = elim (Bool-cases (n == 1)) [
  | inl e ↦ let q = ==→eq n 1 e in rw (q) (allocate_one-given a mode)
  | inr e ↦
      rw e (
        several a mode n
          (first_from (starts_run a mode n) (max_page_count - first_page) first_page))
]

module _ (a : FrameAllocator) (mode : MachineMode) (n : ℕ) (ge : 1 ≤ n) (le : n < 2 ^ 20) where
  starts_run-IsRun : (i : ℕ) → starts_run a mode n i ≡ false → ¬ IsRun a mode n i
  starts_run-IsRun i h r =
      let e = starts-has a mode n i ge in let f = IsRun-has_pages a mode n i r in cc

  given-Allocation :
      (r : Option ℕ)
      → Found (starts_run a mode n) rounds first_page r
      → Allocation a mode n (given a mode n r)
  unfolding Found given Allocation rounds
  given-Allocation none f = λ i l g. starts_run-IsRun i (f i l (omega arith))
  given-Allocation (some i) (l, g, e, f) =
      let t : n * page_size % 2 ^ 32 ≡ n * page_size = omega arith in
      let u = starts-has a mode n i ge in
      let v = address_of i (omega arith) in
      let r = take_run a mode n i in
      (
        i,
        l,
        omega arith,
        v,
        has_pages-IsRun a mode n i (sym u ∙ e),
        (λ k l g. starts_run-IsRun k (f k l g)),
        record {
          free = λ k. clear_pages-free r i _ k ∙ take_run-free a mode n i k;
          same_mode = λ k m. clear_pages-mode r i _ k m ∙ take_run-mode a mode n i k m;
        },
        λ b.
            rw
              (
                v,
                t,
                clear_pages-memory r i (n * page_size) b (omega arith),
                take_run-memory a mode n i,
              )
              refl,
      )

-- For at least one page, and fewer than 2^20, so that their size is a `u32`, the allocation gives
-- out the first run of that many free pages of the mode from 1 MB on: each of its pages was free,
-- from then on just these pages are in use besides those that were, the modes stay, the pages are
-- filled with zeros and the rest of memory is as before. It panics only where there is no such run,
-- and always ends.
pub allocate_pages-Allocation :
    (a : FrameAllocator) (mode : MachineMode) (n : ℕ)
    → 1 ≤ n
    → n < 2 ^ 20
    → Allocation a mode n (allocate_pages_continuously a mode n)
allocate_pages-Allocation a mode n ge le = rw (allocate_pages-given a mode n) (
    given-Allocation a mode n ge le (first_from (starts_run a mode n) rounds first_page)
      (first_from-Found (starts_run a mode n) rounds first_page))

one-ok :
    (a : FrameAllocator) (mode : MachineMode) (r : Option ℕ) {address : ℕ} {a' : FrameAllocator}
    → Found (suits a mode) rounds first_page r
    → taken_one a mode r ≡ ok (address, a')
    → (i : ℕ) × (i < max_page_count)
      × (suits a mode i ≡ true)
      × (address ≡ i * page_size)
      × (a' ≡ clear_pages (take_page a mode i) i page_size)
unfolding Found taken_one rounds
one-ok a mode none f h = cc
one-ok a mode (some i) {address} {a'} (l, g, e, f) h =
    let t : get_address_from_ppn i ≡ address = cc in
    let u : clear_pages (take_page a mode i) i page_size ≡ a' = cc in
    (i, omega arith, e, sym t ∙ address_of i (omega arith), sym u)

-- The page that `AllocateOnePage` gives out.
pub allocate_one-ok :
    (a : FrameAllocator) (mode : MachineMode) {address : ℕ} {a' : FrameAllocator}
    → allocate_one_page a mode ≡ ok (address, a')
    → (i : ℕ) × (i < max_page_count)
      × (suits a mode i ≡ true)
      × (address ≡ i * page_size)
      × (a' ≡ clear_pages (take_page a mode i) i page_size)
allocate_one-ok a mode h =
    one-ok a mode (first_from (suits a mode) rounds first_page)
      (first_from-Found (suits a mode) rounds first_page) (sym (allocate_one-taken a mode) ∙ h)
