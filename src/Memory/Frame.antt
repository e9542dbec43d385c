-- ===== src/Memory/Frame.antt =====
-- The allocator of page frames of kernel/memory/frame.c.
-- `pages` is the array `Pages`; its entries from `max_page_count` on stand for what lies behind the
-- array, which the loops over several pages and `FreeOnePage` do not check for. In memory that begins
-- with the two counts. The model keeps them apart, so that it is that of the runs which stay inside the
-- array, and says nothing of what a run past its end does to the counts.
pub mod Runs
pub mod Allocate
pub mod Counted
pub mod Counts
mod Tests
use gos_v.Common.{
  ℕ, zero, suc, ◌+◌, ◌-◌, ◌*◌, ◌/◌, ◌%◌, ◌^◌, Bool, true, false, not, ◌&&◌, Option, none, some,
  List, [], ◌∷◌, Outcome, ok, panic, hang, ◌>>=◌, ◌==◌, leb, ltb, if◌then◌else◌,
}
use gos_v.Common.Bits.{has_bit, set_bit, clear_bit}
use gos_v.Common.Search.{first_from}
use gos_v.Utils.{Bytes, memory_free}
use gos_v.Memory.Address.{
  page_size, get_ppn_from_address_floor, get_ppn_from_address_ceil, get_address_from_ppn,
}

-- `MAX_PAGE_COUNT`
abbrev pub max_page_count : ℕ
max_page_count = 8192

-- The page where the searches begin, at 1 MB.
abbrev pub first_page : ℕ
first_page = 256

pub data MachineMode : Type 0 where
  kernel_mode user_mode : MachineMode

-- `struct FrameAllocator`, with the physical memory that the pages are made of.
pub record FrameAllocator : Type 0 where
  pub pages : ℕ → ℕ
  pub total_free_page_count : ℕ
  pub kernel_free_page_count : ℕ
  pub memory : Bytes

-- `x--` and `x++` of a `u32`
abbrev pub decrement : ℕ → ℕ
decrement x = (x + (2 ^ 32 - 1)) % 2 ^ 32

abbrev pub increment : ℕ → ℕ
increment x = (x + 1) % 2 ^ 32

abbrev pub write_page : (ℕ → ℕ) → ℕ → ℕ → ℕ → ℕ
write_page pages ppn v k = if k == ppn then v else pages k

unfoldable pub is_free : FrameAllocator → ℕ → Bool
is_free a ppn = not (has_bit (a.pages ppn) 0)

unfoldable pub set_free : FrameAllocator → ℕ → FrameAllocator
set_free a ppn = record a { pages = write_page a.pages ppn (clear_bit (a.pages ppn) 0) }

unfoldable pub set_used : FrameAllocator → ℕ → FrameAllocator
set_used a ppn = record a { pages = write_page a.pages ppn (set_bit (a.pages ppn) 0) }

unfoldable pub is_specified_mode : FrameAllocator → ℕ → MachineMode → Bool
is_specified_mode a ppn kernel_mode = has_bit (a.pages ppn) 1
is_specified_mode a ppn user_mode = not (has_bit (a.pages ppn) 1)

unfoldable pub is_dirty : FrameAllocator → ℕ → Bool
is_dirty a ppn = not (has_bit (a.pages ppn) 2)

unfoldable pub set_dirty : FrameAllocator → ℕ → FrameAllocator
set_dirty a ppn = record a { pages = write_page a.pages ppn (set_bit (a.pages ppn) 2) }

unfoldable pub set_not_dirty : FrameAllocator → ℕ → FrameAllocator
set_not_dirty a ppn = record a { pages = write_page a.pages ppn (clear_bit (a.pages ppn) 2) }

-- `isFree(i) && isSpecifiedMode(i, mode)`
abbrev pub suits : FrameAllocator → MachineMode → ℕ → Bool
suits a mode i = is_free a i && is_specified_mode a i mode

abbrev pub is_kernel_mode : MachineMode → Bool
is_kernel_mode kernel_mode = true
is_kernel_mode user_mode = false

-- The page leaves the free ones: `setUsed` and the counts.
pub take_page : FrameAllocator → MachineMode → ℕ → FrameAllocator
take_page a mode i =
    let a = set_used a i in
    let a = record a { total_free_page_count = decrement a.total_free_page_count } in
    if is_kernel_mode mode
    then record a { kernel_free_page_count = decrement a.kernel_free_page_count }
    else a

pub clear_pages : FrameAllocator → ℕ → ℕ → FrameAllocator
clear_pages a ppn size = record a { memory = memory_free (get_address_from_ppn ppn) size a.memory }

pub allocate_one_page : FrameAllocator → MachineMode → Outcome (ℕ × FrameAllocator)
unfolding take_page clear_pages
allocate_one_page a mode =
    elim (first_from (suits a mode) (max_page_count - first_page) first_page) [
      | none ↦ panic
      | some i ↦ ok (get_address_from_ppn i, clear_pages (take_page a mode i) i page_size)
    ]

-- `hasPages`
unfoldable pub has_pages : FrameAllocator → MachineMode → ℕ → ℕ → Bool
has_pages a mode zero i = true
has_pages a mode (suc n) i = suits a mode i && has_pages a mode n (i + 1)

abbrev pub starts_run : FrameAllocator → MachineMode → ℕ → ℕ → Bool
starts_run a mode page_count i = suits a mode i && has_pages a mode page_count i

unfoldable pub take_run : FrameAllocator → MachineMode → ℕ → ℕ → FrameAllocator
take_run a mode zero i = a
take_run a mode (suc n) i = take_run (take_page a mode i) mode n (i + 1)

pub allocate_pages_continuously : FrameAllocator → MachineMode → ℕ → Outcome (ℕ × FrameAllocator)
unfolding allocate_one_page clear_pages
allocate_pages_continuously a mode page_count =
    if page_count == 1
    then allocate_one_page a mode
    else elim (first_from (starts_run a mode page_count) (max_page_count - first_page) first_page) [
      | none ↦ panic
      | some i ↦ ok (
        get_address_from_ppn i,
        clear_pages (take_run a mode page_count i) i (page_count * page_size % 2 ^ 32),
      )
    ]

pub give_back : FrameAllocator → ℕ → FrameAllocator
give_back a ppn =
    let a = set_free a ppn in
    let a = record a { total_free_page_count = increment a.total_free_page_count } in
    if is_specified_mode a ppn kernel_mode
    then record a { kernel_free_page_count = increment a.kernel_free_page_count }
    else a

pub free_one_page : FrameAllocator → ℕ → Outcome FrameAllocator
unfolding give_back
free_one_page a address =
    if address % page_size == 0
    then ok (give_back a (get_ppn_from_address_floor address))
    else panic

-- `struct AddressRangeDescriptor`
pub record AddressRangeDescriptor : Type 0 where
  pub base_address : ℕ
  pub length : ℕ
  pub type : ℕ

-- `globalFrameAllocatorInit`: every page is in use, the first 1024 are the kernel's.
unfoldable pub global_frame_allocator_init : FrameAllocator → FrameAllocator
global_frame_allocator_init a = record a {
  pages = λ k. if ltb k max_page_count then (if ltb k 1024 then 3 else 1) else a.pages k;
  total_free_page_count = 0;
  kernel_free_page_count = 0;
}

-- The pages of an available range, one by one; the address is cut to 32 bits.
free_range : ℕ → ℕ → FrameAllocator → Outcome FrameAllocator
unfolding free_one_page
free_range zero base a = ok a
free_range (suc n) base a = do
  a ← free_one_page a (base % 2 ^ 32)
  free_range n (base + page_size) a

-- The counter of bytes has 32 bits: it wraps before it gets to a longer length.
pub free_descriptor : AddressRangeDescriptor → FrameAllocator → Outcome FrameAllocator
unfolding free_range
free_descriptor ard a =
    let base = get_address_from_ppn (get_ppn_from_address_ceil (ard.base_address % 2 ^ 32)) in
    if ard.type == 1 && leb 1048576 ard.base_address
    then (if leb ard.length (2 ^ 32 - page_size)
        then free_range ((ard.length + page_size - 1) / page_size) base a
        else hang)
    else ok a

free_descriptors : List AddressRangeDescriptor → FrameAllocator → Outcome FrameAllocator
unfolding free_descriptor
free_descriptors [] a = ok a
free_descriptors (ard ∷ ards) a = do a ← free_descriptor ard a; free_descriptors ards a

pub memory_checkout : List AddressRangeDescriptor → FrameAllocator → Outcome FrameAllocator
unfolding free_descriptors
memory_checkout ards a = free_descriptors ards (global_frame_allocator_init a)
