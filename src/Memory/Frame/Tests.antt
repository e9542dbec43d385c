-- ===== src/Memory/Frame/Tests.antt =====
-- Runs of the page frame allocator.
use gos_v.Common.{◌≡◌, refl, arith, ok}
use gos_v.Common.Bits.{has_bit, clear_bit}
use gos_v.Common.Search.{first_from}
use gos_v.Memory.Address.{get_address_from_ppn, page_size}
use gos_v.Memory.Frame.{
  FrameAllocator, kernel_mode, is_free, is_specified_mode, take_page, set_used, set_free,
  clear_pages, allocate_one_page, allocate_pages_continuously, free_one_page, give_back,
  global_frame_allocator_init,
}
use gos_v.Memory.Frame.Allocate.{Allocation, allocate_pages-Allocation}
use gos_v.Memory.Frame.Counted.{Counted, init-Counted, give_back-Counted}
use gos_v.Memory.Frame.Counts.{Restored, allocate_then_free_page}

abbrev zeros : FrameAllocator
zeros = record {
  pages = λ k. 0;
  total_free_page_count = 7;
  kernel_free_page_count = 7;
  memory = λ k. 9;
}

abbrev start : FrameAllocator
start = global_frame_allocator_init zeros

-- The kernel's first page is free.
abbrev one_free : FrameAllocator
one_free = give_back start 256

one_free-Counted : Counted one_free
unfolding is_free global_frame_allocator_init has_bit
one_free-Counted = give_back-Counted start 256 (omega arith) refl (init-Counted zeros)

abbrev page_given : FrameAllocator
page_given = clear_pages (take_page one_free kernel_mode 256) 256 page_size

page_given_lem : allocate_one_page one_free kernel_mode ≡ ok (1048576, page_given)
unfolding allocate_one_page first_from is_free is_specified_mode give_back set_free
    global_frame_allocator_init has_bit clear_bit get_address_from_ppn
page_given_lem = refl

allocate_then_free_page_example :
    Counted page_given
    × ((a'' : FrameAllocator) × (free_one_page page_given 1048576 ≡ ok a'') × Restored one_free a'')
allocate_then_free_page_example =
    allocate_then_free_page one_free kernel_mode one_free-Counted page_given_lem

allocate_pages-Allocation_example :
    Allocation one_free kernel_mode 1 (allocate_pages_continuously one_free kernel_mode 1)
allocate_pages-Allocation_example =
    allocate_pages-Allocation one_free kernel_mode 1 (omega arith) (omega arith)

count_after : page_given.total_free_page_count ≡ 0
unfolding page_given_lem take_page clear_pages set_used give_back
count_after = refl
