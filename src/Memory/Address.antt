-- ===== src/Memory/Address.antt =====
-- Addresses and page numbers, as kernel/memory/frame.c converts them.
use gos_v.Common.{ℕ, ◌+◌, ◌-◌, ◌*◌, ◌/◌, ◌%◌, ◌^◌, ◌<◌, ◌≤◌, ◌≡◌, arith}

abbrev pub page_size : ℕ
page_size = 4096

unfoldable pub get_ppn_from_address_floor : ℕ → ℕ
get_ppn_from_address_floor address = address / 2 ^ 12

unfoldable pub get_ppn_from_address_ceil : ℕ → ℕ
get_ppn_from_address_ceil address = (address + page_size - 1) % 2 ^ 32 / 2 ^ 12

unfoldable pub get_address_from_ppn : ℕ → ℕ
get_address_from_ppn ppn = ppn * 2 ^ 12 % 2 ^ 32

-- A page number of 20 bits is that of its address, from below and from above, and an address lies in
-- the page whose number is rounded down and not above the one whose number is rounded up.
pub ppn_round :
    (ppn address : ℕ)
    → ppn < 2 ^ 20
    → address ≤ 2 ^ 32 - page_size
    → (get_ppn_from_address_floor (get_address_from_ppn ppn) ≡ ppn)
      × (get_ppn_from_address_ceil (get_address_from_ppn ppn) ≡ ppn)
      × (get_address_from_ppn (get_ppn_from_address_floor address) ≤ address)
      × (address < get_address_from_ppn (get_ppn_from_address_floor address) + page_size)
      × (address ≤ get_ppn_from_address_ceil address * page_size)
      × (get_ppn_from_address_ceil address * page_size < address + page_size)
unfolding get_ppn_from_address_floor get_ppn_from_address_ceil get_address_from_ppn
ppn_round ppn address h k = omega arith
