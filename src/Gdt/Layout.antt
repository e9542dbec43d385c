-- ===== src/Gdt/Layout.antt =====
-- What the processor reads in the descriptors of kernel/gdt/gdt.c.
use gos_v.Common.{ℕ, ◌+◌, ◌*◌, ◌/◌, ◌%◌, ◌^◌, ◌≡◌, ◌==◌, if◌then◌else◌}
use gos_v.Gdt.{GlobalDescriptor, initialize_gdt, descriptor_low, descriptor_high}

-- The two words of a descriptor by the processor's manual.
unfoldable pub base : ℕ → ℕ → ℕ
base low high = low / 2 ^ 16 + high % 2 ^ 8 * 2 ^ 16 + high / 2 ^ 24 % 2 ^ 8 * 2 ^ 24

unfoldable pub limit : ℕ → ℕ → ℕ
limit low high = low % 2 ^ 16 + high / 2 ^ 16 % 2 ^ 4 * 2 ^ 16

-- The number of bytes in the segment, by the granularity.
unfoldable pub bytes : ℕ → ℕ → ℕ
bytes low high = (limit low high + 1) * (if high / 2 ^ 23 % 2 == 1 then 2 ^ 12 else 1)

unfoldable pub type_of : ℕ → ℕ
type_of high = high / 2 ^ 8 % 2 ^ 4

unfoldable pub level : ℕ → ℕ
level high = high / 2 ^ 13 % 2 ^ 2

unfoldable pub is_present : ℕ → ℕ
is_present high = high / 2 ^ 15 % 2

-- 1 for code and data, 0 for the segments of the system.
unfoldable pub storage : ℕ → ℕ
storage high = high / 2 ^ 12 % 2

-- 1 for code of 64 bits.
unfoldable pub long : ℕ → ℕ
long high = high / 2 ^ 21 % 2

-- 1 for operands of 32 bits.
unfoldable pub default_size : ℕ → ℕ
default_size high = high / 2 ^ 22 % 2

-- A segment as the processor sees it.
pub record Segment (d : GlobalDescriptor) (address size s type dpl wide : ℕ) : Type 0 where
  pub starts : base (descriptor_low d) (descriptor_high d) ≡ address
  pub length : bytes (descriptor_low d) (descriptor_high d) ≡ size
  pub class : storage (descriptor_high d) ≡ s
  pub kind : type_of (descriptor_high d) ≡ type
  pub ring : level (descriptor_high d) ≡ dpl
  pub there : is_present (descriptor_high d) ≡ 1
  pub not_long : long (descriptor_high d) ≡ 0
  pub operands : default_size (descriptor_high d) ≡ wide

-- A descriptor of no segment, the null one: both words are 0.
abbrev pub IsUnused : GlobalDescriptor → Type 0
IsUnused d = (descriptor_low d ≡ 0) × (descriptor_high d ≡ 0)

-- The descriptor that a selector picks.
abbrev pub picked : ℕ → ℕ → (ℕ → GlobalDescriptor) → GlobalDescriptor
picked address selector gdt = initialize_gdt address gdt (selector / 8)
