-- ===== src/Gdt.antt =====
-- kernel/gdt/gdt.c: the table of segment descriptors and the task state segment.
pub mod Layout
mod Tests
use gos_v.Common.{ℕ, ◌+◌, ◌-◌, ◌*◌, ◌/◌, ◌%◌, ◌^◌, ◌==◌, if◌then◌else◌}

-- `struct GlobalDescriptor`
pub record GlobalDescriptor : Type 0 where
  pub limit_low : ℕ
  pub base_low : ℕ
  pub type : ℕ
  pub segment : ℕ
  pub dpl : ℕ
  pub present : ℕ
  pub limit_high : ℕ
  pub available : ℕ
  pub long_mode : ℕ
  pub default_operation_size : ℕ
  pub granularity : ℕ
  pub base_high : ℕ

-- The fields of `struct TaskStateSegment` that the kernel writes; it leaves the others 0.
pub record TaskStateSegment : Type 0 where
  pub esp0 : ℕ
  pub ss0 : ℕ
  pub io_base : ℕ

-- `sizeof(TSS)`: 25 words, 16 bits of flags, `IOBase` and `SSP`.
abbrev pub tss_size : ℕ
tss_size = 108

abbrev pub kernel_code_segment_selector : ℕ
kernel_code_segment_selector = 1 * 8

abbrev pub kernel_data_segment_selector : ℕ
kernel_data_segment_selector = 2 * 8

abbrev pub tss_segment_selector : ℕ
tss_segment_selector = 3 * 8

-- Requested privilege level 3.
abbrev pub user_code_segment_selector : ℕ
user_code_segment_selector = 4 * 8 + 3

abbrev pub user_data_segment_selector : ℕ
user_data_segment_selector = 5 * 8 + 3

unfoldable pub null_descriptor : GlobalDescriptor
null_descriptor = record {
  limit_low = 0;
  base_low = 0;
  type = 0;
  segment = 0;
  dpl = 0;
  present = 0;
  limit_high = 0;
  available = 0;
  long_mode = 0;
  default_operation_size = 0;
  granularity = 0;
  base_high = 0;
}

-- The blocks of kernel and user code and data differ in the type and the privilege level only.
unfoldable pub flat_descriptor : ℕ → ℕ → GlobalDescriptor
flat_descriptor type dpl = record {
  limit_low = 0xffff;
  base_low = 0;
  type = type;
  segment = 1;
  dpl = dpl;
  present = 1;
  limit_high = 0b1111;
  available = 1;
  long_mode = 0;
  default_operation_size = 1;
  granularity = 1;
  base_high = 0;
}

unfoldable pub tss_descriptor : ℕ → GlobalDescriptor
tss_descriptor address = record {
  limit_low = (tss_size - 1) % 2 ^ 16;
  base_low = address % 2 ^ 24;
  type = 0b1001;
  segment = 0;
  dpl = 0;
  present = 1;
  limit_high = (tss_size - 1) / 2 ^ 16 % 2 ^ 4;
  available = 0;
  long_mode = 0;
  default_operation_size = 0;
  granularity = 0;
  base_high = address / 2 ^ 24 % 2 ^ 8;
}

-- `InitializeGDT`, given the address of `TSS`: the entries from 6 on are left as they were.
unfoldable pub initialize_gdt : ℕ → (ℕ → GlobalDescriptor) → ℕ → GlobalDescriptor
initialize_gdt address gdt i =
    if i == 0
    then null_descriptor
    else (if i == 1
        then flat_descriptor 0b1010 0
        else (if i == 2
            then flat_descriptor 0b0010 0
            else (if i == 3
                then tss_descriptor address
                else (if i == 4
                    then flat_descriptor 0b1010 3
                    else (if i == 5 then flat_descriptor 0b0010 3 else gdt i)))))

unfoldable pub initialize_tss : TaskStateSegment
initialize_tss = record { esp0 = 0; ss0 = kernel_data_segment_selector; io_base = tss_size }

unfoldable pub set_tss_esp0 : TaskStateSegment → ℕ → TaskStateSegment
set_tss_esp0 tss esp0 = record tss { esp0 = esp0 }

-- The eight bytes of a descriptor as the compiler lays out the packed fields, least first.
unfoldable pub descriptor_low : GlobalDescriptor → ℕ
descriptor_low d = d.limit_low + d.base_low % 2 ^ 16 * 2 ^ 16

unfoldable pub descriptor_high : GlobalDescriptor → ℕ
descriptor_high d =
    d.base_low / 2 ^ 16
    + d.type * 2 ^ 8
    + d.segment * 2 ^ 12
    + d.dpl * 2 ^ 13
    + d.present * 2 ^ 15
    + d.limit_high * 2 ^ 16
    + d.available * 2 ^ 20
    + d.long_mode * 2 ^ 21
    + d.default_operation_size * 2 ^ 22
    + d.granularity * 2 ^ 23
    + d.base_high * 2 ^ 24
