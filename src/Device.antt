-- ===== src/Device.antt =====
-- kernel/device/device.c: the table of devices and the calls through it.
-- A `Device*` is a number, 0 for null. The drivers are functions on a world `W` that they change; the
-- memory that `Free` takes back is not followed.
pub mod Install
mod Tests
use gos_v.Common.{
  ℕ, ◌-◌, ◌%◌, ◌^◌, Bool, true, false, Option, none, some, Outcome, ok, panic, ◌==◌, ltb, leb,
  if◌then◌else◌,
}
use gos_v.Common.Search.{first_from}

-- `DEVICE_COUNT`
abbrev pub device_count : ℕ
device_count = 64

-- -1 as a `u32`
abbrev pub minus_one : ℕ
minus_one = 2 ^ 32 - 1

-- What a driver reads or writes with: the device's own pointer, the offset, the size and the buffer.
abbrev pub Driver : Type 0 → Type 0
Driver W = ℕ → ℕ → ℕ → ℕ → W → ℕ × W

-- `struct Device`, less the name and the types, which no operation reads. A null function pointer is
-- `none`.
pub record Device (W : Type 0) : Type 0 where
  pub device_id : ℕ
  pub device_ptr : ℕ
  pub read : Option (Driver W)
  pub write : Option (Driver W)
  pub ioctl : Option (ℕ → ℕ → ℕ → W → W)

-- The static table, and what the pointers lead to.
pub record Devices (W : Type 0) : Type 0 where
  pub devices : ℕ → ℕ
  pub memory : ℕ → Device W

abbrev pub write_entry : (ℕ → ℕ) → ℕ → ℕ → ℕ → ℕ
write_entry devices i p k = if k == i then p else devices k

module _ {W : Type 0} where
  pub get_device_by_id : Devices W → ℕ → ℕ
  get_device_by_id s id = if leb device_count id then 0 else s.devices id

  pub initialize_device : Devices W → Devices W
  initialize_device s = record s { devices = λ i. if ltb i device_count then 0 else s.devices i }

  -- `devices[i] == NULL`
  abbrev pub no_device : Devices W → ℕ → Bool
  no_device s i = s.devices i == 0

  pub place_device : Devices W → ℕ → ℕ → Devices W
  place_device s device i = record s {
    memory = λ p. if p == device then record (s.memory p) { device_id = i } else s.memory p;
    devices = write_entry s.devices i device;
  }

  pub install_device : Devices W → ℕ → Outcome (ℕ × Devices W)
  install_device s device =
      if device == 0 then ok (minus_one, s) else elim (first_from (no_device s) device_count 0) [
        | none ↦ panic
        | some i ↦ ok (i, place_device s device i)
      ]

  pub uninstall_device : Devices W → ℕ → Outcome (ℕ × Devices W)
  uninstall_device s device =
      if device == 0
      then ok (minus_one, s)
      else (let id = (s.memory device).device_id in
          if leb device_count id
          then panic
          else ok (id, record s { devices = write_entry s.devices id 0 }))

  -- The call through a pointer of the device; the offset is cut to 32 bits.
  pub call : Option (Driver W) → ℕ → ℕ → ℕ → ℕ → W → ℕ × W
  call none ptr offset size buffer w = (minus_one, w)
  call (some f) ptr offset size buffer w = f ptr (offset % 2 ^ 32) size buffer w

  pub device_read : Devices W → ℕ → ℕ → ℕ → ℕ → W → ℕ × W
  device_read s id offset size buffer w =
      let device = get_device_by_id s id in
      if device == 0
      then (minus_one, w)
      else call (s.memory device).read (s.memory device).device_ptr offset size buffer w

  pub device_write : Devices W → ℕ → ℕ → ℕ → ℕ → W → ℕ × W
  device_write s id offset size buffer w =
      let device = get_device_by_id s id in
      if device == 0
      then (minus_one, w)
      else call (s.memory device).write (s.memory device).device_ptr offset size buffer w

  pub control : Option (ℕ → ℕ → ℕ → W → W) → ℕ → ℕ → ℕ → W → W
  control none ptr cmd arg w = w
  control (some f) ptr cmd arg w = f ptr cmd arg w

  pub device_ioctl : Devices W → ℕ → ℕ → ℕ → W → W
  device_ioctl s id cmd arg w =
      let device = get_device_by_id s id in
      if device == 0
      then w
      else control (s.memory device).ioctl (s.memory device).device_ptr cmd arg w
