-- ===== src/Device/Install.antt =====
-- Installed devices of kernel/device/device.c.
use gos_v.Common.{
  ℕ, ◌<◌, ◌≡◌, ◌≢◌, refl, subst, sym, ap, ◌∙◌, inl, inr, arith, false, Option, none, some, Outcome,
  ok, panic, hang, ◌==◌, ne→==, ==→eq, eq→==, ==→ne, Bool-cases, leb, if◌then◌else◌,
}
use gos_v.Common.Search.{first_from, Found, first_from-Found}
use gos_v.Device.{
  Devices, device_count, no_device, write_entry, get_device_by_id, place_device, install_device,
  uninstall_device, call, device_read, device_write,
}

in_table : (i : ℕ) → i < device_count → leb device_count i ≡ false
in_table i h = ground arith

module _ {W : Type 0} where
  -- What `InstallDevice` of a pointer tells: the first free entry has the device, calls through it
  -- reach the device's own functions with its own pointer, no other entry changes, and uninstalling
  -- frees the entry again; it panics only when no entry is free.
  pub Installed : Devices W → ℕ → Outcome (ℕ × Devices W) → Type 0
  Installed s device panic = (k : ℕ) → k < device_count → s.devices k ≢ 0
  Installed s device hang = ⊥
  Installed s device (ok (id, s')) =
      (id < device_count)
      × (s.devices id ≡ 0)
      × ((k : ℕ) → k < id → s.devices k ≢ 0)
      × ((k : ℕ) → k ≢ id → get_device_by_id s' k ≡ get_device_by_id s k)
      × ((offset size buffer : ℕ) (w : W)
          → device_read s' id offset size buffer w
            ≡ call (s.memory device).read (s.memory device).device_ptr offset size buffer w)
      × ((offset size buffer : ℕ) (w : W)
          → device_write s' id offset size buffer w
            ≡ call (s.memory device).write (s.memory device).device_ptr offset size buffer w)
      × ((s'' : Devices W) × (uninstall_device s' device ≡ ok (id, s''))
          × ((k : ℕ) → s''.devices k ≡ s.devices k))

  placed-devices :
      (s : Devices W) (device i k : ℕ)
      → (place_device s device i).devices k ≡ (if k == i then device else s.devices k)
  unfolding place_device
  placed-devices s device i k = refl

  placed_self :
      (s : Devices W) (device i : ℕ)
      → (place_device s device i).memory device ≡ record (s.memory device) { device_id = i }
  unfolding place_device
  placed_self s device i = rw (eq→== device device refl) refl

  get_placed :
      (s : Devices W) (device i : ℕ)
      → i < device_count
      → get_device_by_id (place_device s device i) i ≡ device
  unfolding get_device_by_id place_device
  get_placed s device i h = ground arith

  get_other :
      (s : Devices W) (device i k : ℕ)
      → k ≢ i
      → get_device_by_id (place_device s device i) k ≡ get_device_by_id s k
  unfolding get_device_by_id place_device
  get_other s device i k h = rw (ne→== k i h) refl

  read_placed :
      (s : Devices W) (device i : ℕ)
      → device ≢ 0
      → i < device_count
      → (offset size buffer : ℕ) (w : W)
      → device_read (place_device s device i) i offset size buffer w
        ≡ call (s.memory device).read (s.memory device).device_ptr offset size buffer w
  unfolding device_read
  read_placed s device i n h offset size buffer w =
      rw (get_placed s device i h, ne→== device 0 n, placed_self s device i) refl

  write_placed :
      (s : Devices W) (device i : ℕ)
      → device ≢ 0
      → i < device_count
      → (offset size buffer : ℕ) (w : W)
      → device_write (place_device s device i) i offset size buffer w
        ≡ call (s.memory device).write (s.memory device).device_ptr offset size buffer w
  unfolding device_write
  write_placed s device i n h offset size buffer w =
      rw (get_placed s device i h, ne→== device 0 n, placed_self s device i) refl

  uninstall_placed :
      (s : Devices W) (device i : ℕ)
      → device ≢ 0
      → i < device_count
      → uninstall_device (place_device s device i) device
        ≡ ok (
          i,
          record (place_device s device i) {
            devices = write_entry (place_device s device i).devices i 0;
          },
        )
  unfolding uninstall_device
  uninstall_placed s device i n h = rw (ne→== device 0 n, placed_self s device i, in_table i h) refl

  freed :
      (s : Devices W) (device i k : ℕ)
      → s.devices i ≡ 0
      → write_entry (place_device s device i).devices i 0 k ≡ s.devices k
  unfolding place_device
  freed s device i k h = elim (Bool-cases (k == i)) [
    | inl e ↦ rw e (sym (ap s.devices (==→eq k i e) ∙ h))
    | inr e ↦ rw e refl
  ]

  installed : Devices W → ℕ → Option ℕ → Outcome (ℕ × Devices W)
  installed s device none = panic
  installed s device (some i) = ok (i, place_device s device i)

  installed-Installed :
      (s : Devices W) (device : ℕ) (r : Option ℕ)
      → device ≢ 0
      → Found (no_device s) device_count 0 r
      → Installed s device (installed s device r)
  unfolding Found Installed installed
  installed-Installed s device none n f = λ k l. ==→ne (s.devices k) 0 (f k (omega arith) l)
  installed-Installed s device (some i) n (a, b, c, d) = (
    b,
    ==→eq (s.devices i) 0 c,
    (λ k l. ==→ne (s.devices k) 0 (d k (omega arith) l)),
    (λ k m. get_other s device i k m),
    read_placed s device i n b,
    write_placed s device i n b,
    (_, uninstall_placed s device i n b, λ k. freed s device i k (==→eq (s.devices i) 0 c)),
  )

  by_search :
      (s : Devices W) (device : ℕ) (r : Option ℕ)
      → elim r as (λ _. Outcome (ℕ × Devices W)) [
        | none ↦ panic
        | some i ↦ ok (i, place_device s device i)
      ]
        ≡ installed s device r
  unfolding installed
  by_search s device none = refl
  by_search s device (some i) = refl

  install-installed :
      (s : Devices W) (device : ℕ)
      → device ≢ 0
      → install_device s device ≡ installed s device (first_from (no_device s) device_count 0)
  unfolding install_device
  install-installed s device n =
      rw (ne→== device 0 n) (by_search s device (first_from (no_device s) device_count 0))

  -- `InstallDevice` of a device that is not null puts it into the first free entry, and panics only
  -- when none of the 64 is free. From then on `DeviceRead` and `DeviceWrite` of the entry call the
  -- device's own functions with its own pointer, or give -1 where it has none, every other entry
  -- gives the device that it gave, and `UninstallDevice` makes the table as it was.
  pub install_device-Installed :
      (s : Devices W) (device : ℕ) → device ≢ 0 → Installed s device (install_device s device)
  install_device-Installed s device n =
      subst (Installed s device) (sym (install-installed s device n)) (
        installed-Installed s device (first_from (no_device s) device_count 0) n
          (first_from-Found (no_device s) device_count 0))
