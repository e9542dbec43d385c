-- ===== src/Device/Tests.antt =====
-- A table whose first entry is taken, and a driver that counts its calls.
use gos_v.Common.{ℕ, suc, arith, none, some, ◌==◌, if◌then◌else◌}
use gos_v.Device.{Device, Devices, install_device}
use gos_v.Device.Install.{Installed, install_device-Installed}

abbrev counter : Device ℕ
counter = record {
  device_id = 0;
  device_ptr = 77;
  read = some (λ ptr offset size buffer w. (size, suc w));
  write = none;
  ioctl = none;
}

abbrev one_device : Devices ℕ
one_device = record { devices = λ i. if i == 0 then 4096 else 0; memory = λ p. counter }

install_device-Installed_example : Installed one_device 8192 (install_device one_device 8192)
install_device-Installed_example = install_device-Installed one_device 8192 (λ z. omega arith)
