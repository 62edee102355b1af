-- ===== src/Uacpi/Unimplemented.antt =====
-- What uACPI may call and the kernel does not provide (src/uacpi.rs): `unimplemented!()` is a panic,
-- whatever it is called with. Two calls of what it does provide have an empty body.
use titanium.Base.{ℕ, Option, none}
use titanium.Uacpi.Ports.{Status}

module _ {W : Type 0} where
  unfoldable pub pci_device_open : ℕ → W → Option (Status × Option ℕ × W)
  pci_device_open address w = none

  unfoldable pub pci_device_close : ℕ → W → Option (W)
  pci_device_close device w = none

  unfoldable pub pci_read8 : ℕ → ℕ → W → Option (Status × Option ℕ × W)
  pci_read8 device offset w = none

  unfoldable pub pci_read16 : ℕ → ℕ → W → Option (Status × Option ℕ × W)
  pci_read16 device offset w = none

  unfoldable pub pci_read32 : ℕ → ℕ → W → Option (Status × Option ℕ × W)
  pci_read32 device offset w = none

  unfoldable pub pci_write8 : ℕ → ℕ → ℕ → W → Option (Status × W)
  pci_write8 device offset value w = none

  unfoldable pub pci_write16 : ℕ → ℕ → ℕ → W → Option (Status × W)
  pci_write16 device offset value w = none

  unfoldable pub pci_write32 : ℕ → ℕ → ℕ → W → Option (Status × W)
  pci_write32 device offset value w = none

  unfoldable pub sleep : ℕ → W → Option (W)
  sleep msec w = none

  unfoldable pub install_interrupt_handler : ℕ → ℕ → ℕ → W → Option (Status × Option ℕ × W)
  install_interrupt_handler irq handler ctx w = none

  unfoldable pub uninstall_interrupt_handler : ℕ → ℕ → W → Option (Status × W)
  uninstall_interrupt_handler handler irq_handle w = none

  unfoldable pub schedule_work : ℕ → ℕ → ℕ → W → Option (Status × W)
  schedule_work work_type handler ctx w = none

  unfoldable pub wait_for_work_completion : W → Option (Status × W)
  wait_for_work_completion w = none

  -- `unmap` and `io_unmap`
  unfoldable pub unmap : ℕ → ℕ → W → W
  unmap addr len w = w

  unfoldable pub io_unmap : ℕ → W → W
  io_unmap handle w = w
