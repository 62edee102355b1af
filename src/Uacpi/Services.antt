-- ===== src/Uacpi/Services.antt =====
-- The clock, the pauses, the thread and the firmware requests of uACPI (src/uacpi.rs, by way of
-- src/sys.rs).
use titanium.Base.{ℕ, ◌%◌, ◌^◌, List, Option, none, some, ◌==◌}
use titanium.Base.{if◌then◌else◌}
use titanium.Hdint.Devices.{Mmio, Wake}
use titanium.Hdint.Hpet.{get_counter, capabilities, period_fs, checked_mul}
use titanium.Hdint.Hpet
use titanium.Hdint.LocalApic.{LocalTimer}
use titanium.Hdint.LocalApic
use titanium.Uacpi.Ports.{Status, ok}

-- There is one thread.
abbrev pub get_thread_id : ℕ
get_thread_id = 0

-- The numbers of the two requests come from the bindings that the build makes. A breakpoint is let
-- through, a fatal request is a panic, and so is any other.
unfoldable pub handle_firmware_request : ℕ → ℕ → ℕ → Option Status
handle_firmware_request breakpoint fatal type_ =
    if type_ == breakpoint then some ok else (if type_ == fatal then none else none)

module _ {W : Type 0} (io : Mmio W) where
  -- `sys::get_ns`
  unfoldable pub get_ns : W → Option ℕ
  get_ns w = Hpet.get_ns io w

  unfoldable pub get_nanoseconds_since_boot : W → Option ℕ
  get_nanoseconds_since_boot w = get_ns w

  -- `sys::sleep_local_us`
  unfoldable pub sleep_local_us : ℕ → List Wake → LocalTimer W → Option (LocalTimer W)
  sleep_local_us us wakes t = LocalApic.sleep_local_us io us wakes t

  -- `usec` is 8 bits wide.
  unfoldable pub stall : ℕ → List Wake → LocalTimer W → Option (LocalTimer W)
  stall usec wakes t = sleep_local_us (usec % 2 ^ 8) wakes t
