-- ===== src/Serial.antt =====
-- The serial port (src/serial.rs): what is printed, under a lock and with interrupts off. The port of
-- the `uart_16550` crate takes bytes one after the other; `none` is a lock that is spun on for good.
pub mod Machine
pub mod Whole
pub mod Tests
use titanium.Base.{ℕ, Bool, true, false, Option, none, some, List, [], ◌∷◌, ◌++◌, if◌then◌else◌}
use titanium.Base.{check, not, ◌>>=◌, ◌>>◌}

-- The processor's interrupt flag, the lock `SERIAL1`, and what the port was given.
pub record Port : Type 0 where
  pub interrupts : Bool
  pub locked : Bool
  pub written : List ℕ

-- `_print` up to the lock, with `reenable`.
unfoldable pub print_begin : Port → Option (Bool × Port)
print_begin s = do
  let reenable = s.interrupts
  let s' = record s { interrupts = false }
  check (not s'.locked)
  some (reenable, record s' { locked = true })

abbrev pub write_char : ℕ → Port → Port
write_char c s = record s { written = s.written ++ c ∷ [] }

-- `write_fmt`; the message is its bytes.
unfoldable pub write_fmt : List ℕ → Port → Port
write_fmt [] s = s
write_fmt (c ∷ args) s = write_fmt args (write_char c s)

-- The end of `_print`: the lock's guard is dropped, then the flag is restored.
unfoldable pub print_end : Bool → Port → Port
print_end reenable s =
    if reenable then record s { locked = false; interrupts = true } else record s { locked = false }

unfoldable pub print : List ℕ → Port → Option Port
print args s = do (reenable, s1) ← print_begin s; some (print_end reenable (write_fmt args s1))

-- `serial_println!`, with the line feed.
abbrev pub println : List ℕ → Port → Option Port
println args s = print (args ++ 10 ∷ []) s

-- `debug_dot` only tries the lock.
unfoldable pub debug_dot : Port → Port
debug_dot s = if s.locked then s else write_char 46 s
