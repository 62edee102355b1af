-- ===== src/Hdint/Devices.antt =====
-- What the drivers stand on: the setters that the `bitfield` crate makes, and the registers of the
-- devices. Reading a register has no effect here.
use titanium.Base.{ℕ, suc, ◌+◌, ◌-◌, ◌*◌, ◌/◌, ◌%◌, ◌^◌, ◌≤◌, ◌<◌, ◌≡◌, Bool}
use titanium.Base.{◌==◌, if◌then◌else◌}

-- A field that is one bit or a range of bits, written in a word and read from it: its digits are
-- replaced, the others stay.
pub record BitField : Type 0 where
  pub set_bit : ℕ → ℕ → Bool → ℕ
  pub set_range : ℕ → ℕ → ℕ → ℕ → ℕ
  pub get_bit : ℕ → ℕ → Bool
  pub get_range : ℕ → ℕ → ℕ → ℕ
  pub set_bit-replaced :
      (x i : ℕ) (v : Bool)
      → set_bit x i v ≡ x / 2 ^ suc i * 2 ^ suc i + (if v then 2 ^ i else 0) + x % 2 ^ i
  pub set_range-replaced :
      (x msb lsb v : ℕ)
      → lsb ≤ msb
      → v < 2 ^ (msb - lsb + 1)
      → set_range x msb lsb v ≡ x / 2 ^ suc msb * 2 ^ suc msb + v * 2 ^ lsb + x % 2 ^ lsb
  pub get_bit-digit : (x i : ℕ) → get_bit x i ≡ (x / 2 ^ i % 2 == 1)
  pub get_range-digits :
      (x msb lsb : ℕ) → lsb ≤ msb → get_range x msb lsb ≡ x / 2 ^ lsb % 2 ^ (msb - lsb + 1)

-- The registers of an I/O APIC, 32 bits each, behind its index register and its window. The window
-- keeps what it is given, as long as the two read-only bits of a redirection entry, delivery status
-- and remote IRR, are what they were.
pub record IoApicDevice (W : Type 0) : Type 0 where
  pub reg : W → ℕ → ℕ
  pub select : W → ℕ → W
  pub window_read : W → ℕ
  pub window_write : W → ℕ → W
  pub reg_lt : (w : W) (q : ℕ) → reg w q < 2 ^ 32
  pub reg-select : (w : W) (r q : ℕ) → reg (select w r) q ≡ reg w q
  pub window_read-select : (w : W) (r : ℕ) → window_read (select w r) ≡ reg w r
  pub reg-window_write :
      (w : W) (r x q : ℕ)
      → x < 2 ^ 32
      → x / 2 ^ 12 % 2 ≡ reg w r / 2 ^ 12 % 2
      → x / 2 ^ 14 % 2 ≡ reg w r / 2 ^ 14 % 2
      → reg (window_write (select w r) x) q ≡ (if r == q then x else reg w q)

-- Registers in memory, read and written as a whole.
pub record Mmio (W : Type 0) : Type 0 where
  pub read : W → ℕ → ℕ
  pub write : W → ℕ → ℕ → W

-- An interrupt, by what its handler counts.
pub data Wake : Type 0 where
  pit lapic_clk other : Wake
