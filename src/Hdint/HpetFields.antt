-- ===== src/Hdint/HpetFields.antt =====
-- The fields of the HPET's registers (hdint/hpet.rs), by the `bitfield` crate.
use titanium.Base.{ℕ, Bool}
use titanium.Hdint.Devices.{BitField}

module _ (f : BitField) where
  -- `Capabilities`, but for the period, which Hpet reads.
  abbrev pub vendor_id : ℕ → ℕ
  vendor_id x = f.get_range x 31 16

  abbrev pub supports_legrep : ℕ → Bool
  supports_legrep x = f.get_bit x 15

  abbrev pub supports_64bit : ℕ → Bool
  supports_64bit x = f.get_bit x 13

  abbrev pub last_timer : ℕ → ℕ
  last_timer x = f.get_range x 12 8

  abbrev pub rev_id : ℕ → ℕ
  rev_id x = f.get_range x 7 0

  -- `Configuration`
  abbrev pub is_legrep_enabled : ℕ → Bool
  is_legrep_enabled x = f.get_bit x 1

  abbrev pub set_legrep_enabled : ℕ → Bool → ℕ
  set_legrep_enabled x v = f.set_bit x 1 v

  abbrev pub is_enabled : ℕ → Bool
  is_enabled x = f.get_bit x 0

  abbrev pub set_enabled : ℕ → Bool → ℕ
  set_enabled x v = f.set_bit x 0 v

  -- `TimerConfig`
  abbrev pub irq_capabilities : ℕ → ℕ
  irq_capabilities x = f.get_range x 63 32

  abbrev pub supports_fsb : ℕ → Bool
  supports_fsb x = f.get_bit x 15

  abbrev pub fsb : ℕ → Bool
  fsb x = f.get_bit x 14

  abbrev pub set_fsb : ℕ → Bool → ℕ
  set_fsb x v = f.set_bit x 14 v

  abbrev pub active_irq : ℕ → ℕ
  active_irq x = f.get_range x 13 9

  abbrev pub set_active_irq : ℕ → ℕ → ℕ
  set_active_irq x v = f.set_range x 13 9 v

  abbrev pub forced_32bit : ℕ → Bool
  forced_32bit x = f.get_bit x 8

  abbrev pub set_32bit : ℕ → Bool → ℕ
  set_32bit x v = f.set_bit x 8 v

  abbrev pub set_cnf : ℕ → Bool → ℕ
  set_cnf x v = f.set_bit x 6 v

  abbrev pub is_64bit : ℕ → Bool
  is_64bit x = f.get_bit x 5

  abbrev pub supports_periodic : ℕ → Bool
  supports_periodic x = f.get_bit x 4

  abbrev pub is_periodic : ℕ → Bool
  is_periodic x = f.get_bit x 3

  abbrev pub set_periodic : ℕ → Bool → ℕ
  set_periodic x v = f.set_bit x 3 v

  abbrev pub is_irq_enabled : ℕ → Bool
  is_irq_enabled x = f.get_bit x 2

  abbrev pub set_irq_enabled : ℕ → Bool → ℕ
  set_irq_enabled x v = f.set_bit x 2 v

  abbrev pub is_level : ℕ → Bool
  is_level x = f.get_bit x 1

  abbrev pub set_level : ℕ → Bool → ℕ
  set_level x v = f.set_bit x 1 v
