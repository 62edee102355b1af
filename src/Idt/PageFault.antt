-- ===== src/Idt/PageFault.antt =====
-- The error code of a page fault (`PageFaultErrorCode` of src/idt.rs), by the `bitfield` crate.
use titanium.Base.{ℕ, ◌+◌, ◌*◌, ◌/◌, ◌%◌, ◌^◌, ◌≤◌, ◌≡◌, refl, ◌∙◌, Bool, true, false, arith, ◌==◌}
use titanium.Hdint.Devices.{BitField}

module _ (f : BitField) where
  abbrev pub is_present : ℕ → Bool
  is_present ec = f.get_bit ec 0

  abbrev pub is_write_access : ℕ → Bool
  is_write_access ec = f.get_bit ec 1

  abbrev pub in_user_ring : ℕ → Bool
  in_user_ring ec = f.get_bit ec 2

  abbrev pub is_reserved_write : ℕ → Bool
  is_reserved_write ec = f.get_bit ec 3

  abbrev pub is_instruction_fetch : ℕ → Bool
  is_instruction_fetch ec = f.get_bit ec 4

  abbrev pub is_protection_key_violation : ℕ → Bool
  is_protection_key_violation ec = f.get_bit ec 5

  abbrev pub is_shadow_stack_access : ℕ → Bool
  is_shadow_stack_access ec = f.get_bit ec 6

  abbrev pub is_sgx_violation : ℕ → Bool
  is_sgx_violation ec = f.get_bit ec 15

-- What the processor's manual puts into the code.
pub record PageFault : Type 0 where
  pub present : Bool
  pub write : Bool
  pub user : Bool
  pub reserved : Bool
  pub fetch : Bool
  pub key : Bool
  pub shadow_stack : Bool
  pub sgx : Bool

abbrev pub flag : Bool → ℕ
flag true = 1
flag false = 0

abbrev pub error_code : PageFault → ℕ
error_code p =
    flag p.present
    + 2 * flag p.write
    + 4 * flag p.user
    + 8 * flag p.reserved
    + 16 * flag p.fetch
    + 32 * flag p.key
    + 64 * flag p.shadow_stack
    + 2 ^ 15 * flag p.sgx

flag-le : (b : Bool) → flag b ≤ 1
flag-le true = omega arith
flag-le false = omega arith

flag_lem : (b : Bool) (n : ℕ) → n ≡ flag b → (n == 1) ≡ b
flag_lem true n e = rw e refl
flag_lem false n e = rw e refl

module _ (f : BitField) (p : PageFault) where
  abbrev Bounds : Type 0
  Bounds =
      (flag p.present ≤ 1)
      × (flag p.write ≤ 1)
      × (flag p.user ≤ 1)
      × (flag p.reserved ≤ 1)
      × (flag p.fetch ≤ 1)
      × (flag p.key ≤ 1)
      × (flag p.shadow_stack ≤ 1)
      × (flag p.sgx ≤ 1)

  all_small : Bounds
  all_small = (
    flag-le p.present,
    flag-le p.write,
    flag-le p.user,
    flag-le p.reserved,
    flag-le p.fetch,
    flag-le p.key,
    flag-le p.shadow_stack,
    flag-le p.sgx,
  )

  read_bit : (i : ℕ) (b : Bool) → error_code p / 2 ^ i % 2 ≡ flag b → f.get_bit (error_code p) i ≡ b
  read_bit i b e = f.get_bit-digit (error_code p) i ∙ flag_lem b (error_code p / 2 ^ i % 2) e

  -- Every flag of a page fault is read as the processor sets it.
  pub error_code_lem :
      let ec = error_code p in
      (is_present f ec ≡ p.present)
      × (is_write_access f ec ≡ p.write)
      × (in_user_ring f ec ≡ p.user)
      × (is_reserved_write f ec ≡ p.reserved)
      × (is_instruction_fetch f ec ≡ p.fetch)
      × (is_protection_key_violation f ec ≡ p.key)
      × (is_shadow_stack_access f ec ≡ p.shadow_stack)
      × (is_sgx_violation f ec ≡ p.sgx)
  error_code_lem =
      let small = all_small in
      (
        read_bit 0 p.present (omega (arith, small)),
        read_bit 1 p.write (omega (arith, small)),
        read_bit 2 p.user (omega (arith, small)),
        read_bit 3 p.reserved (omega (arith, small)),
        read_bit 4 p.fetch (omega (arith, small)),
        read_bit 5 p.key (omega (arith, small)),
        read_bit 6 p.shadow_stack (omega (arith, small)),
        read_bit 15 p.sgx (omega (arith, small)),
      )
