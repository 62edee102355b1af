-- ===== src/Uacpi/Ports.antt =====
-- Port access and the root pointer (uacpi.rs, with `vmem::init`). The port instructions are a
-- parameter; `none` is a panic, which an addition that overflows is too.
use titanium.Base.{ℕ, ◌+◌, ◌-◌, ◌^◌, ◌≤◌, ◌<◌, ◌≡◌, refl, Option, none, some}
use titanium.Base.{
  ltb, leb, lt→ltb, le→leb, check, ◌>>◌, true, if◌then◌else◌, arith, ◌>>=◌, ◌⊎◌, inl, inr,
  Bool-cases, ltb→lt,
}
use titanium.X86.{Ports, is_canonical}
use titanium.Paging.Levels.{max_phys_map}

pub data Status : Type 0 where
  ok invalid_argument : Status

-- `a + b` on `usize`
abbrev pub checked_add : ℕ → ℕ → Option ℕ
checked_add a b = if ltb (a + b) (2 ^ 64) then some (a + b) else none

module _ {W : Type 0} (io : Ports W) where
  -- The handle of a range of ports is its base.
  unfoldable pub io_map : ℕ → Status × ℕ
  io_map base = (ok, base)

  -- The second part of a result is what was written to `out_value`.
  unfoldable pub io_read8 : ℕ → ℕ → W → Option (Status × Option ℕ × W)
  io_read8 handle offset w = do
    port_num ← checked_add handle offset
    if ltb 0xffff port_num
        then some (invalid_argument, none, w)
        else (let (value, w') = io.in8 port_num w in some (ok, some value, w'))

  unfoldable pub io_read16 : ℕ → ℕ → W → Option (Status × Option ℕ × W)
  io_read16 handle offset w = do
    port_num ← checked_add handle offset
    if ltb 0xffff port_num
        then some (invalid_argument, none, w)
        else (let (value, w') = io.in16 port_num w in some (ok, some value, w'))

  unfoldable pub io_read32 : ℕ → ℕ → W → Option (Status × Option ℕ × W)
  io_read32 handle offset w = do
    port_num ← checked_add handle offset
    if ltb 0xffff port_num
        then some (invalid_argument, none, w)
        else (let (value, w') = io.in32 port_num w in some (ok, some value, w'))

  unfoldable pub io_write8 : ℕ → ℕ → ℕ → W → Option (Status × W)
  io_write8 handle offset in_value w = do
    port_num ← checked_add handle offset
    if ltb 0xffff port_num
        then some (invalid_argument, w)
        else some (ok, io.out8 port_num in_value w)

  unfoldable pub io_write16 : ℕ → ℕ → ℕ → W → Option (Status × W)
  io_write16 handle offset in_value w = do
    port_num ← checked_add handle offset
    if ltb 0xffff port_num
        then some (invalid_argument, w)
        else some (ok, io.out16 port_num in_value w)

  unfoldable pub io_write32 : ℕ → ℕ → ℕ → W → Option (Status × W)
  io_write32 handle offset in_value w = do
    port_num ← checked_add handle offset
    if ltb 0xffff port_num
        then some (invalid_argument, w)
        else some (ok, io.out32 port_num in_value w)

  -- What a read has to return at an offset from a base, given the instruction.
  abbrev pub ReadsPort :
      (ℕ → W → ℕ × W) → (ℕ → ℕ → W → Option (Status × Option ℕ × W)) → ℕ → ℕ → W → Type 0
  ReadsPort instr read base offset w =
      ((base + offset ≤ 0xffff)
        × (read (io_map base).1 offset w
            ≡ some (ok, some (instr (base + offset) w).0, (instr (base + offset) w).1)))
      ⊎ ((0xffff < base + offset)
          × (read (io_map base).1 offset w ≡ some (invalid_argument, none, w)))

  abbrev pub WritesPort :
      (ℕ → ℕ → W → W) → (ℕ → ℕ → ℕ → W → Option (Status × W)) → ℕ → ℕ → ℕ → W → Type 0
  WritesPort instr write base offset x w =
      ((base + offset ≤ 0xffff)
        × (write (io_map base).1 offset x w ≡ some (ok, instr (base + offset) x w)))
      ⊎ ((0xffff < base + offset) × (write (io_map base).1 offset x w ≡ some (invalid_argument, w)))

  -- Through the handle of a mapped range, where base and offset add up on 64 bits, each of the six
  -- accesses returns normally: it reaches exactly the port at base plus offset if there is one, with
  -- the instruction of its width, and otherwise reports an invalid argument and touches no port.
  pub io_lem :
      (base offset x : ℕ) (w : W)
      → base + offset < 2 ^ 64
      → ReadsPort io.in8 io_read8 base offset w
        × ReadsPort io.in16 io_read16 base offset w
        × ReadsPort io.in32 io_read32 base offset w
        × WritesPort io.out8 io_write8 base offset x w
        × WritesPort io.out16 io_write16 base offset x w
        × WritesPort io.out32 io_write32 base offset x w
  unfolding io_map io_read8 io_read16 io_read32 io_write8 io_write16 io_write32
  io_lem base offset x w small = elim (Bool-cases (ltb 0xffff (base + offset))) [
    | inl above ↦
        let fits = lt→ltb (base + offset) (2 ^ 64) small in
        let far = ltb→lt 0xffff (base + offset) above in
        (
          inr (far, rw (fits, above) refl),
          inr (far, rw (fits, above) refl),
          inr (far, rw (fits, above) refl),
          inr (far, rw (fits, above) refl),
          inr (far, rw (fits, above) refl),
          inr (far, rw (fits, above) refl),
        )
    | inr within ↦
        let fits = lt→ltb (base + offset) (2 ^ 64) small in
        let near : base + offset ≤ 0xffff = ground arith in
        (
          inl (near, rw (fits, within) refl),
          inl (near, rw (fits, within) refl),
          inl (near, rw (fits, within) refl),
          inl (near, rw (fits, within) refl),
          inl (near, rw (fits, within) refl),
          inl (near, rw (fits, within) refl),
        )
  ]

-- The addresses that `vmem::init` keeps; the bootloader's answers are its arguments. `none` is a
-- subtraction below 0, or an address that `VirtAddr::new` or `PhysAddr::new` refuses, alone or as a
-- sum.
pub record Addresses : Type 0 where
  pub hhdm_addr : ℕ
  pub hhdm_top_addr : ℕ
  pub rsdp_addr : ℕ

unfoldable pub vmem_init : ℕ → ℕ → Option Addresses
vmem_init hhdm_offset rsdp_addr = do
  check (is_canonical hhdm_offset)
  hhdm_top ← checked_add hhdm_offset max_phys_map
  check (is_canonical hhdm_top)
  check (leb hhdm_offset rsdp_addr)
  check (ltb (rsdp_addr - hhdm_offset) (2 ^ 52))
  some (record {
    hhdm_addr = hhdm_offset;
    hhdm_top_addr = hhdm_top;
    rsdp_addr = rsdp_addr - hhdm_offset;
  })

-- A direct map whose first address and end `VirtAddr` takes, and a root pointer that is that of a
-- physical address.
abbrev pub IsMap : ℕ → ℕ → Type 0
IsMap hhdm rsdp =
    (is_canonical hhdm ≡ true)
    × (hhdm + max_phys_map < 2 ^ 64)
    × (is_canonical (hhdm + max_phys_map) ≡ true)
    × (hhdm ≤ rsdp)
    × (rsdp < hhdm + 2 ^ 52)

pub vmem_init-IsMap :
    (hhdm rsdp : ℕ)
    → IsMap hhdm rsdp
    → vmem_init hhdm rsdp
      ≡ some (record {
        hhdm_addr = hhdm;
        hhdm_top_addr = hhdm + max_phys_map;
        rsdp_addr = rsdp - hhdm;
      })
unfolding vmem_init
vmem_init-IsMap hhdm rsdp (start, fits, end, inside, near) =
    rw
      (
        start,
        lt→ltb (hhdm + max_phys_map) (2 ^ 64) fits,
        end,
        le→leb hhdm rsdp inside,
        lt→ltb (rsdp - hhdm) (2 ^ 52) (omega arith),
      )
      refl

unfoldable pub get_rsdp : Addresses → Status × ℕ
get_rsdp a = (ok, a.rsdp_addr)

-- `kernel_map` adds the offset of the direct map; `len` is not read.
unfoldable pub kernel_map : ℕ → ℕ → ℕ → Option ℕ
kernel_map hhdm_offset addr len = checked_add addr hhdm_offset

-- The root pointer that the bootloader reports inside the direct map, handed to uACPI as a physical
-- address and mapped by it for any length, is the address that the bootloader reported.
pub kernel_map-get_rsdp :
    (hhdm_offset rsdp len : ℕ)
    → IsMap hhdm_offset rsdp
    → rsdp < 2 ^ 64
    → (a : Addresses) × (vmem_init hhdm_offset rsdp ≡ some a)
      × (kernel_map hhdm_offset (get_rsdp a).1 len ≡ some rsdp)
unfolding get_rsdp kernel_map
kernel_map-get_rsdp hhdm rsdp len direct small =
    let back : rsdp - hhdm + hhdm ≡ rsdp = omega (arith, direct.3) in
    (
      record { hhdm_addr = hhdm; hhdm_top_addr = hhdm + max_phys_map; rsdp_addr = rsdp - hhdm },
      vmem_init-IsMap hhdm rsdp direct,
      rw (back, lt→ltb rsdp (2 ^ 64) small) refl,
    )
