-- ===== src/Limine/Responses.antt =====
-- What the kernel reads of the bootloader's answers (src/limine.rs, src/limine/memmap.rs,
-- src/limine/execaddrs.rs, src/vmem.rs), over memory as 64-bit words by their addresses.
use titanium.Base.{ℕ, zero, suc, ◌+◌, ◌≡◌, ◌≢◌, refl}
use titanium.Base.{
  List, [], ◌∷◌, Option, none, some, length, map, ◌==◌, ==_ne, if◌then◌else◌, ◌>>=◌,
}
use titanium.Limine.{
  MemmapType, MemmapEntry, usable, reserved, acpi_reclaimable, acpi_nvs, bad_memory,
  bootloader_reclaimable, executable_and_modules, framebuffer, reserved_mapped,
}
use titanium.Limine.Requests.{RequestHeader, PagingModeRequest, PagingMode, l4, l5}

-- The number of a type, and the type of a number; others are no value of the enum.
abbrev pub type_bits : MemmapType → ℕ
type_bits usable = 0
type_bits reserved = 1
type_bits acpi_reclaimable = 2
type_bits acpi_nvs = 3
type_bits bad_memory = 4
type_bits bootloader_reclaimable = 5
type_bits executable_and_modules = 6
type_bits framebuffer = 7
type_bits reserved_mapped = 8

abbrev pub to_type : ℕ → Option MemmapType
to_type zero = some usable
to_type (suc zero) = some reserved
to_type (suc (suc zero)) = some acpi_reclaimable
to_type (suc (suc (suc zero))) = some acpi_nvs
to_type (suc (suc (suc (suc zero)))) = some bad_memory
to_type (suc (suc (suc (suc (suc zero))))) = some bootloader_reclaimable
to_type (suc (suc (suc (suc (suc (suc zero)))))) = some executable_and_modules
to_type (suc (suc (suc (suc (suc (suc (suc zero))))))) = some framebuffer
to_type (suc (suc (suc (suc (suc (suc (suc (suc zero)))))))) = some reserved_mapped
to_type _ = none

module _ (mem : ℕ → ℕ) where
  -- `slice::from_raw_parts` of pointers.
  unfoldable pub slice : ℕ → ℕ → List ℕ
  slice zero p = []
  slice (suc n) p = mem p ∷ slice n (p + 8)

  unfoldable pub read_entry : ℕ → Option MemmapEntry
  read_entry p = do
    ty ← to_type (mem (p + 16))
    some (record { base = mem p; length = mem (p + 8); ty = ty })

  unfoldable pub read_entries : List ℕ → Option (List MemmapEntry)
  read_entries [] = some []
  read_entries (p ∷ ps) = do e ← read_entry p; es ← read_entries ps; some (e ∷ es)

  -- `memmap_entries`: `none` without an answer; what the pointers point to is read later, so its inner
  -- `none` is a type that is no value of the enum.
  unfoldable pub memmap_entries : RequestHeader → Option (Option (List MemmapEntry))
  memmap_entries r =
      if r.response == 0
      then none
      else some (read_entries (slice (mem (r.response + 8)) (mem (r.response + 16))))

  -- `framebuffers`: the addresses of the frame buffers.
  unfoldable pub framebuffers : RequestHeader → Option (List ℕ)
  framebuffers r =
      if r.response == 0 then none else some (slice (mem (r.response + 8)) (mem (r.response + 16)))

  -- These do not look whether there is an answer.
  unfoldable pub paging_mode : PagingModeRequest → Option PagingMode
  paging_mode r =
      let bits = mem (r.header.response + 8) in
      if bits == 0 then some l4 else (if bits == 1 then some l5 else none)

  unfoldable pub hhdm_offset : RequestHeader → ℕ
  hhdm_offset r = mem (r.response + 8)

  unfoldable pub rsdp_addr : RequestHeader → ℕ
  rsdp_addr r = mem (r.response + 8)

  unfoldable pub exec_phys_addr : RequestHeader → ℕ
  exec_phys_addr r = mem (r.response + 8)

  unfoldable pub exec_virt_addr : RequestHeader → ℕ
  exec_virt_addr r = mem (r.response + 16)

  -- Pointers that lie one after the other.
  abbrev pub Pointers : ℕ → List ℕ → Type 0
  Pointers a [] = Unit {0}
  Pointers a (p ∷ ps) = (mem a ≡ p) × Pointers (a + 8) ps

  -- Each entry of a memory map is at its pointer.
  abbrev pub Entries : List (ℕ × MemmapEntry) → Type 0
  Entries [] = Unit {0}
  Entries ((p, e) ∷ l) =
      (mem p ≡ e.base) × (mem (p + 8) ≡ e.length) × (mem (p + 16) ≡ type_bits e.ty) × Entries l

  -- The bootloader's answer with a count and the address of the pointers.
  abbrev pub Answered : RequestHeader → List ℕ → Type 0
  Answered r ps =
      (r.response ≢ 0) × (mem (r.response + 8) ≡ length ps) × Pointers (mem (r.response + 16)) ps

  slice-Pointers : (ps : List ℕ) (a : ℕ) → Pointers a ps → slice (length ps) a ≡ ps
  unfolding slice
  slice-Pointers [] a w = refl
  slice-Pointers (p ∷ ps) a w = rw (w.0, slice-Pointers ps (a + 8) w.1) refl

  to_type-type_bits : (ty : MemmapType) → to_type (type_bits ty) ≡ some ty
  to_type-type_bits usable = refl
  to_type-type_bits reserved = refl
  to_type-type_bits acpi_reclaimable = refl
  to_type-type_bits acpi_nvs = refl
  to_type-type_bits bad_memory = refl
  to_type-type_bits bootloader_reclaimable = refl
  to_type-type_bits executable_and_modules = refl
  to_type-type_bits framebuffer = refl
  to_type-type_bits reserved_mapped = refl

  read_entries-Entries :
      (l : List (ℕ × MemmapEntry))
      → Entries l
      → read_entries (map (λ x. x.0) l) ≡ some (map (λ x. x.1) l)
  unfolding read_entries read_entry
  read_entries-Entries [] w = refl
  read_entries-Entries ((p, e) ∷ l) w =
      rw (w.0, w.1, w.2, to_type-type_bits e.ty, read_entries-Entries l w.3) refl

  -- A memory map that the bootloader hands over is read as it is, entry by entry; without an answer
  -- there is none.
  pub memmap_entries-Answered :
      (r r' : RequestHeader) (l : List (ℕ × MemmapEntry))
      → Answered r (map (λ x. x.0) l)
      → Entries l
      → r'.response ≡ 0
      → (memmap_entries r ≡ some (some (map (λ x. x.1) l))) × (memmap_entries r' ≡ none)
  unfolding memmap_entries
  memmap_entries-Answered r r' l (there, count, pointers) w null = (
    rw
        (
          ==_ne r.response 0 there,
          count,
          slice-Pointers (map (λ x. x.0) l) _ pointers,
          read_entries-Entries l w,
        )
        refl,
    rw null refl,
  )

  -- The same of the frame buffers' addresses.
  pub framebuffers-Answered :
      (r r' : RequestHeader) (ps : List ℕ)
      → Answered r ps
      → r'.response ≡ 0
      → (framebuffers r ≡ some ps) × (framebuffers r' ≡ none)
  unfolding framebuffers
  framebuffers-Answered r r' ps (there, count, pointers) null =
      (rw (==_ne r.response 0 there, count, slice-Pointers ps _ pointers) refl, rw null refl)
