-- ===== src/Vmem.antt =====
-- The memory layout of src/vmem.rs: the page size and the space of the kernel stacks.
use titanium.Base.{ℕ, ◌+◌, ◌*◌}

abbrev pub page_size : ℕ
page_size = 0x1000

abbrev pub kernel_stack_space_bottom_offset : ℕ
kernel_stack_space_bottom_offset = 0x10_0000

abbrev pub large_kernel_stack_pages : ℕ
large_kernel_stack_pages = 5

abbrev pub small_kernel_stack_pages : ℕ
small_kernel_stack_pages = 1

abbrev pub large_kernel_stack_size : ℕ
large_kernel_stack_size = large_kernel_stack_pages * page_size

abbrev pub small_kernel_stack_size : ℕ
small_kernel_stack_size = small_kernel_stack_pages * page_size

abbrev pub n_large_kernel_stacks : ℕ
n_large_kernel_stacks = 16

abbrev pub n_small_kernel_stacks : ℕ
n_small_kernel_stacks = n_large_kernel_stacks * 2

abbrev pub first_large_kernel_stack_top_offset : ℕ
first_large_kernel_stack_top_offset =
    kernel_stack_space_bottom_offset + page_size + large_kernel_stack_size

abbrev pub first_small_kernel_stack_top_offset : ℕ
first_small_kernel_stack_top_offset =
    kernel_stack_space_bottom_offset
    + (page_size + large_kernel_stack_size) * n_large_kernel_stacks
    + page_size
    + small_kernel_stack_size

abbrev pub kernel_stack_space_pages : ℕ
kernel_stack_space_pages =
    n_large_kernel_stacks * (large_kernel_stack_pages + 1)
    + n_small_kernel_stacks * (small_kernel_stack_pages + 1)
    + 1

abbrev pub kernel_stack_space_size : ℕ
kernel_stack_space_size = kernel_stack_space_pages * page_size

abbrev pub kernel_stack_space_top_offset : ℕ
kernel_stack_space_top_offset = kernel_stack_space_bottom_offset + kernel_stack_space_size

abbrev pub heap_start : ℕ
heap_start = 0x1000_0000_0000

abbrev pub heap_size : ℕ
heap_size = 0x100_0000

-- Above the direct map: the scheduler's stack.
abbrev pub scheduler_stack_bottom_offset : ℕ
scheduler_stack_bottom_offset = 0x1_0000

abbrev pub scheduler_stack_size : ℕ
scheduler_stack_size = 4

abbrev pub scheduler_stack_width : ℕ
scheduler_stack_width = scheduler_stack_size + 2

abbrev pub scheduler_stack_top_offset : ℕ
scheduler_stack_top_offset = scheduler_stack_bottom_offset + scheduler_stack_width * page_size

abbrev pub scheduler_sp_offset : ℕ
scheduler_sp_offset = scheduler_stack_bottom_offset + (scheduler_stack_size + 1) * page_size

abbrev pub lapic_addr : ℕ
lapic_addr = 0x1f10_0000_0000

-- With `LocalApic::EOI_OFFSET`
abbrev pub lapic_eoi_addr : ℕ
lapic_eoi_addr = lapic_addr + 0xb0

-- `new_truncate` copies bit 47 into the bits above.
abbrev pub apic_start : ℕ
apic_start = 0xffff_beef_0000_0000

abbrev pub apic_size : ℕ
apic_size = 0x1_0000_0000

abbrev pub hpet_addr : ℕ
hpet_addr = 0x1f10_0100_0000
