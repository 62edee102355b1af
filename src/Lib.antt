-- ===== src/Lib.antt =====
-- Verification of the kernel titanium.
--
-- The parts and how they interact. At boot the frame allocator (src/paging.rs) is filled from the
-- bootloader's memory map (src/limine/memmap.rs). The kernel heap (src/heap.rs, with the list
-- allocator src/heap/ll.rs beside it) stands on memory mapped with those frames. The scheduler
-- (src/scheduler.rs, src/scheduler/waker.rs) keeps a queue of tasks, saves a task that yields or
-- that the local timer preempts, and goes back to the first task of the queue. A new task runs on a
-- stack that the stack manager (src/stack.rs) hands out and maps. Interrupts come in through the
-- descriptor table (src/idt.rs) from the local APIC and the I/O APIC (src/hdint.rs) and the timers
-- behind them (src/hdint/); the overrides of the I/O APIC's inputs stand in a table of ACPI
-- (src/acpi/madt.rs), which the uACPI library reads with what the kernel provides to it
-- (src/uacpi.rs). `kmain` (src/main.rs) brings the parts up one after the other and ends in the
-- scheduler.
--
-- Which file models which part:
-- - Base: numbers, Boolean tests, lists, bit operations and the option monad, where `none` is a
--   panic.
-- - Bitvec: the `bitvec` crate as an interface of operations and laws, with an implementation by
--   functions for the concrete runs.
-- - Util (src/util.rs): BitRange is what the three macros for bit ranges read and write, Masks the
--   lemmas on masks.
-- - X86: the parts of the `x86_64` crate that the code uses, as interfaces, with functions that
--   meet them for the concrete runs; and the tests of `VirtAddr::new` and `align_up`, which panic.
-- - Vmem: the constants of src/vmem.rs. Limine (src/limine.rs, src/limine/): the entries of the
--   memory map; Requests is what the kernel leaves for the bootloader, Responses what it reads of
--   the answers.
-- - Paging (src/paging.rs): Levels is the index arithmetic (in Levels/Index:
--   `absolute_to_relative`, `relative_to_absolute`, `LEVEL_OFFSETS`); Allocator is
--   `allocate_chunk_from_level`, `merge_up_from`, `allocate_frame` and `deallocate_frame` for both
--   sizes, and `pick_off_contiguous`; Init is `new`. Cover says which frames a bit array holds
--   free; Split, Allocate, Merge, Free, Trim, Pick and Init/Marking prove what the operations do to
--   them. Ledger is the allocator over time, as a step relation with the frames that callers hold;
--   it leaves out the freeing of 2 MiB frames, which sets the bit of another frame (see Free).
-- - Mapping: Region is `MapperAllocator::page_region` (src/paging/mapall.rs) on top of that
--   allocator; Clients is the set-up of the heap (`init` of src/heap.rs) and of the scheduler's
--   stack (`make_scheduler_stack` of src/stack.rs). Devices is the mapping of the registers of the
--   local APIC, the I/O APIC and the HPET (src/hdint.rs, src/hdint/hpet.rs), with the crate's mapper
--   as an interface; Pages and Registers prove where they are found.
-- - Heap: Blocks is `FixedSizeBlockAllocator` (src/heap.rs), with the crate `linked_list_allocator`
--   as a parameter; Regions is `LinkedListAllocator` (src/heap/ll.rs); Aligned proves the laws of
--   Blocks, with Classes on which class serves a request and Multiples on alignment.
-- - Stack (src/stack.rs, the layout constants of src/vmem.rs): Manager is `StackManager`,
--   `make_kernel_stack` and the guard pages of `init`; Apart proves that no two stacks touch, and
--   Guarded, with Guards on the list of guard pages, that a guard page is on either side of each.
-- - Cpu: the instructions that the assembly blocks of src/scheduler.rs, src/idt.rs and src/hdint.rs
--   use; Words is memory as the stack sees it, in words of 8 bytes.
-- - Serial (src/serial.rs): `_print` and `debug_dot`; Machine is a step relation of code that prints
--   and handlers that interrupt it, and Whole proves what comes out.
-- - Gdt (src/gdt.rs): the segments that `init` sets up, on the table of the `x86_64` crate.
-- - Scheduler (src/scheduler.rs): Frames has the assembly blocks of `spawn_task`, `release_task`,
--   `scheduler_preempt` and `resume_task`, an instruction for each line; State is the queue and the
--   task records with `resume_scheduler`, `run_scheduler`, `spawn_task` and the rest; HandedOver
--   and Saved prove what a task finds when it goes on, and Order in what order tasks run. TaskIds
--   is the ids. World is a step relation: what tasks and interrupts do to the scheduler over time,
--   with what happened to each task so far; Effects, Conserved, Records and Resumed prove what
--   holds in every state that is reached, and Away and Continued follow a task from where it hands
--   the processor back to where it has it again.
-- - Idt (src/idt.rs): Table is the options, the entries and `load_handler`; Handlers proves what
--   the processor finds in the table; Init is the table that `init` sets up. Wrappers has the
--   entries in assembly, with those of the timers (src/hdint.rs, src/hdint/pit.rs); Returns and
--   Called prove what they leave and what their functions are called with; ErrorCode and PageFault
--   are what the fault handlers print of an error code.
-- - Madt (src/acpi/madt.rs): Entries is the iterator over the records of the table, Layout the
--   fields of the records; Scan proves what the iterator yields, and Fields, Written and Misread
--   hold the fields against the ACPI specification.
-- - Acpi (src/acpi.rs, src/acpi/hpet.rs): the search for a table, and the fields of the HPET's.
-- - Uacpi (src/uacpi.rs): Ports is the port access, the root pointer and the mapping call; Memory
--   the allocation with a size in front of a block; Locks the mutexes, the spinlocks and the
--   interrupt flag; Events the counters; Services (with src/sys.rs) the clock, the pause and the
--   requests; Unimplemented the calls that panic.
-- - Hdint (src/hdint.rs, src/hdint/): Devices has the registers of the devices and the setters of
--   the `bitfield` crate as interfaces; IoApic is `IOApic` and its redirection entries, with
--   Redirection, Override and PitInput on what its operations do to them, and Setup on top for the
--   starts of the timers; Pit is the interval timer and the real-time clock, with Sleep on how long
--   `sleep_us` sleeps; LocalApic is the local timer, Hpet the event timer, with HpetTimers on its
--   timers as the specification has them and Periodic on how one is started. EntryFields and
--   HpetFields are the fields of the bit-field types.
-- - Boot (src/main.rs): Early is the segments and interrupts, Memory the first half of `kmain` up to
--   the heap (with `paging::init`), Screen the icon, Devices the I/O APIC from the MADT, Tasks the
--   end, with `scheduler::init` and `jump_to_scheduler`.
-- - Framebuffer (src/framebuffer.rs, src/framebuffer/font.rs): Galley is `draw_galley_at`, and
--   Placement proves where its glyphs stand; Icon is `draw_icon`, over memory as bytes, and Drawn,
--   Rows and Square prove what it leaves there.
--
-- Bounds and fuel. The bit array has 2 ^ 25 - 2 ^ 9 bits in 16 levels. Loops over levels recurse on
-- the number of levels left. `trim_loop` recurses on fuel 64, one for each bit of a word that its
-- loop clears, which its theorem shows to be enough; the iterator of the MADT on fuel, for which
-- the length of the table and one more is enough. `map_runs` recurses on one more than the number
-- of frames, since every round maps one. The loops that halt recurse on the interrupts to come;
-- that of `PIT::sleep_us` on rounds of them, those before its `hlt` and the one that ends it.
-- Stack pointers are natural numbers, and the theorems on saved frames assume the room that the
-- frames take.
--
-- Not modelled: the page tables (`x86_64` crate), the printing of the fault handlers of src/idt.rs,
-- the handles on ACPI tables (they count references of uACPI), the boxes that src/uacpi.rs frees,
-- the end-of-interrupt that `scheduler_jump_out` of src/scheduler.rs writes on the way from a
-- preempted task to the scheduler, and the steps of `kmain` that only set up one part each. Parts
-- other than Serial leave out what they log, and take locks of the kernel's own to be free. The
-- bootloader's answers are taken to be read as it wrote them. Arithmetic that overflows is a panic,
-- as in the build with debug assertions.
pub mod Base
pub mod Bitvec
pub mod Util
pub mod X86
pub mod Vmem
pub mod Limine
pub mod Paging
pub mod Mapping
pub mod Heap
pub mod Stack
pub mod Cpu
pub mod Serial
pub mod Scheduler
pub mod Gdt
pub mod Idt
pub mod Madt
pub mod Acpi
pub mod Uacpi
pub mod Hdint
pub mod Framebuffer
pub mod Boot
