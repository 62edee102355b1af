-- ===== src/Boot/Tests.antt =====
-- Runs of the theorems on the boot.
use titanium.Base.{◌+◌, ◌-◌, ◌%◌, ◌<◌}
use titanium.Base.{ℕ, ◌≡◌, ◌≢◌, refl, true, List, [], ◌∷◌, ◌++◌, Option, none, some, leb, arith}
use titanium.Base.{if◌then◌else◌, length, le→leb, inl, inr}
use titanium.Gdt.{
  GlobalDescriptorTable, Descriptor, null, slots, Segments, kernel_code_segment,
  kernel_data_segment, tss_segment, described,
}
use titanium.Idt.Table.{Table}
use titanium.Idt.Init.{vectors, handler_of, Installed}
use titanium.Idt.Tests.{addresses, addresses_fit}
use titanium.Scheduler.Frames.{kernel_cs, kernel_ss}
use titanium.Scheduler.State.{
  Kernel, Next, running, TaskInfo, yielded, preempted, spawn_task, start_scheduler, run_scheduler,
  resume_task, resume_scheduler, requeue, mark_interrupted, resume_kind, make_task_id,
}
use titanium.Scheduler.Order.{order, done, turn}
use titanium.Scheduler.Tests.{labels, processor, list_queue, kernel_of}
use titanium.Util.BitRange.{bit_range}
use titanium.Hdint.IoApic.{
  ApicIrqPolarity, ApicIrqTrigger, polarity, trigger, to_polarity, to_trigger,
}
use titanium.Hdint.Tests.{Registers, fields, file, masked}
use titanium.Madt.Fields.{table_bytes}
use titanium.Madt.WrittenTests.{ioapic0, firmware, memory, firmware_fits-AllFit, firmware_laid}
use titanium.Vmem.{page_size}
use titanium.X86.{rounding_down, page_table_flags}
use titanium.Mapping.Devices.{MappedIoApic, apic_mapping_size}
use titanium.Mapping.Pages.{physical}
use titanium.Mapping.DeviceTests.{Tables, tables, start}
use titanium.Boot.Devices.{init_io_apic, init_io_apic_lem, routed}
use titanium.Boot.Early.{early_init, early_init_lem}
use titanium.Boot.Tasks.{
  BootTasks, run_tasks, scheduler_init, jump_to_scheduler, boot_kernel, run_tasks-running,
  run_tasks-alternate,
}

not_reserved_polarity : polarity 0 ≢ ApicIrqPolarity.reserved
unfolding polarity to_polarity bit_range
not_reserved_polarity e = cc

not_reserved_trigger : trigger 0 ≢ ApicIrqTrigger.reserved
unfolding trigger to_trigger bit_range
not_reserved_trigger e = cc

abbrev pub append_entry : List Descriptor → Descriptor → Option (List Descriptor)
append_entry g d = if leb (length (g ++ slots d)) 8 then some (g ++ slots d) else none

abbrev pub list_gdt : GlobalDescriptorTable (List Descriptor)
list_gdt = record {
  entries = λ g. g;
  new = null ∷ [];
  append = append_entry;
  entries-new = refl;
  entries-append = λ g d room. (g ++ slots d, rw (le→leb _ 8 room) refl, refl);
}

early_init_lem_example :
    (g : List Descriptor) × (segments : Segments) × (idt : Table) × (early_init list_gdt addresses
      ≡ some (g, segments, idt))
    × (segments.cs ≡ kernel_cs)
    × (segments.ss ≡ kernel_ss)
    × (described list_gdt g kernel_cs ≡ some kernel_code_segment)
    × (described list_gdt g kernel_ss ≡ some kernel_data_segment)
    × (described list_gdt g segments.tr ≡ some tss_segment)
    × ((i : ℕ) → Installed kernel_cs (idt.entries i) (handler_of (vectors addresses) i))
    × (idt.interrupts ≡ true)
early_init_lem_example = early_init_lem list_gdt addresses addresses_fit

abbrev boot : BootTasks
boot = record {
  labels = labels;
  hhdm_top = 65536;
  scheduler_task = 1;
  greedy_task = 2048;
  coop_task = 3072;
  greedy_stack = some 4096;
  coop_stack = some 8192;
  greedy_info = 5;
  coop_info = 6;
}

abbrev no_tasks : ℕ → TaskInfo
no_tasks p = record { sp = 0; task_id = 0; flags = 0; wake_on_end = 0 }

abbrev sets_zero : ℕ → ℕ
sets_zero flags = 70

boots :
    (k' : Kernel (List ℕ)) × (run_tasks list_queue sets_zero boot
        (boot_kernel processor no_tasks [])
      ≡ some (running k'))
    × (order list_queue k' ≡ 5 ∷ 6 ∷ [])
    × (k'.current_task ≡ 5)
    × (k'.timer ≡ some 1_000_000)
boots = run_tasks-running list_queue sets_zero boot processor no_tasks [] 4096 8192 refl refl refl

abbrev kernel_after : Option (Next (List ℕ)) → Kernel (List ℕ)
kernel_after none = boot_kernel processor no_tasks []
kernel_after (some n) = kernel_of n

abbrev booted_kernel : Kernel (List ℕ)
booted_kernel =
    kernel_after (run_tasks list_queue sets_zero boot (boot_kernel processor no_tasks []))

-- The greedy task is preempted, then the cooperative one yields, and the greedy one is preempted.
abbrev kernel1 : Kernel (List ℕ)
kernel1 = kernel_of (resume_scheduler list_queue 3000 2 booted_kernel)

abbrev kernel2 : Kernel (List ℕ)
kernel2 = kernel_of (resume_scheduler list_queue 7000 1 kernel1)

abbrev kernel3 : Kernel (List ℕ)
kernel3 = kernel_of (resume_scheduler list_queue 3200 2 kernel2)

yields : resume_kind 1 ≡ yielded
unfolding resume_kind
yields = refl

preempts : resume_kind 2 ≡ preempted
unfolding resume_kind
preempts = refl

run_tasks-alternate_example : order list_queue kernel3 ≡ 6 ∷ 5 ∷ []
unfolding run_tasks scheduler_init spawn_task jump_to_scheduler start_scheduler run_scheduler
    resume_task resume_scheduler requeue mark_interrupted resume_kind make_task_id
run_tasks-alternate_example =
    run_tasks-alternate list_queue sets_zero boot processor no_tasks [] 4096 8192 3 booted_kernel
      kernel3 refl refl refl refl
      (turn {k' = kernel1} 3000 2 (inr preempts) refl (
        turn {k' = kernel2} 7000 1 (inl yields) refl
          (turn {k' = kernel3} 3200 2 (inr preempts) refl (done kernel3))))

init_io_apic_lem_example :
    (a : MappedIoApic) × (next' : ℕ) × (s' : Tables) × (w' : Registers) × (init_io_apic fields file
        tables rounding_down page_table_flags 67
        (memory (table_bytes firmware))
        0
        66
        0
        start
        masked
      ≡ some (a, next', s', w'))
    × (a.controller.id ≡ 0)
    × ((i : ℕ) → a.controller.irqs i ≡ routed i i firmware)
    × (ioapic0.address % page_size + apic_mapping_size < next' - 0)
    × ((i : ℕ)
        → ioapic0.address % page_size + i < next' - 0
        → physical tables rounding_down page_table_flags s' (a.base + i)
          ≡ some (ioapic0.address + i))
init_io_apic_lem_example =
    init_io_apic_lem fields file tables rounding_down page_table_flags
      (memory (table_bytes firmware)) 0 66 firmware ioapic0 0 start masked firmware_fits-AllFit
      firmware_laid refl refl
      (omega arith, omega arith, not_reserved_polarity, not_reserved_trigger, tt) refl (omega arith)
      (λ j b. refl) (omega arith)
