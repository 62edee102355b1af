-- ===== src/Uacpi/Tests.antt =====
-- Runs of the theorems on what uACPI gets: a machine whose ports count the accesses, a heap that does
-- not run out, and flags that are all known.
use titanium.Base.{ℕ, suc, ◌+◌, ◌-◌, ◌/◌, ◌%◌, ◌^◌, ◌≤◌, ◌≡◌, refl}
use titanium.Base.{List, [], ◌∷◌, none, some, false, arith}
use titanium.X86.{Ports}
use titanium.Heap.Blocks.{BlockAllocator, alloc, list_index, fallback_alloc, dealloc}
use titanium.Heap.Tests.{counter_heap, fresh}
use titanium.Uacpi.Ports.{
  ReadsPort, WritesPort, io_read8, io_read16, io_read32, io_write8, io_write16, io_write32, io_lem,
}
use titanium.Uacpi.Memory.{kernel_alloc, kernel_free, header_layout, kernel_free-alloc}
use titanium.Uacpi.Locks.{Rflags, Host, lock_spinlock, unlock_spinlock, unlock-lock_spinlock}
use titanium.Uacpi.Events.{
  EventCall, wait, signal, reset, run_events, run_semaphore, run_events-semaphore,
}

abbrev counting : Ports ℕ
counting = record {
  in8 = λ p w. (p % 2 ^ 8, suc w);
  in16 = λ p w. (p, suc w);
  in32 = λ p w. (p, suc w);
  out8 = λ p x w. w + x;
  out16 = λ p x w. w + x;
  out32 = λ p x w. w + x;
}

io_lem_run :
    ReadsPort counting counting.in8 (io_read8 counting) 0x60 4 7
    × ReadsPort counting counting.in16 (io_read16 counting) 0x60 4 7
    × ReadsPort counting counting.in32 (io_read32 counting) 0x60 4 7
    × WritesPort counting counting.out8 (io_write8 counting) 0x60 4 5 7
    × WritesPort counting counting.out16 (io_write16 counting) 0x60 4 5 7
    × WritesPort counting counting.out32 (io_write32 counting) 0x60 4 5 7
io_lem_run = io_lem counting 0x60 4 5 7 (omega arith)

abbrev zeroes : ℕ → ℕ
zeroes b = 0

abbrev taken : ℕ × (ℕ → ℕ) × BlockAllocator ℕ
taken = kernel_alloc counter_heap 40 zeroes fresh

taken_address : taken.0 ≡ 200
unfolding kernel_alloc alloc list_index fallback_alloc
taken_address = refl

kernel_free-alloc_example :
    (a2 : BlockAllocator ℕ) × (kernel_free counter_heap taken.0 taken.1 taken.2 ≡ some a2)
    × (dealloc counter_heap (taken.0 - 8) (header_layout 40) taken.2 ≡ some a2)
    × (40 + 8 ≤ 2048 → (kernel_alloc counter_heap 40 taken.1 a2).0 ≡ taken.0)
kernel_free-alloc_example =
    kernel_free-alloc counter_heap 40 zeroes taken.1 fresh (rw taken_address (omega arith)) refl

abbrev all_known : Rflags
all_known = record {
  read = λ x. x;
  from_bits = λ x. some x;
  from_bits-read = λ x. refl;
  interrupt_flag-read = λ x. refl;
}

abbrev running : Host
running = record { rflags = 0x202; locked = λ h. false }

unlock-lock_spinlock_example :
    (bits : ℕ) × (s1 : Host) × (s2 : Host) × (lock_spinlock all_known 64 running ≡ some (bits, s1))
    × (s1.rflags / 512 % 2 ≡ 0)
    × (lock_spinlock all_known 64 s1 ≡ none)
    × (unlock_spinlock all_known 64 bits s1 ≡ some s2)
    × (s2.rflags ≡ running.rflags)
    × ((h : ℕ) → s2.locked h ≡ running.locked h)
unlock-lock_spinlock_example = unlock-lock_spinlock all_known 64 running refl

abbrev traffic : List EventCall
traffic = signal ∷ wait 5 ∷ signal ∷ signal ∷ reset ∷ wait 0 ∷ []

run_events-semaphore_example : run_events traffic 2 ≡ run_semaphore traffic 2
run_events-semaphore_example = run_events-semaphore traffic 2 (omega arith)
