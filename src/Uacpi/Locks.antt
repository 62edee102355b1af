-- ===== src/Uacpi/Locks.antt =====
-- Mutexes, spinlocks and the interrupt flag for uACPI (uacpi.rs). A handle is the address of a flag in
-- memory; `none` is a panic.
use titanium.Base.{ℕ, ◌/◌, ◌%◌, ◌≡◌, refl, ap, ◌∙◌, Bool, true, false, Option, none, some}
use titanium.Base.{
  ◌==◌, if◌then◌else◌, arith, check, not, ◌>>=◌, ◌>>◌, ==_refl, ==_iff, sym, Bool-cases, inl, inr,
}
use titanium.Cpu.{interrupts_on, interrupts_off}
use titanium.Uacpi.Ports.{Status, ok}

-- `RFlags` of the `x86_64` crate: `read` drops the bits that it does not know, and `from_bits` fails
-- on them; the interrupt flag, bit 9, it knows.
pub record Rflags : Type 0 where
  pub read : ℕ → ℕ
  pub from_bits : ℕ → Option ℕ
  pub from_bits-read : (x : ℕ) → from_bits (read x) ≡ some (read x)
  pub interrupt_flag-read : (x : ℕ) → read x / 512 % 2 ≡ x / 512 % 2

-- The flags of the processor and the flags behind the handles.
pub record Host : Type 0 where
  pub rflags : ℕ
  pub locked : ℕ → Bool

abbrev pub set_locked : (ℕ → Bool) → ℕ → Bool → ℕ → Bool
set_locked locked handle x h = if handle == h then x else locked h

-- `interrupts::enable()` where the flag of `bits` is set
abbrev pub enable_if : ℕ → Host → Host
enable_if bits s = if bits / 512 % 2 == 1 then record s { rflags = interrupts_on s.rflags } else s

-- `create_mutex` and `create_spinlock`; the handle is the address of the new box.
unfoldable pub create_mutex : ℕ → Host → Host
create_mutex handle s = record s { locked = set_locked s.locked handle false }

unfoldable pub create_spinlock : ℕ → Host → Host
create_spinlock handle s = record s { locked = set_locked s.locked handle false }

-- The timeout is not read: a mutex that is held is a panic.
unfoldable pub acquire_mutex : ℕ → ℕ → Host → Option (Status × Host)
acquire_mutex handle timeout s = do
  check (not (s.locked handle))
  some (ok, record s { locked = set_locked s.locked handle true })

unfoldable pub release_mutex : ℕ → Host → Host
release_mutex handle s = record s { locked = set_locked s.locked handle false }

-- Taking and giving back a lock that was free leaves every lock as it was.
taken-given :
    (locked : ℕ → Bool) (handle h : ℕ)
    → locked handle ≡ false
    → set_locked (set_locked locked handle true) handle false h ≡ locked h
taken-given locked handle h free = elim (Bool-cases (handle == h)) [
  | inl e ↦ rw e (sym free ∙ ap locked ((==_iff _ _).0 e))
  | inr e ↦ rw e refl
]

module _ (flags : Rflags) where
  unfoldable pub disable_interrupts : Host → ℕ × Host
  disable_interrupts s = (flags.read s.rflags, record s { rflags = interrupts_off s.rflags })

  unfoldable pub restore_interrupts : ℕ → Host → Option Host
  restore_interrupts state s = do bits ← flags.from_bits state; some (enable_if bits s)

  unfoldable pub lock_spinlock : ℕ → Host → Option (ℕ × Host)
  lock_spinlock handle s = do
    let bits = flags.read s.rflags
    let s' = record s { rflags = interrupts_off s.rflags }
    check (not (s.locked handle))
    some (bits, record s' { locked = set_locked s.locked handle true })

  unfoldable pub unlock_spinlock : ℕ → ℕ → Host → Option Host
  unlock_spinlock handle state s = do
    bits ← flags.from_bits state
    some (enable_if bits (record s { locked = set_locked s.locked handle false }))

  -- Turning interrupts off and on again by the saved flag restores the flags.
  enable_if-off :
      (x : ℕ) (locked : ℕ → Bool)
      → enable_if (flags.read x) (record { rflags = interrupts_off x; locked = locked })
        ≡ record { rflags = x; locked = locked }
  enable_if-off x locked = elim (Bool-cases (flags.read x / 512 % 2 == 1)) [
    | inl e ↦
        let bit = (==_iff _ _).0 e in
        let same = flags.interrupt_flag-read x in
        let set : interrupts_on (interrupts_off x) ≡ x = ground arith in
        rw e (ap (λ r. record { rflags = r; locked = locked }) set)
    | inr e ↦
        let same = flags.interrupt_flag-read x in
        let clear : interrupts_off x ≡ x = ground arith in
        rw e (ap (λ r. record { rflags = r; locked = locked }) clear)
  ]

  pub restore-disable_interrupts :
      (s : Host) → restore_interrupts (disable_interrupts s).0 (disable_interrupts s).1 ≡ some s
  unfolding disable_interrupts restore_interrupts
  restore-disable_interrupts s =
      rw (flags.from_bits-read s.rflags) (ap some (enable_if-off s.rflags s.locked))

  -- A spinlock that is free is taken, with interrupts off from then on, and a second attempt on it
  -- panics; giving it back with the flags that taking it returned frees it and restores the
  -- processor's flags, and no other lock changes.
  pub unlock-lock_spinlock :
      (handle : ℕ) (s : Host)
      → s.locked handle ≡ false
      → (bits : ℕ) × (s1 : Host) × (s2 : Host) × (lock_spinlock handle s ≡ some (bits, s1))
        × (s1.rflags / 512 % 2 ≡ 0)
        × (lock_spinlock handle s1 ≡ none)
        × (unlock_spinlock handle bits s1 ≡ some s2)
        × (s2.rflags ≡ s.rflags)
        × ((h : ℕ) → s2.locked h ≡ s.locked h)
  unfolding lock_spinlock unlock_spinlock
  unlock-lock_spinlock handle s free =
      let bits = flags.read s.rflags in
      let s1 : Host = record s {
        rflags = interrupts_off s.rflags;
        locked = set_locked s.locked handle true;
      } in
      let given = set_locked s1.locked handle false in
      (
        bits,
        s1,
        record s { locked = given },
        rw free refl,
        ground arith,
        rw (==_refl handle) refl,
        rw (flags.from_bits-read s.rflags) (ap some (enable_if-off s.rflags given)),
        refl,
        λ h. taken-given s.locked handle h free,
      )

-- A mutex that is free is acquired, and is then not acquired again until it is released, whatever the
-- timeout: the attempt panics. After its release all locks are as before.
pub release-acquire_mutex :
    (handle timeout timeout' : ℕ) (s : Host)
    → s.locked handle ≡ false
    → (s1 : Host) × (acquire_mutex handle timeout s ≡ some (ok, s1))
      × (acquire_mutex handle timeout' s1 ≡ none)
      × ((release_mutex handle s1).rflags ≡ s.rflags)
      × ((h : ℕ) → (release_mutex handle s1).locked h ≡ s.locked h)
unfolding acquire_mutex release_mutex
release-acquire_mutex handle timeout timeout' s free = (
  record s { locked = set_locked s.locked handle true },
  rw free refl,
  rw (==_refl handle) refl,
  refl,
  λ h. taken-given s.locked handle h free,
)
