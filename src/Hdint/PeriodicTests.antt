-- ===== src/Hdint/PeriodicTests.antt =====
-- An HPET with periodic timers that can raise interrupt 2, started for a millisecond.
use titanium.Base.{
  ℕ, ◌+◌, ◌-◌, ◌*◌, ◌/◌, ◌%◌, ◌^◌, ◌≡◌, refl, sym, ap, ◌∙◌, subst, true, false, Bool, none, some,
  ◌==◌, if◌then◌else◌, arith, ◌⊎◌, ==_ne, ==_refl,
}
use titanium.Hdint.HpetFields.{active_irq, is_irq_enabled, is_periodic, is_enabled}
use titanium.Hdint.Hpet.{
  timer, comparator, disable, counter, enable_timer, configuration, capabilities,
}
use titanium.Hdint.HpetTimers.{HpetDevice}
use titanium.Hdint.Periodic.{enable_timer_lem}
use titanium.Hdint.Tests.{fields}

record Chip : Type 0 where
  conf : ℕ
  caps : ℕ
  count : ℕ
  config : ℕ → ℕ
  next : ℕ → ℕ
  period : ℕ → ℕ

abbrev put : (ℕ → ℕ) → ℕ → ℕ → ℕ → ℕ
put g i v j = if i == j then v else g j

abbrev compared : Chip → ℕ → ℕ → Bool → Chip
compared c i v true = record c {
  next = put c.next i v;
  config = put c.config i (c.config i - 2 ^ 6);
}
compared c i v false = record c { period = put c.period i v }

abbrev read : Chip → ℕ → ℕ
read c a =
    if a == 0x10
    then c.conf
    else (if a == 0 then c.caps else (if a == 0xf0 then c.count else c.config ((a - 0x100) / 0x20)))

abbrev write : Chip → ℕ → ℕ → Chip
write c a v =
    if a == 0x10
    then record c { conf = v }
    else (if a % 0x20 == 0
        then record c { config = put c.config ((a - 0x100) / 0x20) v }
        else (let i = (a - 0x100) / 0x20 in compared c i v (c.config i / 2 ^ 6 % 2 == 1)))

read-timer : (c : Chip) (i : ℕ) → read c (timer i) ≡ c.config i
read-timer c i =
    let same : (timer i - 0x100) / 0x20 ≡ i = omega arith in
    rw
      (
        ==_ne (timer i) 0x10 (omega arith),
        ==_ne (timer i) 0 (omega arith),
        ==_ne (timer i) 0xf0 (omega arith),
        same,
      )
      refl

write-timer : (c : Chip) (i v : ℕ) → write c (timer i) v ≡ record c { config = put c.config i v }
write-timer c i v =
    let same : (timer i - 0x100) / 0x20 ≡ i = omega arith in
    let column : timer i % 0x20 ≡ 0 = omega arith in
    rw (==_ne (timer i) 0x10 (omega arith), column, same) refl

write-comparator :
    (c : Chip) (i v : ℕ) → write c (comparator i) v ≡ compared c i v (c.config i / 2 ^ 6 % 2 == 1)
write-comparator c i v =
    let same : (comparator i - 0x100) / 0x20 ≡ i = omega arith in
    let column : comparator i % 0x20 ≡ 8 = omega arith in
    rw (==_ne (comparator i) 0x10 (omega arith), column, same) refl

write-compared :
    (c : Chip) (i v : ℕ) (b : Bool)
    → (c.config i / 2 ^ 6 % 2 == 1) ≡ b
    → write c (comparator i) v ≡ compared c i v b
write-compared c i v b e = write-comparator c i v ∙ ap (compared c i v) e

digit : (c : Chip) (i : ℕ) (x : ℕ) → read c (timer i) / 2 ^ 6 % 2 ≡ x → c.config i / 2 ^ 6 % 2 ≡ x
digit c i x e = ap (λ t. t / 2 ^ 6 % 2) (sym (read-timer c i)) ∙ e

sets_next :
    (c : Chip) (i v : ℕ)
    → read c (timer i) / 2 ^ 6 % 2 ≡ 1
    → let c' = write c (comparator i) v in
      (c'.next i ≡ v)
      × (read c' (timer i) ≡ read c (timer i) - 2 ^ 6)
      × (read c' 0x10 ≡ read c 0x10)
sets_next c i v e =
    let c' = compared c i v true in
    subst
      (λ (t : Chip).
        (t.next i ≡ v)
        × (read t (timer i) ≡ read c (timer i) - 2 ^ 6)
        × (read t 0x10 ≡ read c 0x10))
      (sym (write-compared c i v true (ap (λ x. x == 1) (digit c i 1 e))))
      (rw (==_refl i) refl, rw (read-timer c' i, read-timer c i, ==_refl i) refl, refl)

sets_period :
    (c : Chip) (i v : ℕ)
    → read c (timer i) / 2 ^ 6 % 2 ≡ 0
    → let c' = write c (comparator i) v in
      (c'.next i ≡ c.next i)
      × (c'.period i ≡ v)
      × (read c' (timer i) ≡ read c (timer i))
      × (read c' 0x10 ≡ read c 0x10)
sets_period c i v e =
    let c' = compared c i v false in
    subst
      (λ (t : Chip).
        (t.next i ≡ c.next i)
        × (t.period i ≡ v)
        × (read t (timer i) ≡ read c (timer i))
        × (read t 0x10 ≡ read c 0x10))
      (sym (write-compared c i v false (ap (λ x. x == 1) (digit c i 0 e))))
      (refl, rw (==_refl i) refl, read-timer c' i ∙ sym (read-timer c i), refl)

abbrev hpet : HpetDevice Chip
hpet = record {
  io = record { read = read; write = write };
  next = λ c. c.next;
  period = λ c. c.period;
  configure = λ c v. refl;
  configure-other = λ c v i. (rw (read-timer (record c { conf = v }) i, read-timer c i) refl, refl);
  configure_timer = λ c i v can_repeat top fsb ro. (
    rw (write-timer c i v, read-timer (record c { config = put c.config i v }) i, ==_refl i) refl,
    rw (write-timer c i v) refl,
  );
  compare_next = λ c i v wide whole periodic. sets_next c i v;
  compare_period = λ c i v wide whole periodic. sets_period c i v;
}

-- A clock period of 10 ns, and counting.
abbrev chip : Chip
chip = record {
  conf = 1;
  caps = 10_000_000 * 2 ^ 32;
  count = 500;
  config = λ i. 4 * 2 ^ 32 + 3 * 2 ^ 4;
  next = λ i. 0;
  period = λ i. 0;
}

enable_timer_lem_example :
    (((4 * 2 ^ 32 + 3 * 2 ^ 4) / 2 ^ 32 % 2 ^ 32 / 2 ^ 2 % 2 ≡ 0)
      × (enable_timer hpet.io fields 0 2 1_000_000 chip ≡ none))
    ⊎ ((c : Chip) × (enable_timer hpet.io fields 0 2 1_000_000 chip ≡ some c)
        × ((4 * 2 ^ 32 + 3 * 2 ^ 4) / 2 ^ 32 % 2 ^ 32 / 2 ^ 2 % 2 ≡ 1)
        × (hpet.next c 0 ≡ (counter hpet.io (disable hpet.io fields chip) + 100_000) % 2 ^ 64)
        × (hpet.period c 0 ≡ 100_000)
        × (active_irq fields (hpet.io.read c (timer 0)) ≡ 2)
        × (is_irq_enabled fields (hpet.io.read c (timer 0)) ≡ true)
        × (is_periodic fields (hpet.io.read c (timer 0)) ≡ true)
        × (is_enabled fields (configuration hpet.io c) ≡ false))
unfolding capabilities
enable_timer_lem_example =
    enable_timer_lem fields hpet 0 2 1_000_000 chip (omega arith) (omega arith) (omega arith)
      (omega arith) (omega arith)
