-- ===== src/Hdint/LocalApic.antt =====
-- The local APIC and its timer (hdint.rs). `none` is a panic.
use titanium.Base.{ℕ, ◌-◌, ◌*◌, ◌/◌, ◌^◌, ◌<◌, ◌≡◌, refl, ap, ◌∙◌}
use native.Mathlib.Nat.{zero-mul}
use titanium.Base.{Bool, true, false, Option, none, some, List, [], ◌∷◌, bit_or, bit_and, not}
use titanium.Base.{ltb, leb, check, ◌>>=◌, ◌>>◌, if◌then◌else◌, ◌==◌, arith, lt→ltb}
use titanium.Base.Bits.{◌<<<◌}
use titanium.Hdint.Devices.{Mmio, Wake, pit, lapic_clk, other}
use titanium.Idt.Table.{irq_lapic_clk}

abbrev pub lapic_id_offset : ℕ
lapic_id_offset = 0x20

abbrev pub spurious_offset : ℕ
spurious_offset = 0xf0

abbrev pub eoi_offset : ℕ
eoi_offset = 0xb0

abbrev pub eoi_flag : ℕ
eoi_flag = 0

abbrev pub lvt_timer_offset : ℕ
lvt_timer_offset = 0x320

abbrev pub tmrinitcnt_offset : ℕ
tmrinitcnt_offset = 0x380

abbrev pub tmrcurrcnt_offset : ℕ
tmrcurrcnt_offset = 0x390

abbrev pub tmrdiv_offset : ℕ
tmrdiv_offset = 0x3e0

abbrev pub timer_mode_oneshot : ℕ
timer_mode_oneshot = 0 <<< 17

abbrev pub lvt_int_masked : ℕ
lvt_int_masked = 1 <<< 16

-- The device and the statics `TICKS_PER_MS`, `IS_SLEEPING` and `TIMER_FLAGS`.
pub record LocalTimer (W : Type 0) : Type 0 where
  pub apic : W
  pub ticks_per_ms : ℕ
  pub is_sleeping : Bool
  pub timer_flags : ℕ

module _ {W : Type 0} (io : Mmio W) where
  unfoldable pub lapic_write : ℕ → ℕ → LocalTimer W → LocalTimer W
  lapic_write offset value t = record t { apic = io.write t.apic offset value }

  unfoldable pub lapic_id : LocalTimer W → ℕ
  lapic_id t = io.read t.apic lapic_id_offset

  unfoldable pub set_spurious : ℕ → LocalTimer W → LocalTimer W
  set_spurious spurious t = lapic_write spurious_offset spurious t

  unfoldable pub get_spurious : LocalTimer W → ℕ
  get_spurious t = io.read t.apic spurious_offset

  unfoldable pub eoi : LocalTimer W → LocalTimer W
  eoi t = lapic_write eoi_offset eoi_flag t

  -- `sleep` is what the sleep of a millisecond makes of the state, while the timer counts down.
  unfoldable pub setup_timer_pit :
      (LocalTimer W → Option (LocalTimer W)) → LocalTimer W → Option (LocalTimer W)
  setup_timer_pit sleep t = do
    t1 ← sleep (lapic_write tmrinitcnt_offset 0xffff_ffff (lapic_write tmrdiv_offset 0x2 t))
    let t2 = lapic_write lvt_timer_offset lvt_int_masked t1
    let current = io.read t2.apic tmrcurrcnt_offset
    check (leb current 0xffff_ffff)
    some (record t2 { ticks_per_ms = 0xffff_ffff - current })

  unfoldable pub halt_timer : LocalTimer W → LocalTimer W
  halt_timer t =
      lapic_write tmrinitcnt_offset 0
        (lapic_write lvt_timer_offset (bit_or timer_mode_oneshot lvt_int_masked) t)

  -- `(ticks_per_ms / 1000) * us`, on 32 bits
  abbrev pub ticks_for : ℕ → ℕ → Option ℕ
  ticks_for ticks_per_ms us =
      let ticks = ticks_per_ms / 1000 * us in if ltb ticks (2 ^ 32) then some ticks else none

  unfoldable pub trigger_local_us : ℕ → LocalTimer W → Option (LocalTimer W)
  trigger_local_us us t = do
    let t1 = lapic_write lvt_timer_offset lvt_int_masked t
    check (ltb 0 t1.ticks_per_ms)
    ticks ← ticks_for t1.ticks_per_ms us
    let t2 = lapic_write tmrinitcnt_offset ticks t1
    some (lapic_write lvt_timer_offset (bit_or irq_lapic_clk timer_mode_oneshot) t2)

  -- The handler clears the flag `is_timing` and signals the end of the interrupt.
  unfoldable pub lapic_clk_interrupt : LocalTimer W → LocalTimer W
  lapic_clk_interrupt t =
      lapic_write eoi_offset 0 (record t { timer_flags = bit_and t.timer_flags 0xfe })

  abbrev pub woken : Wake → LocalTimer W → LocalTimer W
  woken lapic_clk t = lapic_clk_interrupt t
  woken pit t = t
  woken other t = t

  -- The loop that halts while the flag is set; `none` while it does not end. Interrupts are taken to
  -- arrive while the processor halts.
  unfoldable pub wait_timer : List Wake → LocalTimer W → Option (LocalTimer W)
  wait_timer [] t = if bit_and t.timer_flags 0x1 == 0 then some t else none
  wait_timer (w ∷ wakes) t =
      let rest = wait_timer wakes (woken w t) in
      if bit_and t.timer_flags 0x1 == 0 then some t else rest

  unfoldable pub sleep_local_us : ℕ → List Wake → LocalTimer W → Option (LocalTimer W)
  sleep_local_us us wakes t = do
    check (not t.is_sleeping)
    let t1 = lapic_write lvt_timer_offset lvt_int_masked (record t { is_sleeping = true })
    let t2 = record t1 { is_sleeping = true; timer_flags = bit_or t1.timer_flags 1 }
    check (ltb 0 t2.ticks_per_ms)
    ticks ← ticks_for t2.ticks_per_ms us
    let t3 = lapic_write tmrinitcnt_offset ticks t2
    t4 ←
        wait_timer wakes (lapic_write lvt_timer_offset (bit_or irq_lapic_clk timer_mode_oneshot) t3)
    some (record t4 { is_sleeping = false })

  -- With fewer than 1000 ticks in a millisecond the initial count is 0, whatever time is asked for,
  -- which starts no countdown.
  pub trigger_local_us-slow :
      (us : ℕ) (t : LocalTimer W)
      → 0 < t.ticks_per_ms
      → t.ticks_per_ms < 1000
      → trigger_local_us us t
        ≡ some (
            lapic_write lvt_timer_offset irq_lapic_clk
              (lapic_write tmrinitcnt_offset 0 (lapic_write lvt_timer_offset lvt_int_masked t)))
  unfolding trigger_local_us lapic_write
  trigger_local_us-slow us t pos slow =
      let whole : t.ticks_per_ms / 1000 ≡ 0 = omega arith in
      let no_ticks : t.ticks_per_ms / 1000 * us ≡ 0 = ap (λ n. n * us) whole ∙ zero-mul us in
      rw (lt→ltb 0 t.ticks_per_ms pos, no_ticks) refl
