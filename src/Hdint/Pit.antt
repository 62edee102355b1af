-- ===== src/Hdint/Pit.antt =====
-- The programmable interval timer and the real-time clock (hdint/pit.rs, hdint/rtc.rs).
use titanium.Base.{ℕ, ◌+◌, ◌%◌, ◌^◌}
use titanium.Base.{Bool, true, false, Option, none, some, List, [], ◌∷◌, bit_or, bit_and}
use titanium.Base.{ltb, check, ◌>>◌, if◌then◌else◌}
use titanium.Base.Bits.{◌<<<◌, ◌>>>◌}
use titanium.X86.{Ports}
use titanium.Hdint.Devices.{Wake, pit, lapic_clk, other}

pub data Channel : Type 0 where
  chan0 chan1 chan2 read_back : Channel

pub data AccessMode : Type 0 where
  latch_count lo_byte hi_byte lo_hi_byte : AccessMode

pub data OperatingMode : Type 0 where
  itc oneshot rate_gen square_gen software_strobe hardware_strobe : OperatingMode

-- `as u8`
abbrev pub channel_bits : Channel → ℕ
channel_bits chan0 = 0
channel_bits chan1 = 1
channel_bits chan2 = 2
channel_bits read_back = 3

abbrev pub access_bits : AccessMode → ℕ
access_bits latch_count = 0
access_bits lo_byte = 1
access_bits hi_byte = 2
access_bits lo_hi_byte = 3

abbrev pub mode_bits : OperatingMode → ℕ
mode_bits itc = 0
mode_bits oneshot = 1
mode_bits rate_gen = 2
mode_bits square_gen = 3
mode_bits software_strobe = 4
mode_bits hardware_strobe = 5

abbrev pub fp_width : ℕ
fp_width = 24

abbrev pub pit_native_freq : ℕ
pit_native_freq = 1193182

abbrev pub pit_timer_rld : ℕ
pit_timer_rld = 600

-- Microseconds in fixed point 40.24.
abbrev pub pit_interval : ℕ
pit_interval = 0x1f6_db68b1

-- The ports and the interrupt flag.
pub record Bus (W : Type 0) : Type 0 where
  pub world : W
  pub interrupts : Bool

module _ {W : Type 0} (io : Ports W) where
  unfoldable pub send_command : Channel → AccessMode → OperatingMode → Bool → Bus W → Bus W
  send_command channel access_mode op_mode use_bcd b =
      let command =
        bit_or
          (bit_or (bit_or (channel_bits channel <<< 6) (access_bits access_mode <<< 4))
            (mode_bits op_mode <<< 1))
          (if use_bcd then 1 else 0) in
      record b { world = io.out8 0x43 command b.world }

  unfoldable pub latch : Channel → Bus W → Bus W
  latch channel b = send_command channel latch_count itc false b

  unfoldable pub init : Bus W → Bus W
  init b =
      let b1 = send_command chan0 lo_hi_byte square_gen false (record b { interrupts = false }) in
      let w2 = io.out8 0x40 (bit_and pit_timer_rld 0xff) b1.world in
      record { world = io.out8 0x40 (bit_and (pit_timer_rld >>> 8) 0xff) w2; interrupts = true }

  -- `RTC::enable_int`
  unfoldable pub enable_int : Bus W → Bus W
  enable_int b =
      let w1 = io.out8 0x70 0x8b b.world in
      let (data_read, w2) = io.in8 0x71 w1 in
      record {
        world = io.out8 0x71 (bit_or data_read 0x40) (io.out8 0x70 0x8b w2);
        interrupts = true;
      }

  -- `RTC::set_rate`; the second part of the result is `TICKS_SINCE_BOOT`.
  unfoldable pub set_rate : ℕ → Bus W → Option (Bus W × ℕ)
  set_rate rate b = do
    check (ltb 2 rate)
    check (ltb rate 16)
    let w1 = io.out8 0x70 0x8a b.world
    let (data_read, w2) = io.in8 0x71 w1
    let value = bit_or (bit_and data_read 0xf0) (bit_and rate 0x0f)
    some (record { world = io.out8 0x71 value (io.out8 0x70 0x8a w2); interrupts = true }, 0)

-- The handler adds the interval to the counter, on 64 bits.
unfoldable pub pit_interrupt : ℕ → ℕ
pit_interrupt counter = (counter + pit_interval) % 2 ^ 64

abbrev pub counted : Wake → ℕ → ℕ
counted pit counter = pit_interrupt counter
counted lapic_clk counter = counter
counted other counter = counter

abbrev pub counted_all : List Wake → ℕ → ℕ
counted_all [] counter = counter
counted_all (w ∷ ws) counter = counted_all ws (counted w counter)

-- The interrupts of one round of the loop: those that come after the counter is read and before the
-- processor halts, and the one that ends the `hlt`.
abbrev pub Round : Type 0
Round = List Wake × Wake

abbrev pub after_round : Round → ℕ → ℕ
after_round (early, last) counter = counted last (counted_all early counter)

-- The loop of `sleep_us`, over the interrupts to come, by rounds: what the counter is and which rounds
-- are left when it ends, and `none` while it does not.
unfoldable pub sleep_from : ℕ → ℕ → List Round → Option (ℕ × List Round)
sleep_from ctr_val counter [] = if ltb counter ctr_val then none else some (counter, [])
sleep_from ctr_val counter (r ∷ rounds) =
    let rest = sleep_from ctr_val (after_round r counter) rounds in
    if ltb counter ctr_val then rest else some (counter, r ∷ rounds)

unfoldable pub sleep_us : ℕ → List Round → Option (ℕ × List Round)
sleep_us us rounds = sleep_from (us <<< fp_width) 0 rounds
