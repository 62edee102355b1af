-- ===== src/Hdint/EntryFields.antt =====
-- The fields of a redirection entry (`RedirectionEntry` of hdint.rs), by the `bitfield` crate. Those
-- of two values are their bit.
use titanium.Base.{
  ℕ, zero, suc, ◌+◌, ◌*◌, ◌/◌, ◌%◌, ◌^◌, ◌<◌, ◌≡◌, refl, ap, ◌∙◌, sym, Bool, Option, none, some,
  arith, ◌==◌,
}
use titanium.Hdint.Devices.{BitField}

pub data DeliveryMode : Type 0 where
  normal low_priority system_management non_maskable init external : DeliveryMode

abbrev pub delivery_bits : DeliveryMode → ℕ
delivery_bits normal = 0
delivery_bits low_priority = 1
delivery_bits system_management = 2
delivery_bits non_maskable = 4
delivery_bits init = 5
delivery_bits external = 7

-- `none` is a number that is no value of the enum.
abbrev pub to_delivery_mode : ℕ → Option DeliveryMode
to_delivery_mode zero = some normal
to_delivery_mode (suc zero) = some low_priority
to_delivery_mode (suc (suc zero)) = some system_management
to_delivery_mode (suc (suc (suc (suc zero)))) = some non_maskable
to_delivery_mode (suc (suc (suc (suc (suc zero))))) = some init
to_delivery_mode (suc (suc (suc (suc (suc (suc (suc zero))))))) = some external
to_delivery_mode _ = none

module _ (f : BitField) where
  abbrev pub vector : ℕ → ℕ
  vector e = f.get_range e 7 0

  abbrev pub delivery_mode : ℕ → Option DeliveryMode
  delivery_mode e = to_delivery_mode (f.get_range e 10 8)

  abbrev pub set_delivery_mode : ℕ → DeliveryMode → ℕ
  set_delivery_mode e v = f.set_range e 10 8 (delivery_bits v)

  -- `Logical`
  abbrev pub destination_mode : ℕ → Bool
  destination_mode e = f.get_bit e 11

  abbrev pub set_destination_mode : ℕ → Bool → ℕ
  set_destination_mode e v = f.set_bit e 11 v

  abbrev pub is_waiting : ℕ → Bool
  is_waiting e = f.get_bit e 12

  abbrev pub is_active_low : ℕ → Bool
  is_active_low e = f.get_bit e 13

  abbrev pub is_accepted : ℕ → Bool
  is_accepted e = f.get_bit e 14

  abbrev pub is_level_triggered : ℕ → Bool
  is_level_triggered e = f.get_bit e 15

  abbrev pub is_masked : ℕ → Bool
  is_masked e = f.get_bit e 16

  abbrev pub destination : ℕ → ℕ
  destination e = f.get_range e 63 56

  abbrev pub set_destination : ℕ → ℕ → ℕ
  set_destination e v = f.set_range e 63 56 v

  -- Setting a delivery mode or a destination reads back, and leaves the other, the vector and the
  -- mask.
  pub set_delivery_mode-destination :
      (e d : ℕ) (v : DeliveryMode)
      → d < 256
      → let e' = set_destination (set_delivery_mode e v) d in
        (delivery_mode e' ≡ some v)
        × (destination e' ≡ d)
        × (vector e' ≡ vector e)
        × (is_masked e' ≡ is_masked e)
  set_delivery_mode-destination e d v small =
      let e1 = set_delivery_mode e v in
      let e' = set_destination e1 d in
      let r1 : e1 ≡ e / 2 ^ 11 * 2 ^ 11 + delivery_bits v * 2 ^ 8 + e % 2 ^ 8 =
        f.set_range-replaced e 10 8 (delivery_bits v) (omega arith) (delivery_bits-lt v) in
      let r2 : e' ≡ e1 / 2 ^ 64 * 2 ^ 64 + d * 2 ^ 56 + e1 % 2 ^ 56 =
        f.set_range-replaced e1 63 56 d (omega arith) (omega arith) in
      let lt = delivery_bits-lt v in
      let mode : e' / 2 ^ 8 % 2 ^ 3 ≡ delivery_bits v = omega (arith, r1, r2, lt) in
      let high : e' / 2 ^ 56 % 2 ^ 8 ≡ d = omega (arith, r2) in
      let low : e' % 2 ^ 8 ≡ e % 2 ^ 8 = omega (arith, r1, r2, lt) in
      let mask : e' / 2 ^ 16 % 2 ≡ e / 2 ^ 16 % 2 = omega (arith, r1, r2, lt) in
      (
        ap to_delivery_mode (f.get_range-digits e' 10 8 (omega arith) ∙ mode) ∙ read_mode v,
        f.get_range-digits e' 63 56 (omega arith) ∙ high,
        f.get_range-digits e' 7 0 (omega arith)
            ∙ omega (arith, low)
            ∙ sym (f.get_range-digits e 7 0 (omega arith)),
        f.get_bit-digit e' 16 ∙ ap (λ x. x == 1) mask ∙ sym (f.get_bit-digit e 16),
      )
    where
      delivery_bits-lt : (v : DeliveryMode) → delivery_bits v < 8
      delivery_bits-lt normal = omega arith
      delivery_bits-lt low_priority = omega arith
      delivery_bits-lt system_management = omega arith
      delivery_bits-lt non_maskable = omega arith
      delivery_bits-lt init = omega arith
      delivery_bits-lt external = omega arith

      read_mode : (v : DeliveryMode) → to_delivery_mode (delivery_bits v) ≡ some v
      read_mode normal = refl
      read_mode low_priority = refl
      read_mode system_management = refl
      read_mode non_maskable = refl
      read_mode init = refl
      read_mode external = refl
