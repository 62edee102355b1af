-- ===== src/Acpi/Tests.antt =====
-- An HPET's table.
use titanium.Base.{ℕ, ◌-◌, ◌≡◌, refl, arith, get_elem?}
use mathlib.Core.Option
use titanium.Madt.Fields.{BytesFrom}
use titanium.Acpi.{HpetTable, hpet_at, hpet_bytes, hpet_at-written}

abbrev timer : HpetTable
timer = record {
  flags = 0x8086_a201;
  address = record {
    address_space = 0;
    reg_bit_width = 64;
    reg_bit_offset = 0;
    address = 0xfed0_0000;
  };
  hpet_number = 0;
  minimum_tick = 100;
  page_protection = 0;
}

abbrev memory : ℕ → ℕ
memory a = Option.get_or (get_elem? (hpet_bytes timer) (a - 136)) 0

timer_laid : BytesFrom memory 100 36 (hpet_bytes timer)
timer_laid = (
  refl,
  (
    refl,
    (
      refl,
      (
        refl,
        (
          refl,
          (
            refl,
            (
              refl,
              (
                refl,
                (
                  refl,
                  (
                    refl,
                    (
                      refl,
                      (refl, (refl, (refl, (refl, (refl, (refl, (refl, (refl, (refl, tt))))))))),
                    ),
                  ),
                ),
              ),
            ),
          ),
        ),
      ),
    ),
  ),
)

hpet_at-written_run : hpet_at memory 100 ≡ timer
hpet_at-written_run =
    hpet_at-written memory 100 timer (omega arith) (omega arith) (omega arith) timer_laid
