-- ===== src/Idt/Tests.antt =====
-- Addresses for the handlers of the interrupt table.
use titanium.Base.{arith}
use titanium.Idt.Init.{HandlerAddresses, Addresses64, vectors}

abbrev pub addresses : HandlerAddresses
addresses = record {
  breakpoint = 0x1000;
  inv_opcode = 0x1100;
  double_fault = 0x1200;
  tss_inv = 0x1300;
  snp = 0x1400;
  ss_fault = 0x1500;
  gp_fault = 0x1600;
  page_fault = 0x1700;
  lapic_clk = 0x1800;
  pit = 0x1900;
  rtc = 0x1a00;
  hpet = 0xffff_8000_0000_1b00;
}

pub addresses_fit : Addresses64 (vectors addresses)
addresses_fit = (
  omega arith,
  (
    omega arith,
    (
      omega arith,
      (
        omega arith,
        (
          omega arith,
          (
            omega arith,
            (
              omega arith,
              (omega arith, (omega arith, (omega arith, (omega arith, (omega arith, tt))))),
            ),
          ),
        ),
      ),
    ),
  ),
)
