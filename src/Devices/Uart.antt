-- ===== src/Devices/Uart.antt =====
-- src/devices/uart.cpp: the serial port. An operation returns the new registers and the level of
-- its call of `PLIC::set_pending`, `none` where it makes none; no path makes two calls.
-- `out_stream` is the list of the bytes written so far.
pub mod Step
pub mod Bytes
use riscv_em.Base.{
  ℕ, ◌+◌, ◌-◌, ◌^◌, bit_and, bit_or, u8, sub64, nonzero, leb, ◌==◌, if◌then◌else◌, Bool, true,
  false, not, ◌&&◌, ◌||◌, Option, none, some, List, [], ◌∷◌, ◌++◌, length,
}

pub record Uart : Type 0 where
  pub start : ℕ
  pub irq_num : ℕ
  pub rhr : ℕ
  pub thr : ℕ
  pub ier : ℕ
  pub iir : ℕ
  pub fcr : ℕ
  pub lcr : ℕ
  pub mcr : ℕ
  pub lsr : ℕ
  pub msr : ℕ
  pub scr : ℕ
  pub dll : ℕ
  pub dlm : ℕ
  pub rx_irq_pending : Bool
  pub tx_irq_pending : Bool
  pub dlab : Bool
  pub fifo_enabled : Bool
  pub fifo_buffer : List ℕ
  pub out_stream : List ℕ

abbrev pub iir_no_int : ℕ
iir_no_int = 0x01

abbrev pub iir_thr_empty : ℕ
iir_thr_empty = 0x02

abbrev pub iir_rx_available : ℕ
iir_rx_available = 0x04

abbrev pub lsr_data_ready : ℕ
lsr_data_ready = 0x01

abbrev pub lsr_thr_empty : ℕ
lsr_thr_empty = 0x20

abbrev pub lsr_temt : ℕ
lsr_temt = 0x40

abbrev pub lsr_oe : ℕ
lsr_oe = 0x02

pub init : ℕ → ℕ → Uart
init start irq_num = record {
  start = start;
  irq_num = irq_num;
  rhr = 0;
  thr = 0;
  ier = 0;
  iir = 0x01;
  fcr = 0;
  lcr = 0;
  mcr = 0;
  lsr = bit_or lsr_thr_empty lsr_temt;
  msr = 0;
  scr = 0;
  dll = 0;
  dlm = 0;
  rx_irq_pending = false;
  tx_irq_pending = false;
  dlab = false;
  fifo_enabled = false;
  fifo_buffer = [];
  out_stream = [];
}

-- `lsr & LSR_DATA_READY` as a condition.
abbrev pub data_ready : Uart → Bool
data_ready u = nonzero (bit_and u.lsr lsr_data_ready)

-- `lsr &= ~bit` on a byte.
abbrev pub clear_lsr : ℕ → Uart → Uart
clear_lsr b u = record u { lsr = bit_and u.lsr (2 ^ 8 - 1 - b) }

abbrev pub raise_lsr : ℕ → Uart → Uart
raise_lsr b u = record u { lsr = bit_or u.lsr b }

abbrev pub is_empty : List ℕ → Bool
is_empty [] = true
is_empty (x ∷ xs) = false

unfoldable pub calc_iir_locked : Uart → ℕ
calc_iir_locked u =
    if nonzero (bit_and u.ier 0x01) && nonzero (bit_and u.lsr lsr_data_ready)
    then iir_rx_available
    else if nonzero (bit_and u.ier 0x02) && nonzero (bit_and u.lsr lsr_thr_empty)
    then iir_thr_empty
    else iir_no_int

-- The level that `update_iir` gives to `set_pending`.
abbrev pub irq_active : Uart → Bool
irq_active u = not (calc_iir_locked u == iir_no_int)

unfoldable pub update_iir : Uart → Uart
update_iir u =
    let new_iir = calc_iir_locked u in
    if not (new_iir == iir_no_int)
    then if new_iir == iir_rx_available
      then record u { iir = new_iir; rx_irq_pending = true }
      else if new_iir == iir_thr_empty
      then record u { iir = new_iir; tx_irq_pending = true }
      else record u { iir = new_iir }
    else record u { iir = new_iir; rx_irq_pending = false; tx_irq_pending = false }
