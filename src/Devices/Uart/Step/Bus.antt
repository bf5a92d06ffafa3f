-- ===== src/Devices/Uart/Step/Bus.antt =====
-- Every register access keeps the serial port's invariant.
use riscv_em.Base.{
  ℕ, ◌⊎◌, ◌≡◌, refl, arith, bit_and, nonzero, ◌==◌, Bool, true, false, not, Bool-cases, List, [],
  ◌∷◌, ◌++◌, inl, inr, u8, sub64,
}
use riscv_em.Devices.Uart.{Uart, init, data_ready, calc_iir_locked, clear_lsr}
use riscv_em.Devices.Uart.Bytes.{clear_ready, set_ready}
use riscv_em.Devices.Uart.Bytes
use riscv_em.Devices.Uart.Step.{
  quiet, settled, clear_overrun, pop_fifo, take_byte, read_rhr, read_iir, read_reg, read, write_thr,
  write_ier, fifo_on, fifo_off, switch_fifo, write_fcr, write_reg, write, receive_byte,
}
use riscv_em.Devices.Uart.Step.Inv.{
  Inv, Regs, init-Inv, update_iir-Inv, receive_byte-Inv, is_empty-snoc,
}

pop_fifo-Regs :
    (l : List ℕ) (u : Uart)
    → u.fifo_buffer ≡ l
    → u.fifo_enabled ≡ true
    → Regs u
    → Regs (pop_fifo l u).1
unfolding pop_fifo
pop_fifo-Regs [] u e on r = r
pop_fifo-Regs (x ∷ []) u e on r = ground (arith, clear_ready u.lsr r.lsr_byte)
pop_fifo-Regs (x ∷ (y ∷ rest)) u e on r = ground (arith)

take_byte-Regs : (u : Uart) → Regs u → Regs (take_byte u).1
unfolding take_byte
take_byte-Regs u r = ground (arith, clear_ready u.lsr r.lsr_byte, pop_fifo-Regs u.fifo_buffer u)

clear_overrun-Regs : (u : Uart) → Regs u → Regs (clear_overrun u)
clear_overrun-Regs u r = ground (arith, Bytes.clear_overrun u.lsr r.lsr_byte)

read_rhr-Inv : (u : Uart) → Inv u → Inv (read_rhr u).1.uart
unfolding read_rhr
read_rhr-Inv u v = ground (
  arith,
  update_iir-Inv (clear_overrun (take_byte u).1)
      (clear_overrun-Regs (take_byte u).1 (take_byte-Regs u v.regs)),
)

rx_flag-Inv : (u : Uart) (f : Bool) → Inv u → Inv (record u { rx_irq_pending = f })
unfolding calc_iir_locked
rx_flag-Inv u f v = record { regs = ground arith; current = ground arith }

tx_flag-Inv : (u : Uart) (f : Bool) → Inv u → Inv (record u { tx_irq_pending = f })
unfolding calc_iir_locked
tx_flag-Inv u f v = record { regs = ground arith; current = ground arith }

settled-Inv : (u : Uart) → Inv u → Inv (settled u).uart
settled-Inv u v = elim (Bool-cases (calc_iir_locked u == 1)) [
  | inl idle ↦ rw idle (update_iir-Inv u v.regs)
  | inr busy ↦ rw busy v
]

read_iir-Inv : (u : Uart) → Inv u → Inv (read_iir u).1.uart
unfolding read_iir
read_iir-Inv u v = ground (
  arith,
  settled-Inv (record u { rx_irq_pending = false }) (rx_flag-Inv u false v),
  settled-Inv (record u { tx_irq_pending = false }) (tx_flag-Inv u false v),
)

-- A read of any register keeps the invariant.
read-Inv : (addr : ℕ) (u : Uart) → Inv u → Inv (read addr u).1.uart
unfolding read read_reg
read-Inv addr u v = ground (arith, read_rhr-Inv u v, read_iir-Inv u v)

write_thr-latch : (b : ℕ) (u : Uart) → u.dlab ≡ true → write_thr b u ≡ quiet (record u { dll = b })
unfolding write_thr
write_thr-latch b u latch = ground arith

dll-Inv : (b : ℕ) (u : Uart) → Inv u → Inv (record u { dll = b })
unfolding calc_iir_locked
dll-Inv b u v = record { regs = ground arith; current = ground arith }

dlm-Inv : (b : ℕ) (u : Uart) → Inv u → Inv (record u { dlm = b })
unfolding calc_iir_locked
dlm-Inv b u v = record { regs = ground arith; current = ground arith }

sent-Regs :
    (b : ℕ) (u : Uart) → Regs u → Regs (record u { thr = b; out_stream = u.out_stream ++ (b ∷ []) })
sent-Regs b u r = ground arith

ier-Regs : (b : ℕ) (u : Uart) → Regs u → Regs (record u { ier = b })
ier-Regs b u r = ground arith

write_thr-Inv : (b : ℕ) (u : Uart) → Inv u → Inv (write_thr b u).uart
unfolding write_thr
write_thr-Inv b u v = ground (arith, dll-Inv b u v, update_iir-Inv _ (sent-Regs b u v.regs))

write_ier-Inv : (b : ℕ) (u : Uart) → Inv u → Inv (write_ier b u).uart
unfolding write_ier
write_ier-Inv b u v =
    ground (arith, dlm-Inv b u v, update_iir-Inv _ (ier-Regs (bit_and b 0x0f) u v.regs))

lcr-Inv : (b : ℕ) (u : Uart) → Inv u → Inv (record u { lcr = b; dlab = not (bit_and b 0x80 == 0) })
unfolding calc_iir_locked
lcr-Inv b u v = record { regs = ground arith; current = ground arith }

abbrev switched : ℕ → Uart → Uart
switched b u = record u { fcr = b; fifo_enabled = nonzero (bit_and b 0x01) }

fifo_on-Inv :
    (b : ℕ) (u : Uart)
    → Inv u
    → u.fifo_enabled ≡ false
    → nonzero (bit_and b 0x01) ≡ true
    → data_ready u ≡ true
    → Inv (fifo_on (switched b u))
unfolding fifo_on calc_iir_locked
fifo_on-Inv b u v was on ready =
    ground (arith, set_ready u.lsr v.regs.lsr_byte, is_empty-snoc u.fifo_buffer u.rhr)

fifo_off-Inv :
    (b : ℕ) (u : Uart) (l : List ℕ)
    → Inv u
    → u.fifo_buffer ≡ l
    → u.fifo_enabled ≡ true
    → nonzero (bit_and b 0x01) ≡ false
    → Inv (fifo_off l (switched b u))
unfolding fifo_off calc_iir_locked
fifo_off-Inv b u [] v e was off = ground arith
fifo_off-Inv b u (x ∷ rest) v e was off = ground (arith, set_ready u.lsr v.regs.lsr_byte)

same-Inv :
    (b : ℕ) (u : Uart)
    → Inv u
    → (u.fifo_enabled ≡ nonzero (bit_and b 0x01)) ⊎ (u.fifo_enabled ≡ false × data_ready u ≡ false)
    → Inv (switched b u)
unfolding calc_iir_locked
same-Inv b u v same = ground arith

switch_fifo-Inv : (b : ℕ) (u : Uart) → Inv u → Inv (switch_fifo b u)
unfolding switch_fifo
switch_fifo-Inv b u v =
    ground (arith, fifo_on-Inv b u v, fifo_off-Inv b u u.fifo_buffer v refl, same-Inv b u v)

cleared-Regs :
    (u : Uart) → Regs u → Regs (record (clear_lsr 1 u) { fifo_buffer = []; rx_irq_pending = false })
cleared-Regs u r = ground (arith, clear_ready u.lsr r.lsr_byte)

write_fcr-Inv : (b : ℕ) (u : Uart) → Inv u → Inv (write_fcr b u).uart
unfolding write_fcr
write_fcr-Inv b u v =
    let w = switch_fifo-Inv b u v in
    ground (arith, w, update_iir-Inv _ (cleared-Regs (switch_fifo b u) w.regs))

mcr-Inv : (b : ℕ) (u : Uart) → Inv u → Inv (record u { mcr = b })
unfolding calc_iir_locked
mcr-Inv b u v = record { regs = ground arith; current = ground arith }

scr-Inv : (b : ℕ) (u : Uart) → Inv u → Inv (record u { scr = b })
unfolding calc_iir_locked
scr-Inv b u v = record { regs = ground arith; current = ground arith }

write_reg-Inv : (reg b : ℕ) (u : Uart) → Inv u → Inv (write_reg reg b u).uart
unfolding write_reg
write_reg-Inv reg b u v = ground (
  arith,
  write_thr-Inv b u v,
  write_ier-Inv b u v,
  write_fcr-Inv b u v,
  lcr-Inv b u v,
  mcr-Inv b u v,
  scr-Inv b u v,
)

-- A write of any register keeps the invariant.
write-Inv : (addr value : ℕ) (u : Uart) → Inv u → Inv (write addr value u).uart
unfolding write
write-Inv addr value u v = write_reg-Inv (u8 (sub64 addr u.start)) (bit_and value 0xff) u v

-- The states of a serial port: from its start, by register accesses and by bytes that arrive.
pub data Used : Uart → Type 0 where
  started : (start irq_num : ℕ) → Used (init start irq_num)
  accessed : (addr : ℕ) {u : Uart} → Used u → Used (read addr u).1.uart
  written : (addr value : ℕ) {u : Uart} → Used u → Used (write addr value u).uart
  received : (b : ℕ) {u : Uart} → Used u → Used (receive_byte b u).uart

-- In every state that the serial port can reach, the transmitter is ready and the divisor latch
-- follows LCR. While the FIFO is on it holds at most 16 bytes, and the data-ready bit says whether it
-- holds any; while it is off it is empty. IIR says what the enables and the line status ask for.
pub Used-Inv : (u : Uart) → Used u → Inv u
Used-Inv _ (Used.started start irq_num) = init-Inv start irq_num
Used-Inv _ (Used.accessed addr {u} before) = read-Inv addr u (Used-Inv u before)
Used-Inv _ (Used.written addr value {u} before) = write-Inv addr value u (Used-Inv u before)
Used-Inv _ (Used.received b {u} before) = receive_byte-Inv b u (Used-Inv u before)
