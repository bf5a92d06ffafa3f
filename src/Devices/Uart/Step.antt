-- ===== src/Devices/Uart/Step.antt =====
-- `UART::read`, `UART::write` and `UART::receive_byte` of src/devices/uart.cpp.
pub mod Inv
pub mod Queue
pub mod Wire
pub mod Bus
mod Tests
use riscv_em.Base.{
  ℕ, ◌+◌, ◌-◌, ◌^◌, bit_and, bit_or, u8, sub64, nonzero, leb, ◌==◌, if◌then◌else◌, Bool, true,
  false, not, ◌&&◌, ◌||◌, Option, none, some, List, [], ◌∷◌, ◌++◌, length,
}
use riscv_em.Devices.Uart.{
  Uart, iir_no_int, iir_rx_available, iir_thr_empty, lsr_data_ready, lsr_oe, data_ready, clear_lsr,
  raise_lsr, is_empty, calc_iir_locked, irq_active, update_iir,
}

-- The registers after an operation, and the level of its call of `set_pending`.
pub record Effect : Type 0 where
  pub uart : Uart
  pub irq : Option Bool

abbrev pub quiet : Uart → Effect
quiet u = record { uart = u; irq = none }

abbrev pub updated : Uart → Effect
updated u = record { uart = update_iir u; irq = some (irq_active u) }

-- Taking the next received byte: its value and the registers.
pub pop_fifo : List ℕ → Uart → ℕ × Uart
pop_fifo [] u = (0, u)
pop_fifo (x ∷ rest) u =
    let v = record u { fifo_buffer = rest } in
    (x, if is_empty rest then clear_lsr lsr_data_ready v else v)

pub take_byte : Uart → ℕ × Uart
take_byte u =
    if u.fifo_enabled then pop_fifo u.fifo_buffer u else (u.rhr, clear_lsr lsr_data_ready u)

abbrev pub clear_overrun : Uart → Uart
clear_overrun u = if nonzero (bit_and u.lsr lsr_oe) then clear_lsr lsr_oe u else u

pub read_rhr : Uart → ℕ × Effect
read_rhr u =
    if u.dlab
    then (u.dll, quiet u)
    else let (value, v) = take_byte u in (value, updated (clear_overrun v))

abbrev pub settled : Uart → Effect
settled u = if calc_iir_locked u == iir_no_int then updated u else quiet u

pub read_iir : Uart → ℕ × Effect
read_iir u =
    if (u.iir == iir_rx_available) && u.rx_irq_pending
    then (u.iir, settled (record u { rx_irq_pending = false }))
    else if (u.iir == iir_thr_empty) && u.tx_irq_pending
    then (u.iir, settled (record u { tx_irq_pending = false }))
    else (u.iir, quiet u)

pub read_reg : ℕ → Uart → ℕ × Effect
read_reg reg u =
    if reg == 0
    then read_rhr u
    else if reg == 1
    then (if u.dlab then u.dlm else u.ier, quiet u)
    else if reg == 2
    then read_iir u
    else if reg == 3
    then (u.lcr, quiet u)
    else if reg == 4
    then (u.mcr, quiet u)
    else if reg == 5
    then (u.lsr, quiet u)
    else if reg == 6
    then (u.msr, quiet u)
    else if reg == 7
    then (u.scr, quiet u)
    else (0, quiet u)

pub read : ℕ → Uart → ℕ × Effect
read addr u = read_reg (u8 (sub64 addr u.start)) u

pub write_thr : ℕ → Uart → Effect
write_thr b u =
    if u.dlab
    then quiet (record u { dll = b })
    else updated (record u { thr = b; out_stream = u.out_stream ++ (b ∷ []) })

pub write_ier : ℕ → Uart → Effect
write_ier b u =
    if u.dlab then quiet (record u { dlm = b }) else updated (record u { ier = bit_and b 0x0f })

-- The FIFO is switched on while a byte waits: the byte goes into it.
pub fifo_on : Uart → Uart
fifo_on v =
    let w = record v { fifo_buffer = v.fifo_buffer ++ (v.rhr ∷ []) } in
    (if is_empty w.fifo_buffer then clear_lsr lsr_data_ready w else raise_lsr lsr_data_ready w)

-- The FIFO is switched off: its first byte, if any, goes to the holding register.
pub fifo_off : List ℕ → Uart → Uart
fifo_off [] v = v
fifo_off (x ∷ rest) v = raise_lsr lsr_data_ready (record v { rhr = x; fifo_buffer = [] })

pub switch_fifo : ℕ → Uart → Uart
switch_fifo b u =
    let v = record u { fcr = b; fifo_enabled = nonzero (bit_and b 0x01) } in
    if v.fifo_enabled && (not u.fifo_enabled && data_ready v)
    then fifo_on v
    else if not v.fifo_enabled && u.fifo_enabled
    then fifo_off v.fifo_buffer v
    else v

pub write_fcr : ℕ → Uart → Effect
write_fcr b u =
    let v = switch_fifo b u in
    if nonzero (bit_and b 0x02)
    then updated (record (clear_lsr lsr_data_ready v) { fifo_buffer = []; rx_irq_pending = false })
    else quiet v

pub write_reg : ℕ → ℕ → Uart → Effect
write_reg reg b u =
    if reg == 0
    then write_thr b u
    else if reg == 1
    then write_ier b u
    else if reg == 2
    then write_fcr b u
    else if reg == 3
    then quiet (record u { lcr = b; dlab = not (bit_and b 0x80 == 0) })
    else if reg == 4
    then quiet (record u { mcr = b })
    else if reg == 7
    then quiet (record u { scr = b })
    else quiet u

pub write : ℕ → ℕ → Uart → Effect
write addr value u = write_reg (u8 (sub64 addr u.start)) (bit_and value 0xff) u

pub receive_byte : ℕ → Uart → Effect
receive_byte b u =
    if u.fifo_enabled && leb 16 (length u.fifo_buffer)
    then quiet (raise_lsr lsr_oe u)
    else if u.fifo_enabled
    then updated (raise_lsr lsr_data_ready (record u { fifo_buffer = u.fifo_buffer ++ (b ∷ []) }))
    else updated (
        raise_lsr lsr_data_ready
          (if data_ready u then raise_lsr lsr_oe u else record u { rhr = b }))
