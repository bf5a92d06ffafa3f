-- ===== src/Devices/Uart/Step/Wire.antt =====
-- The serial port's interrupt line: what the PLIC is told agrees with the IIR register.
use riscv_em.Base.{
  ℕ, ◌⊎◌, ◌≡◌, refl, arith, bit_and, nonzero, ◌==◌, if◌then◌else◌, false, not, none, some, List, [],
  ◌∷◌, ◌++◌, inl, inr, u8, sub64,
}
use riscv_em.Devices.Uart.{Uart, data_ready, calc_iir_locked, update_iir, clear_lsr, raise_lsr}
use riscv_em.Devices.Uart.Step.{
  Effect, quiet, updated, clear_overrun, take_byte, settled, read_rhr, read_iir, read_reg, read,
  write_thr, write_ier, write_fcr, switch_fifo, fifo_on, fifo_off, write_reg, write, receive_byte,
}

-- Either the PLIC is not called and IIR stays, or it is told whether IIR shows an interrupt.
unfoldable pub Announces : ℕ → Effect → Type 0
Announces iir e = (e.irq ≡ none × e.uart.iir ≡ iir) ⊎ (e.irq ≡ some (not (e.uart.iir == 1)))

iir-update_iir : (u : Uart) → (update_iir u).iir ≡ calc_iir_locked u
unfolding update_iir
iir-update_iir u = ground arith

updated-Announces : (i : ℕ) (u : Uart) → Announces i (updated u)
unfolding Announces
updated-Announces i u = inr (rw (iir-update_iir u) refl)

quiet-Announces : (i : ℕ) (u : Uart) → u.iir ≡ i → Announces i (quiet u)
unfolding Announces
quiet-Announces i u e = inl (refl, e)

settled-Announces : (i : ℕ) (u : Uart) → u.iir ≡ i → Announces i (settled u)
settled-Announces i u e = ground (arith, updated-Announces i u, quiet-Announces i u e)

-- After a read of any register either the PLIC has not been called and IIR is as before, or the PLIC has
-- been told whether IIR shows an interrupt.
read-Announces : (addr : ℕ) (u : Uart) → Announces u.iir (read addr u).1
unfolding read read_reg read_rhr read_iir
read-Announces addr u = ground (
  arith,
  quiet-Announces u.iir u refl,
  updated-Announces u.iir (clear_overrun (take_byte u).1),
  settled-Announces u.iir (record u { rx_irq_pending = false }) refl,
  settled-Announces u.iir (record u { tx_irq_pending = false }) refl,
)

iir-fifo_off : (l : List ℕ) (u : Uart) → (fifo_off l u).iir ≡ u.iir
unfolding fifo_off
iir-fifo_off [] u = refl
iir-fifo_off (x ∷ rest) u = refl

iir-fifo_on : (u : Uart) → (fifo_on u).iir ≡ u.iir
unfolding fifo_on
iir-fifo_on u = ground arith

iir-switch_fifo : (b : ℕ) (u : Uart) → (switch_fifo b u).iir ≡ u.iir
unfolding switch_fifo
iir-switch_fifo b u =
    let v = record u { fcr = b; fifo_enabled = nonzero (bit_and b 0x01) } in
    ground (arith, iir-fifo_on v, iir-fifo_off v.fifo_buffer v)

write_fcr-Announces : (b : ℕ) (u : Uart) → Announces u.iir (write_fcr b u)
unfolding write_fcr
write_fcr-Announces b u =
    let v = switch_fifo b u in
    ground (
      arith,
      quiet-Announces u.iir v (iir-switch_fifo b u),
      updated-Announces u.iir (record (clear_lsr 1 v) { fifo_buffer = []; rx_irq_pending = false }),
    )

write_thr-Announces : (b : ℕ) (u : Uart) → Announces u.iir (write_thr b u)
unfolding write_thr
write_thr-Announces b u = ground (
  arith,
  quiet-Announces u.iir (record u { dll = b }) refl,
  updated-Announces u.iir (record u { thr = b; out_stream = u.out_stream ++ (b ∷ []) }),
)

write_ier-Announces : (b : ℕ) (u : Uart) → Announces u.iir (write_ier b u)
unfolding write_ier
write_ier-Announces b u = ground (
  arith,
  quiet-Announces u.iir (record u { dlm = b }) refl,
  updated-Announces u.iir (record u { ier = bit_and b 0x0f }),
)

write_reg-Announces : (reg b : ℕ) (u : Uart) → Announces u.iir (write_reg reg b u)
unfolding write_reg
write_reg-Announces reg b u = ground (
  arith,
  write_thr-Announces b u,
  write_ier-Announces b u,
  write_fcr-Announces b u,
  quiet-Announces u.iir (record u { lcr = b; dlab = not (bit_and b 0x80 == 0) }) refl,
  quiet-Announces u.iir (record u { mcr = b }) refl,
  quiet-Announces u.iir (record u { scr = b }) refl,
  quiet-Announces u.iir u refl,
)

-- After a write of any register either the PLIC has not been called and IIR is as before, or the PLIC has
-- been told whether IIR shows an interrupt.
write-Announces : (addr value : ℕ) (u : Uart) → Announces u.iir (write addr value u)
unfolding write
write-Announces addr value u = write_reg-Announces (u8 (sub64 addr u.start)) (bit_and value 0xff) u

-- After a receipt either the PLIC has not been called and IIR is as before, or the PLIC has
-- been told whether IIR shows an interrupt.
receive_byte-Announces : (b : ℕ) (u : Uart) → Announces u.iir (receive_byte b u)
unfolding receive_byte
receive_byte-Announces b u =
    let w = if data_ready u then raise_lsr 2 u else record u { rhr = b } in
    ground (
      arith,
      quiet-Announces u.iir (raise_lsr 2 u) refl,
      updated-Announces u.iir (raise_lsr 1 (record u { fifo_buffer = u.fifo_buffer ++ (b ∷ []) })),
      updated-Announces u.iir (raise_lsr 1 w),
    )
