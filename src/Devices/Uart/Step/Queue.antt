-- ===== src/Devices/Uart/Step/Queue.antt =====
-- The received bytes that wait in the serial port, as one queue for both FIFO modes.
use riscv_em.Base.{
  ℕ, ◌⊎◌, ◌<◌, ◌≡◌, refl, arith, bit_or, leb, ltb, if◌then◌else◌, true, false, Bool-cases, List, [],
  ◌∷◌, ◌++◌, length, inl, inr,
}
use riscv_em.Devices.Uart.{Uart, data_ready, update_iir, raise_lsr}
use riscv_em.Devices.Uart.Bytes.{clear_ready, set_ready, set_overrun}
use riscv_em.Devices.Uart.Bytes
use riscv_em.Devices.Uart.Step.{clear_overrun, pop_fifo, take_byte, read_rhr, receive_byte}
use riscv_em.Devices.Uart.Step.Inv.{
  Inv, Regs, receive-full, receive-push, receive-lost, receive-hold,
}

-- The bytes that a reader of RBR will see, in the order of their arrival.
unfoldable pub waiting : Uart → List ℕ
waiting u = if u.fifo_enabled then u.fifo_buffer else if data_ready u then u.rhr ∷ [] else []

-- How many bytes may wait.
unfoldable pub room : Uart → ℕ
room u = if u.fifo_enabled then 16 else 1

waiting-update_iir : (u : Uart) → waiting (update_iir u) ≡ waiting u
unfolding waiting update_iir
waiting-update_iir u = ground arith

waiting-raise_overrun : (u : Uart) → Regs u → waiting (raise_lsr 2 u) ≡ waiting u
unfolding waiting
waiting-raise_overrun u r = ground (arith, set_overrun u.lsr r.lsr_byte)

-- A received byte joins the queue's end if there is room, and leaves the queue alone if not.
pub receive_byte-waiting :
    (b : ℕ) (u : Uart)
    → Inv u
    → waiting (receive_byte b u).uart
      ≡ (if ltb (length (waiting u)) (room u) then waiting u ++ (b ∷ []) else waiting u)
unfolding waiting room
receive_byte-waiting b u v = elim (Bool-cases u.fifo_enabled) [
  | inl on ↦ elim (Bool-cases (leb 16 (length u.fifo_buffer))) [
    | inl full ↦ ground (arith, receive-full b u on full)
    | inr space ↦ ground (
      arith,
      receive-push b u on space,
      waiting-update_iir (raise_lsr 1 (record u { fifo_buffer = u.fifo_buffer ++ (b ∷ []) })),
    )
  ]
  | inr off ↦ elim (Bool-cases (data_ready u)) [
    | inl busy ↦ ground (
      arith,
      receive-lost b u off busy,
      waiting-update_iir (raise_lsr 1 (raise_lsr 2 u)),
      set_overrun u.lsr v.regs.lsr_byte,
      set_ready (bit_or u.lsr 2),
    )
    | inr free ↦ ground (
      arith,
      receive-hold b u off free,
      waiting-update_iir (raise_lsr 1 (record u { rhr = b })),
      set_ready u.lsr v.regs.lsr_byte,
    )
  ]
]

waiting-clear_overrun : (u : Uart) → u.lsr < 256 → waiting (clear_overrun u) ≡ waiting u
unfolding waiting
waiting-clear_overrun u byte = ground (arith, Bytes.clear_overrun u.lsr byte)

-- What taking a byte does to the queue.
Taken : Uart → ℕ × Uart → Type 0
Taken u r =
    ((waiting u ≡ [] × waiting r.1 ≡ []) ⊎ (waiting u ≡ r.0 ∷ waiting r.1)) × (r.1.lsr < 256)

pop_fifo-Taken :
    (l : List ℕ) (u : Uart)
    → Regs u
    → u.fifo_buffer ≡ l
    → u.fifo_enabled ≡ true
    → Taken u (pop_fifo l u)
unfolding pop_fifo waiting Taken
pop_fifo-Taken [] u r e on = ground (arith, r)
pop_fifo-Taken (x ∷ []) u r e on = ground (arith, clear_ready u.lsr r.lsr_byte)
pop_fifo-Taken (x ∷ (y ∷ rest)) u r e on = ground (arith, r)

take_byte-Taken : (u : Uart) → Regs u → Taken u (take_byte u)
unfolding take_byte waiting Taken
take_byte-Taken u r =
    ground (arith, pop_fifo-Taken u.fifo_buffer u r refl, clear_ready u.lsr r.lsr_byte)

-- With the divisor latch off, a read of RBR takes the oldest waiting byte, and with none it keeps
-- the queue empty.
pub read_rhr-waiting :
    (u : Uart)
    → Inv u
    → u.dlab ≡ false
    → (waiting u ≡ [] × waiting (read_rhr u).1.uart ≡ [])
      ⊎ (waiting u ≡ (read_rhr u).0 ∷ waiting (read_rhr u).1.uart)
unfolding read_rhr Taken
read_rhr-waiting u v off =
    let t = take_byte u in
    let done = take_byte-Taken u v.regs in
    ground (arith, done, waiting-clear_overrun t.1 done.1, waiting-update_iir (clear_overrun t.1))
