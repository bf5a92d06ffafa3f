-- ===== src/Devices/Uart/Step/Inv.antt =====
-- The invariant of the serial port's registers, and that every operation keeps it.
use riscv_em.Base.{
  ℕ, ◌≤◌, ◌<◌, ◌≡◌, refl, arith, bit_and, bit_or, leb, ◌==◌, true, false, not, Bool-cases, List, [],
  ◌∷◌, ◌++◌, length, length-append, inl, inr,
}
use riscv_em.Devices.Uart.{
  Uart, data_ready, is_empty, calc_iir_locked, update_iir, init, lsr_thr_empty, raise_lsr,
}
use riscv_em.Devices.Uart.Bytes.{set_ready, set_overrun}
use riscv_em.Devices.Uart.Step.{quiet, updated, receive_byte}

-- The transmitter is always ready; the divisor latch follows LCR; while the FIFO is on, a byte is
-- announced exactly if the FIFO holds one, and there are at most 16; while it is off, it is empty.
pub record Regs (u : Uart) : Type 0 where
  pub lsr_byte : u.lsr < 256
  pub ready_to_send : bit_and u.lsr lsr_thr_empty ≡ lsr_thr_empty
  pub latch : u.dlab ≡ not (bit_and u.lcr 0x80 == 0)
  pub fifo_flag : u.fifo_enabled ≡ true → data_ready u ≡ not (is_empty u.fifo_buffer)
  pub fifo_unused : u.fifo_enabled ≡ false → u.fifo_buffer ≡ []
  pub fifo_room : length u.fifo_buffer ≤ 16

-- The interrupt register says what the enables and the line status ask for.
abbrev pub IirCurrent : Uart → Type 0
IirCurrent u = u.iir ≡ calc_iir_locked u

pub record Inv (u : Uart) : Type 0 where
  pub regs : Regs u
  pub current : IirCurrent u

pub init-Inv : (start irq_num : ℕ) → Inv (init start irq_num)
unfolding init calc_iir_locked
init-Inv start irq_num = ground arith

Regs-update_iir : (u : Uart) → Regs u → Regs (update_iir u)
unfolding update_iir
Regs-update_iir u r = ground arith

pub update_iir-Inv : (u : Uart) → Regs u → Inv (update_iir u)
update_iir-Inv u r = record {
  regs = Regs-update_iir u r;
  current = unfold update_iir calc_iir_locked in ground arith;
}

pub is_empty-snoc : (xs : List ℕ) (b : ℕ) → is_empty (xs ++ (b ∷ [])) ≡ false
is_empty-snoc [] b = refl
is_empty-snoc (x ∷ xs) b = refl

push-Regs :
    (b : ℕ) (u : Uart)
    → Regs u
    → u.fifo_enabled ≡ true
    → leb 16 (length u.fifo_buffer) ≡ false
    → Regs (raise_lsr 1 (record u { fifo_buffer = u.fifo_buffer ++ (b ∷ []) }))
push-Regs b u r on room = ground (
  arith,
  set_ready u.lsr r.lsr_byte,
  is_empty-snoc u.fifo_buffer b,
  length-append u.fifo_buffer (b ∷ []),
)

hold-Regs :
    (b : ℕ) (u : Uart) → Regs u → u.fifo_enabled ≡ false → Regs (raise_lsr 1 (record u { rhr = b }))
hold-Regs b u r off = ground (arith, set_ready u.lsr r.lsr_byte)

overrun-Regs : (u : Uart) → Regs u → Regs (raise_lsr 2 u)
overrun-Regs u r = ground (arith, set_overrun u.lsr r.lsr_byte)

lost-Regs : (u : Uart) → Regs u → u.fifo_enabled ≡ false → Regs (raise_lsr 1 (raise_lsr 2 u))
lost-Regs u r off =
    let r' = overrun-Regs u r in ground (arith, set_ready (bit_or u.lsr 2) r'.lsr_byte, r')

overrun-IirCurrent : (u : Uart) → Regs u → IirCurrent u → IirCurrent (raise_lsr 2 u)
unfolding calc_iir_locked
overrun-IirCurrent u r c = ground (arith, set_overrun u.lsr r.lsr_byte)

-- `receive_byte`, branch by branch.
module _ (b : ℕ) (u : Uart) where
  pub receive-full :
      u.fifo_enabled ≡ true
      → leb 16 (length u.fifo_buffer) ≡ true
      → receive_byte b u ≡ quiet (raise_lsr 2 u)
  unfolding receive_byte
  receive-full on full = ground arith

  pub receive-push :
      u.fifo_enabled ≡ true
      → leb 16 (length u.fifo_buffer) ≡ false
      → receive_byte b u
        ≡ updated (raise_lsr 1 (record u { fifo_buffer = u.fifo_buffer ++ (b ∷ []) }))
  unfolding receive_byte
  receive-push on room = ground arith

  pub receive-lost :
      u.fifo_enabled ≡ false
      → data_ready u ≡ true
      → receive_byte b u ≡ updated (raise_lsr 1 (raise_lsr 2 u))
  unfolding receive_byte
  receive-lost off waiting = ground arith

  pub receive-hold :
      u.fifo_enabled ≡ false
      → data_ready u ≡ false
      → receive_byte b u ≡ updated (raise_lsr 1 (record u { rhr = b }))
  unfolding receive_byte
  receive-hold off free = ground arith

  -- A received byte keeps the invariant.
  pub receive_byte-Inv : Inv u → Inv (receive_byte b u).uart
  receive_byte-Inv v = elim (Bool-cases u.fifo_enabled) [
    | inl on ↦ elim (Bool-cases (leb 16 (length u.fifo_buffer))) [
      | inl full ↦
          rw (receive-full on full) (record {
            regs = overrun-Regs u v.regs;
            current = overrun-IirCurrent u v.regs v.current;
          })
      | inr room ↦ rw (receive-push on room) (update_iir-Inv _ (push-Regs b u v.regs on room))
    ]
    | inr off ↦ elim (Bool-cases (data_ready u)) [
      | inl waiting ↦ rw (receive-lost off waiting) (update_iir-Inv _ (lost-Regs u v.regs off))
      | inr free ↦ rw (receive-hold off free) (update_iir-Inv _ (hold-Regs b u v.regs off))
    ]
  ]
