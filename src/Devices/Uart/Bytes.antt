-- ===== src/Devices/Uart/Bytes.antt =====
-- What setting and clearing a bit does to the flags of the line status register, for every byte.
use riscv_em.Base.{ℕ, ◌<◌, ◌≡◌, refl, ◌==◌, ltb, bit_and, bit_or, Bool, true, ◌&&◌, arith}
use riscv_em.Base.Bits.{all_below, all_below_sound}

-- Clearing the data-ready flag, clearing the overrun flag, and setting each of them.
table : ℕ → Bool
table l =
    ((bit_and (bit_and l 0xfe) 1 == 0) && (bit_and (bit_and l 0xfe) 0x20 == bit_and l 0x20))
    && ((bit_and (bit_and l 0xfd) 1 == bit_and l 1)
        && (bit_and (bit_and l 0xfd) 0x20 == bit_and l 0x20))
    && ((bit_and (bit_or l 1) 1 == 1) && (bit_and (bit_or l 1) 0x20 == bit_and l 0x20))
    && ((bit_and (bit_or l 2) 1 == bit_and l 1) && (bit_and (bit_or l 2) 0x20 == bit_and l 0x20))
    && (ltb (bit_and l 0xfe) 256 && ltb (bit_and l 0xfd) 256)
    && (ltb (bit_or l 1) 256 && ltb (bit_or l 2) 256)

table-holds : all_below table 256 ≡ true
unfolding all_below table
table-holds = refl

module _ (l : ℕ) (h : l < 256) where
  row : table l ≡ true
  row = all_below_sound table 256 l h table-holds

  pub clear_ready :
      (bit_and (bit_and l 0xfe) 1 ≡ 0)
      × (bit_and (bit_and l 0xfe) 0x20 ≡ bit_and l 0x20)
      × (bit_and l 0xfe < 256)
  unfolding table
  clear_ready = ground (arith, row)

  pub clear_overrun :
      (bit_and (bit_and l 0xfd) 1 ≡ bit_and l 1)
      × (bit_and (bit_and l 0xfd) 0x20 ≡ bit_and l 0x20)
      × (bit_and l 0xfd < 256)
  unfolding table
  clear_overrun = ground (arith, row)

  pub set_ready :
      (bit_and (bit_or l 1) 1 ≡ 1)
      × (bit_and (bit_or l 1) 0x20 ≡ bit_and l 0x20)
      × (bit_or l 1 < 256)
  unfolding table
  set_ready = ground (arith, row)

  pub set_overrun :
      (bit_and (bit_or l 2) 1 ≡ bit_and l 1)
      × (bit_and (bit_or l 2) 0x20 ≡ bit_and l 0x20)
      × (bit_or l 2 < 256)
  unfolding table
  set_overrun = ground (arith, row)
