-- ===== src/Hart/Access/Masks.antt =====
-- The masked merge of `Hart::csr_write`, bit by bit.
use riscv_em.Base.{ℕ, ◌^◌, ◌<◌, ◌≡◌, arith, bit_and, not64, ◌==◌, if◌then◌else◌}
use riscv_em.Base.Bits.{bit, bit-lt, bit-bit_and, bit-bit_or, bit-complement}
use riscv_em.Hart.Access.{merge}

-- A bit of the mask chooses between the new value and the old one.
pub bit-merge :
    (k mask old val : ℕ)
    → k < 64
    → mask < 2 ^ 64
    → bit k (merge mask old val) ≡ (if bit k mask == 1 then bit k val else bit k old)
unfolding merge
bit-merge k mask old val hk hm = ground (
  arith,
  bit-bit_or k (bit_and old (not64 mask)) (bit_and val mask),
  bit-bit_and k old (not64 mask),
  bit-bit_and k val mask,
  bit-complement 64 k mask hm hk,
  bit-lt k mask,
  bit-lt k old,
  bit-lt k val,
)
