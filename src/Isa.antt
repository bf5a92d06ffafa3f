-- ===== src/Isa.antt =====
-- What the instruction sets of src/sets share: include/decode.hpp's decoded fields of an
-- instruction, the common results, and C++'s signed operations on 64-bit patterns.
pub mod Immediates
pub mod Integer
pub mod Branches
pub mod Transfers
pub mod Muldiv
pub mod Bitmanip
pub mod Compressed
pub mod Atomic
pub mod CacheBlocks
pub mod Zicsr
pub mod Floats
mod Tests
pub mod Privileged
use riscv_em.Base.{
  ℕ, ◌+◌, ◌-◌, ◌*◌, ◌/◌, ◌%◌, ◌^◌, u32, u64, ltb, leb, if◌then◌else◌, Bool, true, false,
}
use riscv_em.Traps.{ExecReturn}
use riscv_em.Hart.{Hart, set_gpr}

-- `InstructionData`, without the floating-point fields.
pub record InstructionData : Type 0 where
  pub inst : ℕ
  pub rs1 : ℕ
  pub rs2 : ℕ
  pub rd : ℕ
  pub imm : ℕ

-- `{ true, false, 4, 0, 0 }`
abbrev pub next : ExecReturn
next = record { is_success = true; can_change_pc = false; increase_pc = 4; cause = 0; tval = 0 }

-- `{ false, can_change_pc, 0, cause, tval }`
abbrev pub raise : Bool → ℕ → ℕ → ExecReturn
raise can_change_pc cause tval = record {
  is_success = false;
  can_change_pc = can_change_pc;
  increase_pc = 0;
  cause = cause;
  tval = tval;
}

-- An instruction that writes `rd` and goes on.
abbrev pub result : ℕ → InstructionData → Hart → ExecReturn × Hart
result v d h = (next, set_gpr d.rd v h)

-- The sign of a pattern of `w + 1` bits, and its absolute value.
abbrev pub negative : ℕ → ℕ → Bool
negative w x = leb (2 ^ w) x

abbrev pub magnitude : ℕ → ℕ → ℕ
magnitude w x = if negative w x then 2 ^ (w + 1) - x else x

-- `(int64_t)a < (int64_t)b`
abbrev pub slt64 : ℕ → ℕ → Bool
slt64 a b = ltb ((a + 2 ^ 63) % 2 ^ 64) ((b + 2 ^ 63) % 2 ^ 64)

-- `a >> s` on a signed type of `w + 1` bits.
abbrev pub shift_right_signed : ℕ → ℕ → ℕ → ℕ
shift_right_signed w a s =
    if negative w a then 2 ^ (w + 1) - 1 - (2 ^ (w + 1) - 1 - a) / 2 ^ s else a / 2 ^ s
