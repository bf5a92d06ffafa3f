-- ===== src/Isa/Muldiv.antt =====
-- src/sets/rv64m.cpp: multiplication and division on 64-bit patterns.
pub mod Laws
use riscv_em.Base.{
  ℕ, ◌+◌, ◌-◌, ◌*◌, ◌/◌, ◌%◌, ◌^◌, u32, u64, sext32, ltb, leb, ◌==◌, if◌then◌else◌, Bool, true,
  false, not, ◌&&◌,
}
use riscv_em.Traps.{ExecReturn}
use riscv_em.Hart.{Hart}
use riscv_em.Memory.{Outcome}
use riscv_em.Isa.{InstructionData, result, negative, magnitude}

-- The pattern of `w + 1` bits of a number given by its sign and its absolute value.
unfoldable pub signed : ℕ → Bool → ℕ → ℕ
signed w minus m = if minus then (2 ^ (w + 1) - m) % 2 ^ (w + 1) else m

-- Do the signs of two patterns differ?
abbrev pub opposite : ℕ → ℕ → ℕ → Bool
opposite w a b = if negative w a then not (negative w b) else negative w b

-- C++'s `a / b` and `a % b` on a signed type of `w + 1` bits, which round towards zero.
unfoldable pub signed_div : ℕ → ℕ → ℕ → ℕ
signed_div w a b = signed w (opposite w a b) (magnitude w a / magnitude w b)

unfoldable pub signed_rem : ℕ → ℕ → ℕ → ℕ
signed_rem w a b = signed w (negative w a) (magnitude w a % magnitude w b)

abbrev pub all_ones : ℕ
all_ones = 2 ^ 64 - 1

-- The values that the instructions give to `rd`.
pub divw : ℕ → ℕ → ℕ
divw a b =
    if b == 0
    then all_ones
    else if a == 0
    then 0
    else if (a == 2 ^ 31) && (b == 2 ^ 32 - 1)
    then sext32 a
    else sext32 (signed_div 31 a b)

pub divuw : ℕ → ℕ → ℕ
divuw a b = if b == 0 then all_ones else if a == 0 then 0 else sext32 (a / b)

pub remw : ℕ → ℕ → ℕ
remw a b =
    if b == 0
    then sext32 a
    else if (a == 2 ^ 31) && (b == 2 ^ 32 - 1)
    then 0
    else sext32 (signed_rem 31 a b)

pub div : ℕ → ℕ → ℕ
div a b =
    if b == 0
    then all_ones
    else if a == 0
    then 0
    else if (a == 2 ^ 63) && (b == 2 ^ 64 - 1)
    then a
    else signed_div 63 a b

pub divu : ℕ → ℕ → ℕ
divu a b = if b == 0 then all_ones else if a == 0 then 0 else a / b

pub rem : ℕ → ℕ → ℕ
rem a b = if b == 0 then a else if (a == 2 ^ 63) && (b == 2 ^ 64 - 1) then 0 else signed_rem 63 a b

pub remu : ℕ → ℕ → ℕ
remu a b = if b == 0 then a else a % b

-- The product is an `int`'s: outside of its range C++ leaves the result undefined.
pub exec_mulw : InstructionData → Hart → Outcome (ExecReturn × Hart)
exec_mulw d h =
    let a = u32 (h.gpr d.rs1) in
    let b = u32 (h.gpr d.rs2) in
    let m = magnitude 31 a * magnitude 31 b in
    if (if opposite 31 a b then leb m (2 ^ 31) else ltb m (2 ^ 31))
    then Outcome.done (result (sext32 (signed 31 (opposite 31 a b) m)) d h)
    else Outcome.undefined

pub exec_divw : InstructionData → Hart → ExecReturn × Hart
exec_divw d h = result (divw (u32 (h.gpr d.rs1)) (u32 (h.gpr d.rs2))) d h

pub exec_divuw : InstructionData → Hart → ExecReturn × Hart
exec_divuw d h = result (divuw (u32 (h.gpr d.rs1)) (u32 (h.gpr d.rs2))) d h

pub exec_remw : InstructionData → Hart → ExecReturn × Hart
exec_remw d h = result (remw (u32 (h.gpr d.rs1)) (u32 (h.gpr d.rs2))) d h

-- By zero it gives the whole register.
pub exec_remuw : InstructionData → Hart → ExecReturn × Hart
exec_remuw d h =
    let b = u32 (h.gpr d.rs2) in
    result (if b == 0 then h.gpr d.rs1 else sext32 (u32 (h.gpr d.rs1) % b)) d h

pub exec_mul : InstructionData → Hart → ExecReturn × Hart
exec_mul d h = result (u64 (h.gpr d.rs1 * h.gpr d.rs2)) d h

-- The upper half of a product of 128 bits.
pub exec_mulh : InstructionData → Hart → ExecReturn × Hart
exec_mulh d h =
    let a = h.gpr d.rs1 in
    let b = h.gpr d.rs2 in
    result (signed 127 (opposite 63 a b) (magnitude 63 a * magnitude 63 b) / 2 ^ 64) d h

pub exec_mulhsu : InstructionData → Hart → ExecReturn × Hart
exec_mulhsu d h =
    let a = h.gpr d.rs1 in
    let wide = if negative 63 a then a + (2 ^ 128 - 2 ^ 64) else a in
    result (wide * h.gpr d.rs2 % 2 ^ 128 / 2 ^ 64) d h

pub exec_mulhu : InstructionData → Hart → ExecReturn × Hart
exec_mulhu d h = result (h.gpr d.rs1 * h.gpr d.rs2 / 2 ^ 64) d h

pub exec_div : InstructionData → Hart → ExecReturn × Hart
exec_div d h = result (div (h.gpr d.rs1) (h.gpr d.rs2)) d h

pub exec_divu : InstructionData → Hart → ExecReturn × Hart
exec_divu d h = result (divu (h.gpr d.rs1) (h.gpr d.rs2)) d h

pub exec_rem : InstructionData → Hart → ExecReturn × Hart
exec_rem d h = result (rem (h.gpr d.rs1) (h.gpr d.rs2)) d h

pub exec_remu : InstructionData → Hart → ExecReturn × Hart
exec_remu d h = result (remu (h.gpr d.rs1) (h.gpr d.rs2)) d h
