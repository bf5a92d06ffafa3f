-- ===== src/Isa/Atomic.antt =====
-- src/sets/rv64a.cpp: load-reserved, store-conditional and the read-modify-write instructions.
pub mod Laws
mod Tests
use riscv_em.Base.{
  ℕ, ◌+◌, ◌-◌, ◌*◌, ◌/◌, ◌%◌, ◌^◌, bit_and, bit_or, bit_xor, u32, u64, add64, sext32, ltb, ◌==◌,
  if◌then◌else◌, Bool, true, false, ◌&&◌, Option, none, some,
}
use riscv_em.Traps.{MemorySize, size_code, MemoryReturn, ExecReturn}
use riscv_em.Hart.{Hart, set_gpr}
use riscv_em.Memory.{Outcome}
use riscv_em.Memory.Mmio.{Mmio, success, read, write}
use riscv_em.Isa.{InstructionData, next, slt64}
use riscv_em.Isa.Transfers.{Step}

abbrev pub release : Hart → Hart
release h = record h { reservation = record h.reservation { valid = false } }

-- What a store-conditional wants of the reservation.
abbrev pub reserved : ℕ → MemorySize → Hart → Bool
reserved va size h =
    h.reservation.valid && (h.reservation.vaddr == va && h.reservation.size == size_code size)

-- `*(uint8_t*)out_val = b`: the other bytes of the variable, which has no initial value, stay.
abbrev pub low_byte : ℕ → ℕ → ℕ
low_byte junk b = junk / 2 ^ 8 * 2 ^ 8 + b

-- `(int32_t)a < (int32_t)b`
abbrev pub slt32 : ℕ → ℕ → Bool
slt32 a b = ltb ((a + 2 ^ 31) % 2 ^ 32) ((b + 2 ^ 31) % 2 ^ 32)

-- What the instruction reports; `failed` is the pc's increase after a fault.
abbrev pub report : ℕ → MemoryReturn → ExecReturn
report failed r = if r.is_success then next else record {
  is_success = false;
  can_change_pc = false;
  increase_pc = failed;
  cause = r.exc_code;
  tval = r.tval;
}

-- The memory's result, the value for the caller's variable, if one is written, and the state.
abbrev pub Access : Type 0 → Type 0
Access D = Outcome (MemoryReturn × Option ℕ × Hart × Mmio D)

module _ {D : Type 0} where
  -- After the write of a store-conditional.
  pub conditional : ℕ → Outcome (MemoryReturn × Hart × Mmio D) → Access D
  conditional junk (Outcome.done (out, h, m)) =
      if out.is_success
      then Outcome.done (out, some (low_byte junk 0), release h, m)
      else Outcome.done (out, none, h, m)
  conditional junk Outcome.throws = Outcome.throws
  conditional junk Outcome.undefined = Outcome.undefined

  pub amo_sc : ℕ → ℕ → MemorySize → ℕ → Hart → Mmio D → Access D
  amo_sc junk va size val h m =
      if reserved va size h
      then conditional junk (write va size val h m)
      else Outcome.done (success, some (low_byte junk 1), release h, m)

  pub reserve : ℕ → MemorySize → Access D → Access D
  reserve va size (Outcome.done (out, value, h, m)) =
      if out.is_success
      then Outcome.done (
        out,
        value,
        record h { reservation = record { vaddr = va; size = size_code size; valid = true } },
        m,
      )
      else Outcome.done (out, none, h, m)
  reserve va size Outcome.throws = Outcome.throws
  reserve va size Outcome.undefined = Outcome.undefined

  pub amo_lr : ℕ → MemorySize → Hart → Mmio D → Access D
  amo_lr va size h m = reserve va size (read va size h m)

  -- The second half of `AMO64` and `AMO32`: the old value is handed out if the write succeeded.
  pub written_back : ℕ → Outcome (MemoryReturn × Hart × Mmio D) → Access D
  written_back val (Outcome.done (s, h, m)) =
      if s.is_success then Outcome.done (success, some val, h, m) else Outcome.done (s, none, h, m)
  written_back val Outcome.throws = Outcome.throws
  written_back val Outcome.undefined = Outcome.undefined

  pub modify : ℕ → MemorySize → (ℕ → ℕ) → Access D → Access D
  modify va size func (Outcome.done (out, some val, h, m)) =
      if out.is_success
      then written_back val (write va size (func val) h m)
      else Outcome.done (out, none, h, m)
  modify va size func (Outcome.done (out, none, h, m)) = Outcome.done (out, none, h, m)
  modify va size func Outcome.throws = Outcome.throws
  modify va size func Outcome.undefined = Outcome.undefined

  pub amo64 : ℕ → ℕ → (ℕ → ℕ → ℕ) → Hart → Mmio D → Access D
  amo64 va rs2 func h m =
      modify va MemorySize.long (λ val. func val rs2) (read va MemorySize.long h m)

  pub amo32 : ℕ → ℕ → (ℕ → ℕ → ℕ) → Hart → Mmio D → Access D
  amo32 va rs2 func h m =
      modify va MemorySize.int (λ val. func val (u32 rs2)) (read va MemorySize.int h m)

  -- `rd` is written if the access succeeded.
  pub finish_access : ℕ → (ℕ → ℕ) → InstructionData → Access D → Step D
  finish_access failed convert d (Outcome.done (r, some v, h, m)) =
      Outcome.done (report failed r, if r.is_success then set_gpr d.rd (convert v) h else h, m)
  finish_access failed convert d (Outcome.done (r, none, h, m)) =
      Outcome.done (report failed r, h, m)
  finish_access failed convert d Outcome.throws = Outcome.throws
  finish_access failed convert d Outcome.undefined = Outcome.undefined

  pub exec_lr_d : InstructionData → Hart → Mmio D → Step D
  exec_lr_d d h m = finish_access 4 (λ v. v) d (amo_lr (h.gpr d.rs1) MemorySize.long h m)

  -- The first argument is what the variable holds before, since it has no initial value.
  pub exec_sc_d : ℕ → InstructionData → Hart → Mmio D → Step D
  exec_sc_d junk d h m =
      finish_access 4 (λ v. v) d (amo_sc junk (h.gpr d.rs1) MemorySize.long (h.gpr d.rs2) h m)

  pub exec_lr_w : InstructionData → Hart → Mmio D → Step D
  exec_lr_w d h m = finish_access 0 sext32 d (amo_lr (h.gpr d.rs1) MemorySize.int h m)

  pub exec_sc_w : ℕ → InstructionData → Hart → Mmio D → Step D
  exec_sc_w junk d h m =
      finish_access 0 u32 d (amo_sc junk (h.gpr d.rs1) MemorySize.int (u32 (h.gpr d.rs2)) h m)

  pub exec_amoswap_d : InstructionData → Hart → Mmio D → Step D
  exec_amoswap_d d h m =
      finish_access 4 (λ v. v) d (amo64 (h.gpr d.rs1) (h.gpr d.rs2) (λ a b. b) h m)

  pub exec_amoadd_d : InstructionData → Hart → Mmio D → Step D
  exec_amoadd_d d h m =
      finish_access 4 (λ v. v) d (amo64 (h.gpr d.rs1) (h.gpr d.rs2) (λ a b. add64 a b) h m)

  pub exec_amoxor_d : InstructionData → Hart → Mmio D → Step D
  exec_amoxor_d d h m =
      finish_access 4 (λ v. v) d (amo64 (h.gpr d.rs1) (h.gpr d.rs2) (λ a b. bit_xor a b) h m)

  pub exec_amoand_d : InstructionData → Hart → Mmio D → Step D
  exec_amoand_d d h m =
      finish_access 4 (λ v. v) d (amo64 (h.gpr d.rs1) (h.gpr d.rs2) (λ a b. bit_and a b) h m)

  pub exec_amoor_d : InstructionData → Hart → Mmio D → Step D
  exec_amoor_d d h m =
      finish_access 4 (λ v. v) d (amo64 (h.gpr d.rs1) (h.gpr d.rs2) (λ a b. bit_or a b) h m)

  pub exec_amomin_d : InstructionData → Hart → Mmio D → Step D
  exec_amomin_d d h m =
      finish_access 4 (λ v. v) d
        (amo64 (h.gpr d.rs1) (h.gpr d.rs2) (λ a b. if slt64 b a then b else a) h m)

  pub exec_amomax_d : InstructionData → Hart → Mmio D → Step D
  exec_amomax_d d h m =
      finish_access 4 (λ v. v) d
        (amo64 (h.gpr d.rs1) (h.gpr d.rs2) (λ a b. if slt64 a b then b else a) h m)

  pub exec_amominu_d : InstructionData → Hart → Mmio D → Step D
  exec_amominu_d d h m =
      finish_access 4 (λ v. v) d
        (amo64 (h.gpr d.rs1) (h.gpr d.rs2) (λ a b. if ltb b a then b else a) h m)

  pub exec_amomaxu_d : InstructionData → Hart → Mmio D → Step D
  exec_amomaxu_d d h m =
      finish_access 4 (λ v. v) d
        (amo64 (h.gpr d.rs1) (h.gpr d.rs2) (λ a b. if ltb a b then b else a) h m)

  pub exec_amoswap_w : InstructionData → Hart → Mmio D → Step D
  exec_amoswap_w d h m = finish_access 4 sext32 d (amo32 (h.gpr d.rs1) (h.gpr d.rs2) (λ a b. b) h m)

  pub exec_amoadd_w : InstructionData → Hart → Mmio D → Step D
  exec_amoadd_w d h m =
      finish_access 4 sext32 d (amo32 (h.gpr d.rs1) (h.gpr d.rs2) (λ a b. u32 (a + b)) h m)

  pub exec_amoxor_w : InstructionData → Hart → Mmio D → Step D
  exec_amoxor_w d h m =
      finish_access 4 sext32 d (amo32 (h.gpr d.rs1) (h.gpr d.rs2) (λ a b. bit_xor a b) h m)

  pub exec_amoand_w : InstructionData → Hart → Mmio D → Step D
  exec_amoand_w d h m =
      finish_access 4 sext32 d (amo32 (h.gpr d.rs1) (h.gpr d.rs2) (λ a b. bit_and a b) h m)

  pub exec_amoor_w : InstructionData → Hart → Mmio D → Step D
  exec_amoor_w d h m =
      finish_access 4 sext32 d (amo32 (h.gpr d.rs1) (h.gpr d.rs2) (λ a b. bit_or a b) h m)

  pub exec_amomin_w : InstructionData → Hart → Mmio D → Step D
  exec_amomin_w d h m =
      finish_access 4 sext32 d
        (amo32 (h.gpr d.rs1) (h.gpr d.rs2) (λ a b. if slt32 b a then b else a) h m)

  pub exec_amomax_w : InstructionData → Hart → Mmio D → Step D
  exec_amomax_w d h m =
      finish_access 4 sext32 d
        (amo32 (h.gpr d.rs1) (h.gpr d.rs2) (λ a b. if slt32 a b then b else a) h m)

  pub exec_amominu_w : InstructionData → Hart → Mmio D → Step D
  exec_amominu_w d h m =
      finish_access 4 sext32 d
        (amo32 (h.gpr d.rs1) (h.gpr d.rs2) (λ a b. if ltb b a then b else a) h m)

  pub exec_amomaxu_w : InstructionData → Hart → Mmio D → Step D
  exec_amomaxu_w d h m =
      finish_access 4 sext32 d
        (amo32 (h.gpr d.rs1) (h.gpr d.rs2) (λ a b. if ltb a b then b else a) h m)
