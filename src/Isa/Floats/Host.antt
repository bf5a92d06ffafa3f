-- ===== src/Isa/Floats/Host.antt =====
-- What the arithmetic of src/sets/rv64f.cpp and rv64d.cpp uses of the host: operations on bit
-- patterns of `double` and `float` over the host's floating-point environment, which holds its
-- rounding mode and its exception flags. `sqrt_single` is `(double)sqrt` of a `float`.
pub mod Double
pub mod Single
pub mod Integers
pub mod Laws
mod Tests
use riscv_em.Base.{ℕ, ◌+◌, ◌^◌, bit_or, ltb, ◌==◌, if◌then◌else◌, Bool, true, false, ◌||◌}
use riscv_em.Traps.{ExecReturn}
use riscv_em.Hart.{Hart}
use riscv_em.Hart.Csr.{fcsr_fflags, set_fcsr_fflags, fcsr_frm}
use riscv_em.Isa.{InstructionData}
use riscv_em.Isa.Floats.{Fpr}

-- The tests of `std::fetestexcept`.
pub data HostExcept : Type 0 where
  fe_invalid : HostExcept
  fe_divbyzero : HostExcept
  fe_overflow : HostExcept
  fe_underflow : HostExcept
  fe_inexact : HostExcept

-- The modes of `std::fesetround`.
pub data HostRound : Type 0 where
  fe_tonearest : HostRound
  fe_towardzero : HostRound
  fe_downward : HostRound
  fe_upward : HostRound

pub record Host (E : Type 0) : Type 0 where
  pub fesetround : HostRound → E → E
  pub feclearexcept : E → E
  pub fetestexcept : HostExcept → E → Bool
  pub round : ℕ → E → ℕ × E
  pub add_double : ℕ → ℕ → E → ℕ × E
  pub sub_double : ℕ → ℕ → E → ℕ × E
  pub mul_double : ℕ → ℕ → E → ℕ × E
  pub div_double : ℕ → ℕ → E → ℕ × E
  pub fma : ℕ → ℕ → ℕ → E → ℕ × E
  pub sqrt : ℕ → E → ℕ × E
  pub sqrt_single : ℕ → E → ℕ × E
  pub widen : ℕ → E → ℕ × E
  pub narrow : ℕ → E → ℕ × E
  pub llrint : ℕ → E → ℕ × E
  pub of_signed : ℕ → E → ℕ × E
  pub of_unsigned : ℕ → E → ℕ × E

-- `InstructionData` with its floating-point fields.
pub record FloatData : Type 0 where
  pub base : InstructionData
  pub rs3 : ℕ
  pub rm : ℕ

-- The rounding mode that an instruction asks for.
unfoldable pub asked_mode : ℕ → Hart → ℕ
asked_mode rm h = if rm == 7 then fcsr_frm h.fcsr else rm

unfoldable pub is_reserved : ℕ → Bool
is_reserved cmp = (cmp == 5) || (cmp == 6)

abbrev pub HostStep : Type 0 → Type 0
HostStep E = ExecReturn × Hart × Fpr × E

-- `{ false, false, 4, 2, inst }`
unfoldable pub reserved_mode : FloatData → ExecReturn
reserved_mode d = record {
  is_success = false;
  can_change_pc = false;
  increase_pc = 4;
  cause = 2;
  tval = d.base.inst;
}

module _ {E : Type 0} (host : Host E) where
  -- The `switch` of `rm_func`.
  unfoldable pub set_rounding : ℕ → E → E
  set_rounding cmp e =
      if cmp == 0
      then host.fesetround HostRound.fe_tonearest e
      else if cmp == 1
      then host.fesetround HostRound.fe_towardzero e
      else if cmp == 2
      then host.fesetround HostRound.fe_downward e
      else if cmp == 3
      then host.fesetround HostRound.fe_upward e
      else e

  -- Whether the mode is an error, and the value.
  unfoldable pub rm_func : ℕ → ℕ → Hart → E → Bool × ℕ × E
  rm_func val rm h e =
      let cmp = asked_mode rm h in
      if is_reserved cmp
      then (true, val, e)
      else if cmp == 4
      then (let (rounded, e') = host.round val e in (false, rounded, e'))
      else (false, val, set_rounding cmp e)

  unfoldable pub add_flag : HostExcept → ℕ → E → ℕ → ℕ
  add_flag except k e fcsr =
      if host.fetestexcept except e
      then set_fcsr_fflags (bit_or (fcsr_fflags fcsr) (2 ^ k)) fcsr
      else fcsr

  -- `FLOAT_END`
  unfoldable pub float_end : E → Hart → Hart
  float_end e h = record h {
    fcsr = add_flag HostExcept.fe_inexact 0 e (
        add_flag HostExcept.fe_underflow 1 e (
          add_flag HostExcept.fe_overflow 2 e
            (add_flag HostExcept.fe_divbyzero 3 e (add_flag HostExcept.fe_invalid 4 e h.fcsr))));
  }
