-- ===== src/Isa/Floats/Host/Tests.antt =====
-- Floating-point arithmetic on a concrete host.
use riscv_em.Base.{ℕ, ◌+◌, refl, Bool, true, false}
use riscv_em.Hart.Samples.{user_hart}
use riscv_em.Isa.Floats.{Fpr}
use riscv_em.Isa.Floats.Host.{Host, HostExcept, FloatData}
use riscv_em.Isa.Floats.Host.Laws.{
  Each, refused, Checked, Canonical, double_arithmetic, single_arithmetic, conversions,
  conversions_to_integer, arithmetic-Checked, double_arithmetic-Canonical,
}

-- A host whose every result is a NaN with a payload, and whose environment counts the operations
-- since the flags were cleared.
abbrev nan_after : ℕ → ℕ × ℕ
nan_after e = (0xfff8000000000001, e + 1)

abbrev raised : HostExcept → ℕ → Bool
raised HostExcept.fe_invalid e = true
raised HostExcept.fe_divbyzero e = false
raised HostExcept.fe_overflow e = false
raised HostExcept.fe_underflow e = false
raised HostExcept.fe_inexact e = false

abbrev host : Host ℕ
host = record {
  fesetround = λ mode e. e;
  feclearexcept = λ e. 0;
  fetestexcept = raised;
  round = λ x. nan_after;
  add_double = λ x y. nan_after;
  sub_double = λ x y. nan_after;
  mul_double = λ x y. nan_after;
  div_double = λ x y. nan_after;
  fma = λ x y z. nan_after;
  sqrt = λ x. nan_after;
  sqrt_single = λ x. nan_after;
  widen = λ x. nan_after;
  narrow = λ x. nan_after;
  llrint = λ x. nan_after;
  of_signed = λ x. nan_after;
  of_unsigned = λ x. nan_after;
}

abbrev registers : Fpr
registers i = 0x3ff0000000000000

-- `fadd.d f5, f1, f2` with the mode to the nearest, and with a reserved one.
abbrev nearest : FloatData
nearest = record {
  base = record { inst = 0x022082d3; rs1 = 1; rs2 = 2; rd = 5; imm = 0 };
  rs3 = 0;
  rm = 0;
}

abbrev reserved : FloatData
reserved = record {
  base = record { inst = 0x0220d2d3; rs1 = 1; rs2 = 2; rd = 5; imm = 0 };
  rs3 = 0;
  rm = 5;
}

arithmetic-Checked_example :
    Each
      (λ exec. Checked reserved user_hart registers (exec reserved user_hart registers 0))
      (double_arithmetic host)
    × Each
        (λ exec. Checked reserved user_hart registers (exec reserved user_hart registers 0))
        (single_arithmetic host)
    × Each
        (λ exec. Checked reserved user_hart registers (exec reserved user_hart registers 0))
        (conversions host)
    × Each
        (λ exec. Checked reserved user_hart registers (exec reserved user_hart registers 0))
        (conversions_to_integer host)
arithmetic-Checked_example = arithmetic-Checked host reserved user_hart registers 0

double_arithmetic-Canonical_example :
    Each (λ exec. Canonical nearest (exec nearest user_hart registers 0)) (double_arithmetic host)
unfolding refused
double_arithmetic-Canonical_example =
    double_arithmetic-Canonical host nearest user_hart registers 0 refl
