-- ===== src/Isa/Floats/Host/Laws.antt =====
-- What the arithmetic promises whatever the host computes.
use riscv_em.Base.{
  ℕ, ◌/◌, ◌%◌, ◌==◌, ◌&&◌, ◌||◌, ◌^◌, Bool, bit_or, ◌≡◌, ◌⊎◌, inl, inr, refl, if◌then◌else◌, false,
  Bool-cases, List, [], ◌∷◌, arith,
}
use riscv_em.Base.Bits.{bit, bit-lt, bit-bit_or, bit-two_pow}
use riscv_em.Base.Fields.{field-set_field_self}
use riscv_em.Hart.{Hart, update}
use riscv_em.Hart.Csr.{fcsr_fflags}
use riscv_em.Isa.{next}
use riscv_em.Isa.Floats.{Fpr, Format, canonical_nan, isnan, raise_invalid}
use riscv_em.Isa.Floats.Host.{
  Host, FloatData, HostStep, asked_mode, is_reserved, reserved_mode, rm_func, float_end,
}
use riscv_em.Isa.Floats.Host.Double.{
  arithmetic_d, sanitize_nan, exec_fmadd_d, exec_fmsub_d, exec_fnmadd_d, exec_fnmsub_d, exec_fadd_d,
  exec_fsub_d, exec_fmul_d, exec_fdiv_d, exec_fsqrt_d, word_to_double, long_to_double,
  exec_fcvt_d_w, exec_fcvt_d_wu, exec_fcvt_d_l, exec_fcvt_d_lu, exec_fcvt_s_d,
}
use riscv_em.Isa.Floats.Host.Single.{
  rounded_s, exec_fmadd_s, exec_fmsub_s, exec_fnmadd_s, exec_fnmsub_s, exec_fadd_s, exec_fsub_s,
  exec_fmul_s, exec_fdiv_s, exec_fsqrt_s, integer_to_single, exec_fcvt_s_w, exec_fcvt_s_wu,
  exec_fcvt_s_l, exec_fcvt_s_lu,
}
use riscv_em.Isa.Floats.Host.Integers.{
  Target, to_integer, single_to_integer, double_to_integer, exec_fcvt_w_s, exec_fcvt_wu_s,
  exec_fcvt_l_s, exec_fcvt_lu_s, exec_fcvt_w_d, exec_fcvt_wu_d, exec_fcvt_l_d, exec_fcvt_lu_d,
}

-- A predicate of every element of a list.
unfoldable pub Each : {A : Type 0} → (A → Type 0) → List A → Type 0
Each P [] = Unit
Each P (a ∷ rest) = P a × Each P rest

-- Whether a rounding mode is 5 or 6, itself or through `frm`, the three bits of `fcsr` from bit 5 on.
unfoldable pub refused : ℕ → ℕ → Bool
refused rm fcsr =
    ((rm == 5) || (rm == 6))
    || ((rm == 7) && ((fcsr / 2 ^ 5 % 2 ^ 3 == 5) || (fcsr / 2 ^ 5 % 2 ^ 3 == 6)))

-- The instruction is refused without a change of the registers exactly if its rounding mode is
-- reserved.
unfoldable pub Checked : {E : Type 0} → FloatData → Hart → Fpr → HostStep E → Type 0
Checked d h fpr (done, h', fpr', e') =
    (done ≡ (if refused d.rm h.fcsr then reserved_mode d else next))
    × ((refused d.rm h.fcsr ≡ false) ⊎ ((h' ≡ h) × (fpr' ≡ fpr)))

-- The written register holds no NaN but the canonical one, which is reported.
unfoldable pub Canonical : {E : Type 0} → FloatData → HostStep E → Type 0
Canonical d (done, h', fpr', e') =
    (isnan Format.double (fpr' d.base.rd) ≡ false)
    ⊎ ((fpr' d.base.rd ≡ canonical_nan Format.double) × (bit 4 h'.fcsr ≡ 1))

module _ {E : Type 0} (host : Host E) where
  is_reserved-asked_mode : (rm : ℕ) (h : Hart) → is_reserved (asked_mode rm h) ≡ refused rm h.fcsr
  unfolding is_reserved asked_mode refused
  is_reserved-asked_mode rm h = ground arith

  rm_func-flag : (val rm : ℕ) (h : Hart) (e : E) → (rm_func host val rm h e).0 ≡ refused rm h.fcsr
  unfolding rm_func
  rm_func-flag val rm h e = elim (Bool-cases (refused rm h.fcsr)) [
    | inl reserved ↦ rw (is_reserved-asked_mode rm h, reserved) refl
    | inr free ↦ rw (is_reserved-asked_mode rm h, free) (ground arith)
  ]

  -- The test of the mode, and an instruction that goes on behind it.
  rm_func-Checked :
      (val : ℕ) (d : FloatData) (h : Hart) (fpr : Fpr) (e e' : E) (step : HostStep E)
      → step.0 ≡ next
      → Checked d h fpr
          (if (rm_func host val d.rm h e).0 then (reserved_mode d, h, fpr, e') else step)
  unfolding Checked
  rm_func-Checked val d h fpr e e' step done = elim (Bool-cases (refused d.rm h.fcsr)) [
    | inl reserved ↦ rw (rm_func-flag val d.rm h e, reserved) (refl, inr (refl, refl))
    | inr free ↦ rw (rm_func-flag val d.rm h e, free) (done, inl refl)
  ]

  arithmetic_d-Checked :
      (op : E → ℕ × E) (d : FloatData) (h : Hart) (fpr : Fpr) (e : E)
      → Checked d h fpr (arithmetic_d host op d h fpr e)
  unfolding arithmetic_d
  arithmetic_d-Checked op d h fpr e = rm_func-Checked 0 d h fpr e _ _ refl

  rounded_s-Checked :
      (r : ℕ × E) (d : FloatData) (h : Hart) (fpr : Fpr)
      → Checked d h fpr (rounded_s host r d h fpr)
  unfolding rounded_s
  rounded_s-Checked (res, e) d h fpr = rm_func-Checked res d h fpr (host.feclearexcept e) _ _ refl

  integer_to_single-Checked :
      (r : ℕ × E) (d : FloatData) (h : Hart) (fpr : Fpr)
      → Checked d h fpr (integer_to_single host r d h fpr)
  unfolding integer_to_single
  integer_to_single-Checked (exact, e) d h fpr =
      rm_func-Checked exact d h fpr (host.feclearexcept e) _ _ refl

  word_to_double-Checked :
      (r : ℕ × E) (d : FloatData) (h : Hart) (fpr : Fpr)
      → Checked d h fpr (word_to_double host r d h fpr)
  unfolding word_to_double
  word_to_double-Checked (exact, e) d h fpr = rm_func-Checked exact d h fpr e _ _ refl

  long_to_double-Checked :
      (r : ℕ × E) (d : FloatData) (h : Hart) (fpr : Fpr)
      → Checked d h fpr (long_to_double host r d h fpr)
  unfolding long_to_double
  long_to_double-Checked (exact, e) d h fpr =
      rm_func-Checked exact d h fpr (host.feclearexcept e) _ _ refl

  exec_fcvt_s_d-Checked :
      (d : FloatData) (h : Hart) (fpr : Fpr) (e : E)
      → Checked d h fpr (exec_fcvt_s_d host d h fpr e)
  unfolding exec_fcvt_s_d
  exec_fcvt_s_d-Checked d h fpr e =
      rm_func-Checked (fpr d.base.rs1) d h fpr (host.feclearexcept e) _ _ (ground arith)

  to_integer-Checked :
      (t : Target) (f : Format) (cast : ℕ → ℕ) (src exact : ℕ) (d : FloatData) (h : Hart)
      (fpr : Fpr) (e : E)
      → Checked d h fpr (to_integer host t f cast src exact d h fpr e)
  unfolding to_integer
  to_integer-Checked t f cast src exact d h fpr e = rm_func-Checked exact d h fpr e _ _ refl

  -- The arithmetic of `double` and of `float`, and the conversions that round.
  unfoldable pub double_arithmetic : List (FloatData → Hart → Fpr → E → HostStep E)
  double_arithmetic =
      exec_fmadd_d host
      ∷ exec_fmsub_d host
      ∷ exec_fnmadd_d host
      ∷ exec_fnmsub_d host
      ∷ exec_fadd_d host
      ∷ exec_fsub_d host
      ∷ exec_fmul_d host
      ∷ exec_fdiv_d host
      ∷ exec_fsqrt_d host
      ∷ []

  unfoldable pub single_arithmetic : List (FloatData → Hart → Fpr → E → HostStep E)
  single_arithmetic =
      exec_fmadd_s host
      ∷ exec_fmsub_s host
      ∷ exec_fnmadd_s host
      ∷ exec_fnmsub_s host
      ∷ exec_fadd_s host
      ∷ exec_fsub_s host
      ∷ exec_fmul_s host
      ∷ exec_fdiv_s host
      ∷ exec_fsqrt_s host
      ∷ []

  unfoldable pub conversions : List (FloatData → Hart → Fpr → E → HostStep E)
  conversions =
      exec_fcvt_d_w host
      ∷ exec_fcvt_d_wu host
      ∷ exec_fcvt_d_l host
      ∷ exec_fcvt_d_lu host
      ∷ exec_fcvt_s_w host
      ∷ exec_fcvt_s_wu host
      ∷ exec_fcvt_s_l host
      ∷ exec_fcvt_s_lu host
      ∷ exec_fcvt_s_d host
      ∷ []

  unfoldable pub conversions_to_integer : List (FloatData → Hart → Fpr → E → HostStep E)
  conversions_to_integer =
      exec_fcvt_w_s host
      ∷ exec_fcvt_wu_s host
      ∷ exec_fcvt_l_s host
      ∷ exec_fcvt_lu_s host
      ∷ exec_fcvt_w_d host
      ∷ exec_fcvt_wu_d host
      ∷ exec_fcvt_l_d host
      ∷ exec_fcvt_lu_d host
      ∷ []

  -- Whatever the host computes: each arithmetic instruction and each conversion but the one from
  -- `float` to `double` reports an illegal instruction exactly if the rounding mode that it asks
  -- for is 5 or 6, itself or through `frm`; the hart and the registers then stay as they were.
  pub arithmetic-Checked :
      (d : FloatData) (h : Hart) (fpr : Fpr) (e : E)
      → Each (λ exec. Checked d h fpr (exec d h fpr e)) double_arithmetic
        × Each (λ exec. Checked d h fpr (exec d h fpr e)) single_arithmetic
        × Each (λ exec. Checked d h fpr (exec d h fpr e)) conversions
        × Each (λ exec. Checked d h fpr (exec d h fpr e)) conversions_to_integer
  unfolding Each double_arithmetic single_arithmetic conversions conversions_to_integer
      exec_fcvt_w_s exec_fcvt_wu_s exec_fcvt_l_s exec_fcvt_lu_s exec_fcvt_w_d exec_fcvt_wu_d
      exec_fcvt_l_d exec_fcvt_lu_d single_to_integer double_to_integer exec_fmadd_d exec_fmsub_d
      exec_fnmadd_d exec_fnmsub_d exec_fadd_d exec_fsub_d exec_fmul_d exec_fdiv_d exec_fsqrt_d
      exec_fmadd_s exec_fmsub_s exec_fnmadd_s exec_fnmsub_s exec_fadd_s exec_fsub_s exec_fmul_s
      exec_fdiv_s exec_fsqrt_s exec_fcvt_d_w exec_fcvt_d_wu exec_fcvt_d_l exec_fcvt_d_lu
      exec_fcvt_s_w exec_fcvt_s_wu exec_fcvt_s_l exec_fcvt_s_lu
  arithmetic-Checked d h fpr e =
      let a = λ (op : E → ℕ × E). arithmetic_d-Checked op d h fpr e in
      let r = λ (res : ℕ × E). rounded_s-Checked res d h fpr in
      let i = λ (exact : ℕ × E). integer_to_single-Checked exact d h fpr in
      let w = λ (exact : ℕ × E). word_to_double-Checked exact d h fpr in
      let l = λ (exact : ℕ × E). long_to_double-Checked exact d h fpr in
      (
        (a _, (a _, (a _, (a _, (a _, (a _, (a _, (a _, (a _, tt))))))))),
        (r _, (r _, (r _, (r _, (r _, (r _, (r _, (r _, (r _, tt))))))))),
        (
          w _,
          (w _, (l _, (l _, (i _, (i _, (i _, (i _, (exec_fcvt_s_d-Checked d h fpr e, tt)))))))),
        ),
        (
          to_integer-Checked _ _ _ _ _ d h fpr _,
          (
            to_integer-Checked _ _ _ _ _ d h fpr _,
            (
              to_integer-Checked _ _ _ _ _ d h fpr _,
              (
                to_integer-Checked _ _ _ _ _ d h fpr _,
                (
                  to_integer-Checked _ _ _ _ _ d h fpr _,
                  (
                    to_integer-Checked _ _ _ _ _ d h fpr _,
                    (
                      to_integer-Checked _ _ _ _ _ d h fpr _,
                      (to_integer-Checked _ _ _ _ _ d h fpr _, tt),
                    ),
                  ),
                ),
              ),
            ),
          ),
        ),
      )

  raise_invalid-bit : (h : Hart) → bit 4 (raise_invalid h).fcsr ≡ 1
  unfolding raise_invalid
  raise_invalid-bit h =
      let flags = bit_or (fcsr_fflags h.fcsr) (2 ^ 4) in
      omega (
        arith,
        field-set_field_self 5 0 flags h.fcsr,
        bit-bit_or 4 (fcsr_fflags h.fcsr) (2 ^ 4),
        bit-two_pow 4 4,
        bit-lt 4 flags,
      )

  sanitize_nan-Canonical :
      (d : FloatData) (h : Hart) (fpr : Fpr) (res : ℕ) (e : E)
      → Canonical d (next, (sanitize_nan h res).1, update fpr d.base.rd (sanitize_nan h res).0, e)
  unfolding Canonical sanitize_nan
  sanitize_nan-Canonical d h fpr res e = ground (arith, raise_invalid-bit h)

  arithmetic_d-Canonical :
      (op : E → ℕ × E) (d : FloatData) (h : Hart) (fpr : Fpr) (e : E)
      → refused d.rm h.fcsr ≡ false
      → Canonical d (arithmetic_d host op d h fpr e)
  unfolding arithmetic_d Canonical
  arithmetic_d-Canonical op d h fpr e free =
      let e1 = (rm_func host 0 d.rm h e).2 in
      let (res, e2) = op (host.feclearexcept e1) in
      rw (rm_func-flag 0 d.rm h e, free) (sanitize_nan-Canonical d (float_end host e2 h) fpr res e2)

  -- Whatever the host computes: an arithmetic instruction of `double` whose rounding mode is not
  -- reserved writes no NaN but the canonical one, and with it the flag NV is up.
  pub double_arithmetic-Canonical :
      (d : FloatData) (h : Hart) (fpr : Fpr) (e : E)
      → refused d.rm h.fcsr ≡ false
      → Each (λ exec. Canonical d (exec d h fpr e)) double_arithmetic
  unfolding Each double_arithmetic exec_fmadd_d exec_fmsub_d exec_fnmadd_d exec_fnmsub_d exec_fadd_d
      exec_fsub_d exec_fmul_d exec_fdiv_d exec_fsqrt_d
  double_arithmetic-Canonical d h fpr e free =
      let c = λ (op : E → ℕ × E). arithmetic_d-Canonical op d h fpr e free in
      (c _, (c _, (c _, (c _, (c _, (c _, (c _, (c _, (c _, tt)))))))))
