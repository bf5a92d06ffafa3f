-- ===== src/Isa/Floats/Laws.antt =====
-- What comparisons, minimum, maximum and classification have to do with each other, and a store
-- with a load.
use riscv_em.Base.{
  ℕ, ◌+◌, ◌-◌, ltb, leb, ◌==◌, ◌*◌, ◌%◌, ◌^◌, ◌≤◌, ◌<◌, ◌≡◌, ◌⊎◌, refl, ap, ◌∙◌, u32, if◌then◌else◌,
  Bool, Bool-cases, inl, inr, true, false, ◌||◌, arith,
}
use native.Mathlib.Nat.{mod-mod}
use riscv_em.Traps.{MemorySize}
use riscv_em.Hart.{Hart, update}
use riscv_em.Memory.{Outcome, MemoryRegion}
use riscv_em.Memory.Mmio.{Mmio, amo_check_reservation, in_dram, read}
use riscv_em.Memory.Mmio.Ram.{RamAt, after, write-read}
use riscv_em.Isa.{InstructionData, next}
use riscv_em.Isa.Transfers.{address}
use riscv_em.Isa.Floats.{
  Fpr, Format, sign_mask, exponent_mask, signbit, unsigned_part, isnan, isless, is_equal, minimum,
  maximum, classify,
}
use riscv_em.Isa.Floats.Single.{f32_in, f32_out, exec_feq_s, exec_flt_s, exec_fle_s, exec_fclass_s}
use riscv_em.Isa.Floats.Double.{exec_fmin_d, exec_fmax_d}
use riscv_em.Isa.Floats.Access.{exec_flw, exec_fsw, finish_float_load, finish_float_store}
use riscv_em.Isa.Floats.Order.{
  key, isless-key, is_equal-key, minimum-maximum, isless-classify, issnan-isnan,
}

-- The same instruction with its operands exchanged.
unfoldable pub exchanged : InstructionData → InstructionData
exchanged d = record d { rs1 = d.rs2; rs2 = d.rs1 }

single_word : (v : ℕ) → f32_in v < 2 * sign_mask Format.single
unfolding sign_mask
single_word v = omega arith

flt_value :
    (d : InstructionData) (h : Hart) (fpr : Fpr)
    → (exec_flt_s d h fpr).1.gpr d.rd ≡ (
        if isnan Format.single (f32_in (fpr d.rs1)) || isnan Format.single (f32_in (fpr d.rs2))
        then 0
        else if isless Format.single (f32_in (fpr d.rs1)) (f32_in (fpr d.rs2))
        then 1
        else 0)
unfolding exec_flt_s
flt_value d h fpr = ground arith

feq_value :
    (d : InstructionData) (h : Hart) (fpr : Fpr)
    → (exec_feq_s d h fpr).1.gpr d.rd ≡ (
        if isnan Format.single (f32_in (fpr d.rs1)) || isnan Format.single (f32_in (fpr d.rs2))
        then 0
        else if is_equal Format.single (f32_in (fpr d.rs1)) (f32_in (fpr d.rs2))
        then 1
        else 0)
unfolding exec_feq_s is_equal
feq_value d h fpr = ground (
  arith,
  issnan-isnan Format.single (f32_in (fpr d.rs1)),
  issnan-isnan Format.single (f32_in (fpr d.rs2)),
)

fclass_value :
    (d : InstructionData) (h : Hart) (fpr : Fpr)
    → (exec_fclass_s d h fpr).1.gpr d.rd ≡ classify Format.single (f32_in (fpr d.rs1))
unfolding exec_fclass_s
fclass_value d h fpr = ground arith

fle_value :
    (d : InstructionData) (h : Hart) (fpr : Fpr)
    → (exec_fle_s d h fpr).1.gpr d.rd ≡ (
        if isnan Format.single (f32_in (fpr d.rs1)) || isnan Format.single (f32_in (fpr d.rs2))
        then 0
        else if isless Format.single (f32_in (fpr d.rs1)) (f32_in (fpr d.rs2))
            || is_equal Format.single (f32_in (fpr d.rs1)) (f32_in (fpr d.rs2))
        then 1
        else 0)
unfolding exec_fle_s
fle_value d h fpr = ground arith

-- The place of a `float` on the line of numbers, from its pattern: the positive numbers follow 2 ^ 31
-- in the order of their patterns, the negative ones precede it in the reverse order, and both zeros
-- stand on it.
unfoldable pub place : ℕ → ℕ
place v = if ltb v 0x80000000 then 0x80000000 + v else 0x100000000 - v

-- The pattern is a NaN's: without its sign it is greater than the one of infinity.
unfoldable pub no_number : ℕ → Bool
no_number v = ltb 0x7f800000 (v % 0x80000000)

key-place : (v : ℕ) → v < 2 ^ 32 → key Format.single v ≡ place v
unfolding key place signbit unsigned_part sign_mask
key-place v word = ground (arith, word)

isnan-no_number : (v : ℕ) → isnan Format.single v ≡ no_number v
unfolding isnan no_number unsigned_part sign_mask exponent_mask
isnan-no_number v = refl

-- Two numbers compare as their places do.
comparisons :
    (x y : ℕ)
    → x < 2 ^ 32
    → y < 2 ^ 32
    → (no_number x || no_number y) ≡ false
    → (isless Format.single x y ≡ ltb (place x) (place y))
      × (is_equal Format.single x y ≡ (place x == place y))
comparisons x y hx hy numbers =
    let real : isnan Format.single x ≡ false = isnan-no_number x ∙ ground (arith, numbers) in
    let real' : isnan Format.single y ≡ false = isnan-no_number y ∙ ground (arith, numbers) in
    (
      isless-key Format.single x y real real' ∙ rw (key-place x hx, key-place y hy) refl,
      is_equal-key Format.single x y real real' (unfold sign_mask in omega (arith, hx))
            (unfold sign_mask in omega (arith, hy))
          ∙ rw (key-place x hx, key-place y hy) refl,
    )

-- 0 with a NaN, and otherwise whether the comparison holds.
abbrev written : Bool → Bool → ℕ
written unordered holds = if unordered then 0 else if holds then 1 else 0

compared :
    (x y : ℕ)
    → x < 2 ^ 32
    → y < 2 ^ 32
    → let nan = isnan Format.single x || isnan Format.single y in
      let unordered = no_number x || no_number y in
      (written nan (isless Format.single x y) ≡ written unordered (ltb (place x) (place y)))
      × (written nan (is_equal Format.single x y) ≡ written unordered (place x == place y))
      × (written nan (isless Format.single x y || is_equal Format.single x y)
          ≡ written unordered (leb (place x) (place y)))
compared x y hx hy =
    rw (isnan-no_number x, isnan-no_number y)
      (elim (Bool-cases (no_number x || no_number y)) [
        | inl unordered ↦ rw unordered (refl, refl, refl)
        | inr numbers ↦
            let (less, equal) = comparisons x y hx hy numbers in
            rw (numbers, less, equal) (refl, refl, ground arith)
      ])

-- With a NaN among the operands FLT.S, FEQ.S and FLE.S write 0. Otherwise they compare the places of
-- the two numbers, `place`, as natural numbers: FLT.S writes 1 exactly if the first place is smaller,
-- FEQ.S if they are equal, and FLE.S if the first is not greater.
pub exec_flt_s-exec_feq_s :
    (d : InstructionData) (h : Hart) (fpr : Fpr)
    → let x = fpr d.rs1 % 2 ^ 32 in
      let y = fpr d.rs2 % 2 ^ 32 in
      let unordered = no_number x || no_number y in
      ((exec_flt_s d h fpr).1.gpr d.rd
        ≡ (if unordered then 0 else if ltb (place x) (place y) then 1 else 0))
      × ((exec_feq_s d h fpr).1.gpr d.rd
          ≡ (if unordered then 0 else if place x == place y then 1 else 0))
      × ((exec_fle_s d h fpr).1.gpr d.rd
          ≡ (if unordered then 0 else if leb (place x) (place y) then 1 else 0))
exec_flt_s-exec_feq_s d h fpr =
    let (less, equal, at_most) =
      compared (fpr d.rs1 % 2 ^ 32) (fpr d.rs2 % 2 ^ 32) (omega arith) (omega arith) in
    (flt_value d h fpr ∙ less, feq_value d h fpr ∙ equal, fle_value d h fpr ∙ at_most)

-- FLT.S writes 1 only where FCLASS.S gives the first operand no greater class than the second.
pub exec_flt_s-exec_fclass_s :
    (d : InstructionData) (h : Hart) (fpr : Fpr)
    → (exec_flt_s d h fpr).1.gpr d.rd ≡ 1
    → (exec_fclass_s d h fpr).1.gpr d.rd ≤ (exec_fclass_s (exchanged d) h fpr).1.gpr d.rd
unfolding exchanged
exec_flt_s-exec_fclass_s d h fpr less = ground (
  arith,
  less,
  flt_value d h fpr,
  fclass_value d h fpr,
  fclass_value (exchanged d) h fpr,
  isless-classify Format.single (f32_in (fpr d.rs1)) (f32_in (fpr d.rs2)),
)

fmin_value :
    (d : InstructionData) (h : Hart) (fpr : Fpr)
    → (exec_fmin_d d h fpr).2 d.rd ≡ minimum Format.double (fpr d.rs1) (fpr d.rs2)
unfolding exec_fmin_d
fmin_value d h fpr = ground arith

fmax_value :
    (d : InstructionData) (h : Hart) (fpr : Fpr)
    → (exec_fmax_d d h fpr).2 d.rd ≡ maximum Format.double (fpr d.rs1) (fpr d.rs2)
unfolding exec_fmax_d
fmax_value d h fpr = ground arith

-- Of two 64-bit patterns that are no NaN, FMIN.D and FMAX.D write one each, and what FMAX.D writes
-- is not less than what FMIN.D writes.
pub exec_fmin_d-exec_fmax_d :
    (d : InstructionData) (h : Hart) (fpr : Fpr)
    → fpr d.rs1 < 2 ^ 64
    → fpr d.rs2 < 2 ^ 64
    → isnan Format.double (fpr d.rs1) ≡ false
    → isnan Format.double (fpr d.rs2) ≡ false
    → (isless Format.double ((exec_fmax_d d h fpr).2 d.rd) ((exec_fmin_d d h fpr).2 d.rd) ≡ false)
      × ((((exec_fmin_d d h fpr).2 d.rd ≡ fpr d.rs1) × ((exec_fmax_d d h fpr).2 d.rd ≡ fpr d.rs2))
          ⊎ (((exec_fmin_d d h fpr).2 d.rd ≡ fpr d.rs2)
              × ((exec_fmax_d d h fpr).2 d.rd ≡ fpr d.rs1)))
unfolding sign_mask
exec_fmin_d-exec_fmax_d d h fpr word word' real real' =
    rw (fmin_value d h fpr, fmax_value d h fpr)
      (minimum-maximum Format.double (fpr d.rs1) (fpr d.rs2) real real' word word')

module _ {D : Type 0} (m : Mmio D) (i : ℕ) (r : MemoryRegion) (at : RamAt m i r) where
  -- FSW to RAM, then FLW through any register and offset that give the same address: both succeed,
  -- and the loaded register has the lower half of the stored one below an upper half of ones.
  pub exec_flw-exec_fsw :
      (d e : InstructionData) (h g : Hart) (fpr fpr' : Fpr)
      → address d h + 8 < 2 ^ 64
      → in_dram (address d h) MemorySize.int m.memsize ≡ true
      → address e g ≡ address d h
      → (exec_fsw d h fpr m
          ≡ Outcome.done (
            next,
            amo_check_reservation (address d h) h,
            fpr,
            after m i r at (address d h) MemorySize.int (u32 (fpr d.rs2)),
          ))
        × (exec_flw e g fpr' (after m i r at (address d h) MemorySize.int (u32 (fpr d.rs2)))
            ≡ Outcome.done (
              next,
              g,
              update fpr' e.rd (0xffffffff00000000 + fpr d.rs2 % 2 ^ 32),
              after m i r at (address d h) MemorySize.int (u32 (fpr d.rs2)),
            ))
  unfolding exec_fsw exec_flw finish_float_load finish_float_store f32_out
  exec_flw-exec_fsw d e h g fpr fpr' room hit same =
      let (stored, loaded) =
        write-read m i r at (address d h) MemorySize.int room hit (u32 (fpr d.rs2)) h g in
      let m' = after m i r at (address d h) MemorySize.int (u32 (fpr d.rs2)) in
      (
        rw stored refl,
        ap (λ (a : ℕ). finish_float_load 4 f32_out e.rd fpr' (read a MemorySize.int g m')) same
            ∙ ap (finish_float_load 4 f32_out e.rd fpr') loaded
            ∙ ap (λ (v : ℕ). Outcome.done (next, g, update fpr' e.rd (0xffffffff00000000 + v), m'))
                (mod-mod (fpr d.rs2) (2 ^ 32)),
      )
