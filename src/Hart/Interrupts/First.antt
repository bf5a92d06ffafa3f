-- ===== src/Hart/Interrupts/First.antt =====
-- What `first_pending` finds: the first interrupt of a list whose bit is set.
use riscv_em.Base.{In, ℕ, ◌^◌, bit_and, ◌≡◌, arith, List, [], ◌∷◌, ◌++◌, refl, none, some, ◌≢◌}
use riscv_em.Base.Bits.{bit, bit-lt, bit_and-two_pow}
use riscv_em.Hart.Interrupts.{first_pending}
use native.Mathlib.Nat.{one-le-pow}

mask_test : (k x : ℕ) → (bit_and x (2 ^ k) ≡ 0) → bit k x ≡ 0
mask_test k x e = grind (arith, bit_and-two_pow k x, one-le-pow k 2)

mask_test_off : (k x : ℕ) → bit_and x (2 ^ k) ≢ 0 → bit k x ≡ 1
mask_test_off k x e = grind (arith, bit_and-two_pow k x, bit-lt k x)

pub first_pending-some :
    (l : List ℕ) (p : ℕ) {irq : ℕ} → first_pending l p ≡ some irq → In irq l × (bit irq p ≡ 1)
unfolding first_pending In
first_pending-some [] p e = cc
first_pending-some (x ∷ l) p {irq} e =
    ground (arith, first_pending-some l p {irq = irq}, mask_test_off x p)

pub first_pending-none :
    (l : List ℕ) (p irq : ℕ) → first_pending l p ≡ none → In irq l → bit irq p ≡ 0
unfolding first_pending In
first_pending-none [] p irq e i = absurd i
first_pending-none (x ∷ l) p irq e i = ground (arith, first_pending-none l p irq, mask_test x p)

pub first_pending-append :
    (l m : List ℕ) (p : ℕ)
    → first_pending (l ++ m) p
      ≡ elim (first_pending l p) [ some irq ↦ some irq | none ↦ first_pending m p ]
unfolding first_pending
first_pending-append [] m p = refl
first_pending-append (irq ∷ l) m p = ground (arith, first_pending-append l m p)

pub first_pending-head :
    (irq : ℕ) (l : List ℕ) (p : ℕ) → bit irq p ≡ 1 → first_pending (irq ∷ l) p ≡ some irq
unfolding first_pending
first_pending-head irq l p up = ground (arith, bit_and-two_pow irq p, up, one-le-pow irq 2)
