-- ===== src/Devices/Clint/Laws.antt =====
-- When the bits of the harts' `ip` are up, and that a due timer interrupt is taken.
use riscv_em.Base.{
  ℕ, zero, suc, ◌%◌, ◌^◌, ◌≤◌, ◌<◌, ◌≡◌, ◌∙◌, ◌⊎◌, refl, sym, ap, subst, bit_and, of_bool, nonzero,
  leb, ◌==◌, if◌then◌else◌, true, not, ◌&&◌, some, List, [], ◌∷◌, get_elem?, In, arith,
}
use native.Mathlib.Decide.{dec_lt}
use riscv_em.Base.Fields.{
  set_field, field-set_field_self, field-set_field_below, field-set_field_above,
}
use riscv_em.Base.Bits.{bit, bit_of_shift, bit_and-one}
use riscv_em.Hart.{Hart, update}
use riscv_em.Hart.Csr.{csr_mideleg}
use riscv_em.Hart.Trap.{trap}
use riscv_em.Hart.Interrupts.{check_ints}
use riscv_em.Hart.Interrupts.Heard.{MachineHears}
use riscv_em.Hart.Interrupts.Laws.{ForMachine, check_ints-timer}
use riscv_em.Memory.{Outcome}
use riscv_em.Devices.Clint.{
  Clint, timer_get, never, set_pending_bits, update_hart, update_harts, update_mip, cons_hart,
}

-- A bit after an assignment to a field of one bit.
bit-set_field : (l v r k : ℕ) → bit k (set_field 1 l v r) ≡ (if k == l then v % 2 else bit k r)
bit-set_field l v r k = bit_of_shift k (set_field 1 l v r) ∙ elim (dec_lt k l) [
  | yes below ↦
      ground
        (arith, field-set_field_below 1 l v r 1 k (omega (arith, below)), bit_of_shift k r, below)
  | no from ↦ elim (dec_lt l k) [
    | yes above ↦
        ground
          (arith, field-set_field_above 1 l v r 1 k (omega (arith, above)), bit_of_shift k r, above)
    | no to ↦
        let here : k ≡ l = omega (arith, from, to) in
        rw here (ground (arith, field-set_field_self 1 l v r))
  ]
]

-- What a hart is after the update at the time `now`, with its software interrupt word and its
-- comparator: bit 3 of `ip` is the word's bit 0, bit 7 is up exactly if the time has reached the
-- comparator, bit 5 exactly if it has reached the hart's own comparator and that is not the greatest
-- number. Every other bit of `ip` is kept, the time is written to the register 0xc01, and nothing
-- else has changed.
pub record Follows (now sip cmp : ℕ) (h h' : Hart) : Type 0 where
  pub bits :
      (k : ℕ)
      → bit k h'.ip ≡ (
          if k == 3
          then bit 0 sip
          else if k == 7
          then if leb cmp now then 1 else 0
          else if k == 5
          then if leb h.stimecmp now && not (h.stimecmp == 0xffffffffffffffff) then 1 else 0
          else bit k h.ip)
  pub kept : h' ≡ record h { csrs = update h.csrs 0xc01 now; ip = h'.ip }

set_pending_bits-Follows :
    (now sip cmp : ℕ) (h : Hart) → Follows now sip cmp h (set_pending_bits now sip cmp h)
unfolding set_pending_bits
set_pending_bits-Follows now sip cmp h =
    let sw = set_field 1 3 (of_bool (nonzero (bit_and sip 1))) h.ip in
    let mt = set_field 1 7 (of_bool (leb cmp now)) sw in
    record {
      bits = λ k. ground (
        arith,
        bit-set_field 3 (of_bool (nonzero (bit_and sip 1))) h.ip k,
        bit-set_field 7 (of_bool (leb cmp now)) sw k,
        bit-set_field 5 (of_bool (leb h.stimecmp now && not (h.stimecmp == never))) mt k,
        bit_and-one sip,
      );
      kept = refl;
    }

-- What the timer wants of a hart to be heard: the interrupt is enabled, not delegated, and machine
-- mode hears it.
pub record Listens (h : Hart) : Type 0 where
  pub enabled : bit 7 h.ie ≡ 1
  pub kept : bit 7 (h.csrs csr_mideleg) ≡ 0
  pub word : h.csrs csr_mideleg < 2 ^ 64
  pub unmasked : MachineHears h.mode h.status

-- It is taken, or one for machine mode that stands before it.
unfoldable pub TimerTaken : Hart → Type 0
TimerTaken h =
    (irq : ℕ) × (check_ints h ≡ (true, trap irq 0 true h))
    × ((irq ≡ 7) ⊎ (In irq (11 ∷ 9 ∷ 3 ∷ 1 ∷ []) × ForMachine h irq))

due_taken :
    (now sip cmp : ℕ) (h : Hart)
    → Listens h
    → cmp ≤ now
    → TimerTaken (set_pending_bits now sip cmp h)
unfolding TimerTaken
due_taken now sip cmp h l due =
    let g = set_pending_bits now sip cmp h in
    check_ints-timer g (unfold set_pending_bits in l.word) (record {
      raised = (set_pending_bits-Follows now sip cmp h).bits 7 ∙ ground (arith, due);
      enabled = (unfold set_pending_bits in l.enabled);
      kept = (unfold set_pending_bits in l.kept);
      unmasked = (unfold set_pending_bits in l.unmasked);
    })

module _ (c : Clint) where
  -- Every hart has its software interrupt word and its comparator.
  unfoldable pub Known : List Hart → Type 0
  Known [] = Unit
  Known (h ∷ harts) =
      ((sip : ℕ) × (cmp : ℕ) × (get_elem? c.msip h.id ≡ some sip)
        × (get_elem? c.mtimecmp h.id ≡ some cmp))
      × Known harts

  -- The harts agree with the device at the time `now`, one by one.
  unfoldable pub Follow : ℕ → List Hart → List Hart → Type 0
  Follow now [] [] = Unit
  Follow now (h ∷ harts) (h' ∷ harts') =
      ((sip : ℕ) × (cmp : ℕ) × (get_elem? c.msip h.id ≡ some sip)
        × (get_elem? c.mtimecmp h.id ≡ some cmp)
        × Follows now sip cmp h h')
      × Follow now harts harts'
  Follow now [] (h' ∷ harts') = ⊥
  Follow now (h ∷ harts) [] = ⊥

  update_hart-known :
      (now sip cmp : ℕ) (h : Hart)
      → get_elem? c.msip h.id ≡ some sip
      → get_elem? c.mtimecmp h.id ≡ some cmp
      → update_hart now c h ≡ Outcome.done (set_pending_bits now sip cmp h)
  unfolding update_hart
  update_hart-known now sip cmp h s e = ground (arith, s, e)

  cons_hart-done :
      (h : Hart) (harts : List Hart)
      → cons_hart (Outcome.done h) (Outcome.done harts) ≡ Outcome.done (h ∷ harts)
  unfolding cons_hart
  cons_hart-done h harts = refl

  update_harts-Follow :
      (now : ℕ) (harts : List Hart)
      → Known harts
      → (harts' : List Hart) × (update_harts now c harts ≡ Outcome.done harts')
        × Follow now harts harts'
  unfolding update_harts Known Follow
  update_harts-Follow now [] known = ([], refl, known)
  update_harts-Follow now (h ∷ harts) ((sip, cmp, s, e), known) =
      let (rest, done, follow) = update_harts-Follow now harts known in
      (
        set_pending_bits now sip cmp h ∷ rest,
        rw (update_hart-known now sip cmp h s e, done)
            (cons_hart-done (set_pending_bits now sip cmp h) rest),
        ((sip, cmp, s, e, set_pending_bits-Follows now sip cmp h), follow),
      )

  -- With every hart known to the device, `update_mip` succeeds and leaves as many harts. Each hart's
  -- software interrupt bit follows its word, its machine timer bit its comparator and its supervisor
  -- timer bit its own comparator, at the time of the timer, which it can then read; nothing else of
  -- the hart changes.
  pub update_mip-Follow :
      (ns : ℕ) (harts : List Hart)
      → Known harts
      → (harts' : List Hart) × (update_mip ns c harts ≡ Outcome.done harts')
        × Follow (timer_get ns c.mtime) harts harts'
  unfolding update_mip
  update_mip-Follow ns harts known = update_harts-Follow (timer_get ns c.mtime) harts known

  update_harts-TimerTaken :
      (now i cmp : ℕ) (harts : List Hart) (h : Hart)
      → Known harts
      → get_elem? harts i ≡ some h
      → get_elem? c.mtimecmp h.id ≡ some cmp
      → cmp ≤ now
      → Listens h
      → (harts' : List Hart) × (h' : Hart) × (update_harts now c harts ≡ Outcome.done harts')
        × (get_elem? harts' i ≡ some h')
        × TimerTaken h'
  unfolding update_harts Known
  update_harts-TimerTaken now i cmp [] h known at e due l = absurd cc
  update_harts-TimerTaken now zero cmp (g ∷ harts) h ((sip, old, s, o), known) at e due l =
      let same : g ≡ h = ground (arith, at) in
      let own : get_elem? c.mtimecmp g.id ≡ some cmp =
        ap (λ (x : Hart). get_elem? c.mtimecmp x.id) same ∙ e in
      let (rest, done, follow) = update_harts-Follow now harts known in
      (
        set_pending_bits now sip cmp g ∷ rest,
        set_pending_bits now sip cmp g,
        rw (update_hart-known now sip cmp g s own, done)
            (cons_hart-done (set_pending_bits now sip cmp g) rest),
        refl,
        due_taken now sip cmp g (subst Listens (sym same) l) due,
      )
  update_harts-TimerTaken now (suc i) cmp (g ∷ harts) h ((sip, old, s, o), known) at e due l =
      let (rest, h', done, place, taken) =
        update_harts-TimerTaken now i cmp harts h known at e due l in
      (
        set_pending_bits now sip old g ∷ rest,
        h',
        rw (update_hart-known now sip old g s o, done)
            (cons_hart-done (set_pending_bits now sip old g) rest),
        place,
        taken,
      )

  -- A machine timer interrupt that is due is taken. With every hart known to the device, and a hart
  -- among them whose comparator the time has reached and that has the machine timer interrupt enabled,
  -- not delegated and heard by machine mode: `update_mip` succeeds, and `check_ints` of that hart then
  -- traps for the machine timer, or for another interrupt of machine mode that stands before it
  -- in the order 11, 9, 3, 1, 7.
  pub timer_taken :
      (ns i cmp : ℕ) (harts : List Hart) (h : Hart)
      → Known harts
      → get_elem? harts i ≡ some h
      → get_elem? c.mtimecmp h.id ≡ some cmp
      → cmp ≤ timer_get ns c.mtime
      → Listens h
      → (harts' : List Hart) × (h' : Hart) × (update_mip ns c harts ≡ Outcome.done harts')
        × (get_elem? harts' i ≡ some h')
        × TimerTaken h'
  unfolding update_mip
  timer_taken ns i cmp harts h known at e due l =
      update_harts-TimerTaken (timer_get ns c.mtime) i cmp harts h known at e due l
