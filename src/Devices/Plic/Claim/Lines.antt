-- ===== src/Devices/Plic/Claim/Lines.antt =====
-- The interrupt lines of the contexts follow the pending sources.
use riscv_em.Base.{
  subst, ℕ, zero, suc, ◌+◌, ◌-◌, ◌*◌, ◌/◌, ◌≤◌, ◌<◌, ◌≡◌, refl, sym, ap, ◌∙◌, ◌≢◌, inl, inr, arith,
  ◌==◌, bit_and, Bool, false, not, none, some, get_elem?, get_or, get_elem?-set_self,
  get_elem?-set_ne, length-gt_of_some, Option-cases,
}
use riscv_em.Devices.Plic.{
  Plic, Context, Best, consider, scan_word, scan_words, highest_in, countr_zero,
}
use riscv_em.Devices.Plic.Claim.{
  same, signal_cpu_interrupt, update_context, update_from, update_all_contexts, set_pending,
  claim_interrupt, modify_pending,
}
use riscv_em.Devices.Plic.Claim.Pending.{SameSources, update_context-SameSources, new_word}
use native.Mathlib.Decide.{ℕ_discrete}

-- The selection reads the sources, the threshold and the enables, and nothing else.
module _ (p q : Plic) (c d : Context) (s : SameSources p q) (t : d.threshold ≡ c.threshold)
    (e : d.enables ≡ c.enables) where
  consider-resp : (id : ℕ) (b : Best) → consider q d id b ≡ consider p c id b
  unfolding consider
  consider-resp id b = rw (s.priorities, s.max, t)

  scan_word-resp :
      (fuel word active : ℕ) (b : Best)
      → scan_word fuel q d word active b ≡ scan_word fuel p c word active b
  unfolding scan_word
  scan_word-resp zero word active b = refl
  scan_word-resp (suc fuel) word active b =
      rw (consider-resp (word * 32 + countr_zero 32 active) b) (
        rw (
          scan_word-resp fuel word (bit_and active (active - 1))
            (consider p c (word * 32 + countr_zero 32 active) b)))

  scan_words-resp : (n word : ℕ) (b : Best) → scan_words n q d word b ≡ scan_words n p c word b
  unfolding scan_words
  scan_words-resp zero word b = refl
  scan_words-resp (suc n) word b =
      let active : ℕ = bit_and (get_or q.pending_words word 0) (get_or d.enables word 0) in
      scan_words-resp n (word + 1) (scan_word 32 q d word active b)
      ∙ ap (scan_words n p c (word + 1)) (
          scan_word-resp 32 word active b ∙ λ i.
          scan_word 32 p c word (bit_and (get_or (s.words i) word 0) (get_or (e i) word 0)) b)

  highest_in-resp : highest_in q d ≡ highest_in p c
  unfolding highest_in
  highest_in-resp =
      let start : Best = record { id = 0; priority = 0 } in
      ap (λ (m : ℕ). (scan_words ((m + 31) / 32) q d 0 start).id) s.max
      ∙ ap (λ (b : Best). b.id) (scan_words-resp ((p.max_sources + 31) / 32) 0 start)

-- The line of context `i` says whether a source is there for it to claim.
abbrev pub LineFollows : Plic → ℕ → Type 0
LineFollows p i =
    (ctx : Context)
    → get_elem? p.contexts i ≡ some ctx
    → ctx.interrupt_line ≡ not (highest_in p ctx == 0)

-- What becomes of context `i`: its line is set to what the sources ask for.
update_context-at :
    (i : ℕ) (p : Plic) {ctx : Context}
    → get_elem? p.contexts i ≡ some ctx
    → get_elem? (update_context i p).contexts i
      ≡ some (record ctx { interrupt_line = not (highest_in p ctx == 0) })
unfolding update_context signal_cpu_interrupt same
update_context-at i p {ctx} e = ground (
  arith,
  get_elem?-set_self p.contexts i (record ctx { interrupt_line = not (highest_in p ctx == 0) }),
  length-gt_of_some p.contexts i {v = ctx} e,
)

update_context-elsewhere :
    (k i : ℕ) (p : Plic)
    → k ≢ i
    → get_elem? (update_context k p).contexts i ≡ get_elem? p.contexts i
unfolding update_context signal_cpu_interrupt
update_context-elsewhere k i p ne = elim (Option-cases (get_elem? p.contexts k)) [
  | inl e ↦ rw (e, update_context)
  | inr (c, e) ↦ ground (
    arith,
    get_elem?-set_ne p.contexts {i = k} {j = i}
        (record c { interrupt_line = not (highest_in p c == 0) }) ne,
  )
]

update_context-missing : (i : ℕ) (p : Plic) → get_elem? p.contexts i ≡ none → update_context i p ≡ p
unfolding update_context
update_context-missing i p e = rw (e, update_context)

-- A context that only changed its line asks for the same line as before.
wanted_line :
    (p q : Plic) (c : Context) (l : Bool)
    → SameSources p q
    → not (highest_in p c == 0) ≡ not (highest_in q (record c { interrupt_line = l }) == 0)
wanted_line p q c l s =
    ap (λ (n : ℕ). not (n == 0))
      (sym (highest_in-resp p q c (record c { interrupt_line = l }) s refl refl))

update_context-LineFollows : (i : ℕ) (p : Plic) → LineFollows (update_context i p) i
update_context-LineFollows i p ctx e = elim (Option-cases (get_elem? p.contexts i)) [
  | inl m ↦
      let same_p : update_context i p ≡ p = update_context-missing i p m in
      let e' : get_elem? p.contexts i ≡ some ctx =
        subst (λ t. get_elem? t.contexts i ≡ some ctx) same_p e in
      cc
  | inr (c, m) ↦
      let l : Bool = not (highest_in p c == 0) in
      let is_c : record c { interrupt_line = l } ≡ ctx = cc (update_context-at i p m) in
      subst (λ t. t.interrupt_line ≡ not (highest_in (update_context i p) t == 0)) is_c
        (wanted_line p (update_context i p) c l (update_context-SameSources i p))
]

update_context-LineFollows_other :
    (k i : ℕ) (p : Plic) → k ≢ i → LineFollows p i → LineFollows (update_context k p) i
update_context-LineFollows_other k i p ne l ctx e =
    l ctx (sym (update_context-elsewhere k i p ne) ∙ e)
    ∙ wanted_line p (update_context k p) ctx ctx.interrupt_line (update_context-SameSources k p)

update_context-keeps : (k i : ℕ) (p : Plic) → LineFollows p i → LineFollows (update_context k p) i
update_context-keeps k i p l = elim (ℕ_discrete k i) [
  | yes e ↦ subst (λ t. LineFollows (update_context t p) i) (sym e) (update_context-LineFollows i p)
  | no ne ↦ update_context-LineFollows_other k i p ne l
]

update_from-keeps : (n k i : ℕ) (p : Plic) → LineFollows p i → LineFollows (update_from n k p) i
unfolding update_from
update_from-keeps zero k i p l = l
update_from-keeps (suc n) k i p l =
    update_from-keeps n (k + 1) i (update_context k p) (update_context-keeps k i p l)

update_from-LineFollows :
    (n k i : ℕ) (p : Plic) → k ≤ i → i < k + n → LineFollows (update_from n k p) i
unfolding update_from
update_from-LineFollows zero k i p a b = absurd (omega arith)
update_from-LineFollows (suc n) k i p a b = elim (ℕ_discrete k i) [
  | yes e ↦
      update_from-keeps n (k + 1) i (update_context k p)
        (subst (λ t. LineFollows (update_context t p) i) (sym e) (update_context-LineFollows i p))
  | no ne ↦ update_from-LineFollows n (k + 1) i (update_context k p) (omega arith) (omega arith)
]

modify_pending-num_contexts :
    (w : ℕ) (f : ℕ → ℕ) (p q : Plic)
    → modify_pending w f p ≡ some q
    → q.num_contexts ≡ p.num_contexts
unfolding modify_pending
modify_pending-num_contexts w f p q e = ground arith

set_pending-updates :
    (id : ℕ) (v : Bool) (p q : Plic)
    → id ≢ 0
    → id ≤ p.max_sources
    → set_pending id v p ≡ some q
    → (r : Plic) × (r.num_contexts ≡ p.num_contexts) × (q ≡ update_all_contexts r)
unfolding set_pending
set_pending-updates id v p q nz known e =
    elim (Option-cases (modify_pending (id / 32) (new_word id v) p)) [
      | inl m ↦ absurd (ground (arith, m))
      | inr (r, m) ↦
          (r, modify_pending-num_contexts (id / 32) (new_word id v) p r m, ground (arith, m))
    ]

claim_interrupt-updates :
    (i id : ℕ) (p q : Plic)
    → claim_interrupt i p ≡ some (id, q)
    → id ≢ 0
    → (r : Plic) × (q ≡ update_context i r)
unfolding claim_interrupt
claim_interrupt-updates i id p q e nz = elim (Option-cases (get_elem? p.contexts i)) [
  | inl m ↦ absurd (ground (arith, m))
  | inr (ctx, m) ↦
      let found : ℕ = highest_in p ctx in
      elim (Option-cases (modify_pending (found / 32) (new_word found false) p)) [
        | inl n ↦ absurd (ground (arith, m, n))
        | inr (r, n) ↦ (r, ground (arith, m, n))
      ]
]

-- After `set_pending` on a known source the line of every context is up exactly if the context has
-- a source to claim.
pub set_pending-LineFollows :
    (id : ℕ) (v : Bool) (p q : Plic)
    → id ≢ 0
    → id ≤ p.max_sources
    → set_pending id v p ≡ some q
    → (i : ℕ) → i < p.num_contexts
    → LineFollows q i
unfolding update_all_contexts
set_pending-LineFollows id v p q nz known e i h =
    let (r, n, u) = set_pending-updates id v p q nz known e in
    subst (λ t. LineFollows t i) (sym u)
      (update_from-LineFollows r.num_contexts 0 i r (omega arith) (omega arith))

-- A claim that finds a source leaves the line of the claiming context up exactly if the context
-- has another one to claim.
claim_interrupt-LineFollows :
    (i id : ℕ) (p q : Plic) → claim_interrupt i p ≡ some (id, q) → id ≢ 0 → LineFollows q i
claim_interrupt-LineFollows i id p q e nz =
    let (r, u) = claim_interrupt-updates i id p q e nz in
    subst (λ t. LineFollows t i) (sym u) (update_context-LineFollows i r)
