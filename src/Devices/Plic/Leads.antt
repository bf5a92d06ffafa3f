-- ===== src/Devices/Plic/Leads.antt =====
-- One round of the selection in `find_highest_pending_enabled`: the better of the best source so
-- far and the next one, by priority and then by the lower number.
use native.Mathlib.Decide.{ℕ_discrete}
use riscv_em.Base.{
  subst, Bool, Bool-cases, ℕ, ◌≤◌, ◌<◌, ◌≡◌, refl, ◌≢◌, ◌⊎◌, inl, inr, arith, ◌==◌, ltb, leb, not,
  ◌&&◌, ◌||◌, true, false, if◌then◌else◌, get_or,
}
use riscv_em.Devices.Plic.{Plic, Context, Best, consider}

-- The priority register of a source.
abbrev pub priority_of : Plic → ℕ → ℕ
priority_of p id = get_or p.priorities id 0

module _ (p : Plic) (ctx : Context) where
  -- A source that may be chosen, wherever its bit stands.
  pub record Admissible (id : ℕ) : Type 0 where
    pub numbered : 1 ≤ id
    pub known : id ≤ p.max_sources
    pub above : ctx.threshold < priority_of p id

  -- The better of two: the higher priority, then the lower number.
  abbrev pub Beats : ℕ → ℕ → Type 0
  Beats i j = (priority_of p j < priority_of p i) ⊎ ((priority_of p i ≡ priority_of p j) × (i ≤ j))

  -- The register of the best source so far; number 0 stands for none.
  unfoldable pub Consistent : Best → Type 0
  Consistent b = (b.id ≡ 0 → b.priority ≡ 0) × (b.id ≢ 0 → b.priority ≡ priority_of p b.id)

  -- The conditions of the loop body, as one test.
  abbrev takes_over : ℕ → Best → Bool
  takes_over id b =
      (not (id == 0) && leb id p.max_sources)
      && (ltb ctx.threshold (priority_of p id)
          && (ltb b.priority (priority_of p id)
              || ((priority_of p id == b.priority) && ltb id b.id)))

  consider_lem :
      (id : ℕ) (b : Best)
      → consider p ctx id b
        ≡ (if takes_over id b then record { id = id; priority = priority_of p id } else b)
  unfolding consider
  consider_lem id b = ground arith

  won :
      (id : ℕ) (b : Best)
      → Consistent b
      → takes_over id b ≡ true
      → Admissible id × (b.id ≢ 0 → Beats id b.id)
  unfolding Consistent
  won id b c t = (ground arith, λ nz. ground (arith, c.1 nz))

  lost :
      (id : ℕ) (b : Best)
      → Consistent b
      → takes_over id b ≡ false
      → Admissible id
      → (b.id ≢ 0) × Beats b.id id
  unfolding Consistent
  lost id b c t a = let nz : b.id ≢ 0 = λ z. ground (arith, c.0 z) in (nz, ground (arith, c.1 nz))

  Beats-trans : (i j k : ℕ) → Beats i j → Beats j k → Beats i k
  Beats-trans i j k h g = ground arith

  -- `b` is the best of the admissible sources in `seen`.
  pub record Leads (seen : ℕ → Type 0) (b : Best) : Type 0 where
    pub consistent : Consistent b
    pub nothing : b.id ≡ 0 → (j : ℕ) → seen j → ¬ Admissible j
    pub leader :
        b.id ≢ 0 → seen b.id × Admissible b.id × ((j : ℕ) → seen j → Admissible j → Beats b.id j)

  module _ (seen : ℕ → Type 0) (id : ℕ) (b : Best) (l : Leads seen b) where
    abbrev pub SeenNow : ℕ → Type 0
    SeenNow j = seen j ⊎ (j ≡ id)

    replaced :
        takes_over id b ≡ true → Leads SeenNow (record { id = id; priority = priority_of p id })
    replaced t =
        let (a, w) = won id b l.consistent t in
        record {
          consistent = unfold Consistent in (λ z. absurd (omega arith), λ nz. refl);
          nothing = λ z. absurd (omega arith);
          leader = λ nz. (inr refl, a, beats a w);
        }
      where
        beats :
            Admissible id
            → (b.id ≢ 0 → Beats id b.id)
            → (j : ℕ) → SeenNow j
            → Admissible j
            → Beats id j
        beats a w j (inl s) aj = elim (ℕ_discrete b.id 0) [
          | yes z ↦ absurd (l.nothing z j s aj)
          | no nz ↦ Beats-trans id b.id j (w nz) ((l.leader nz).2 j s aj)
        ]
        beats a w j (inr e) aj = rw e (inr (refl, omega arith))

    kept : takes_over id b ≡ false → Leads SeenNow b
    kept t = record {
      consistent = l.consistent;
      nothing = nothing_more;
      leader = λ nz. let (s, a, best) = l.leader nz in (inl s, a, beats best);
    }
      where
        nothing_more : b.id ≡ 0 → (j : ℕ) → SeenNow j → ¬ Admissible j
        nothing_more z j (inl s) aj = l.nothing z j s aj
        nothing_more z j (inr e) aj = (lost id b l.consistent t (subst Admissible e aj)).0 z

        beats :
            ((j : ℕ) → seen j → Admissible j → Beats b.id j)
            → (j : ℕ) → SeenNow j
            → Admissible j
            → Beats b.id j
        beats best j (inl s) aj = best j s aj
        beats best j (inr e) aj = rw e (lost id b l.consistent t (subst Admissible e aj)).1

    pub consider-Leads : Leads SeenNow (consider p ctx id b)
    consider-Leads =
        rw (consider_lem id b) (elim (Bool-cases (takes_over id b)) [
          | inl t ↦ rw t (replaced t)
          | inr f ↦ rw f (kept f)
        ])

  -- Two ways to say which sources are seen, that agree.
  pub Leads-resp :
      {seen seen' : ℕ → Type 0} {b : Best}
      → ((j : ℕ) → seen j → seen' j)
      → ((j : ℕ) → seen' j → seen j)
      → Leads seen b
      → Leads seen' b
  Leads-resp to from l = record {
    consistent = l.consistent;
    nothing = λ z j s. l.nothing z j (from j s);
    leader = λ nz. let (s, a, best) = l.leader nz in (to _ s, a, λ j s'. best j (from j s'));
  }
