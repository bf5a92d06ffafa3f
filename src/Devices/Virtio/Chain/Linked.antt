-- ===== src/Devices/Virtio/Chain/Linked.antt =====
-- The loop over the descriptors finds the chain that lies in guest memory, and only that.
use riscv_em.Base.{
  ℕ, zero, suc, ◌≤◌, ◌≡◌, ◌≢◌, ◌↔◌, ◌⊎◌, refl, ◌==◌, Bool, true, false, Bool-cases, inl, inr, List,
  [], ◌∷◌, length, Option, none, some, arith,
}
use riscv_em.Memory.{Outcome, MemoryMap}
use riscv_em.Memory.Results.{◌>>=◌, done->>=}
use riscv_em.Devices.Virtio.{VirtqDesc, VirtQueueState}
use riscv_em.Devices.Virtio.Chain.{
  has_next, load_desc, behind, go_on, fetch_from, fetch_descriptor_chain,
}

module _ (q : VirtQueueState) (m : MemoryMap) where
  -- The chain that begins at a place of the descriptor table.
  pub data Linked : ℕ → List VirtqDesc → Type 0 where
    ends :
        {idx : ℕ} {d : VirtqDesc}
        → load_desc idx q m ≡ Outcome.done d
        → has_next d ≡ false
        → Linked idx (d ∷ [])
    goes_on :
        {idx : ℕ} {d : VirtqDesc} {chain : List VirtqDesc}
        → load_desc idx q m ≡ Outcome.done d
        → has_next d ≡ true
        → Linked d.next chain
        → Linked idx (d ∷ chain)

  go_on-some :
      (more : Bool) (d : VirtqDesc) (rest : Outcome (Option (List VirtqDesc)))
      (chain : List VirtqDesc)
      → go_on more d rest ≡ Outcome.done (some chain)
      → ((more ≡ false) × (chain ≡ d ∷ []))
        ⊎ ((tail : List VirtqDesc) × (more ≡ true)
            × (rest ≡ Outcome.done (some tail))
            × (chain ≡ d ∷ tail))
  unfolding go_on ◌>>=◌ behind
  go_on-some false d rest chain e = inl (refl, cc)
  go_on-some true d (Outcome.done none) chain e = absurd cc
  go_on-some true d (Outcome.done (some tail)) chain e = inr (tail, refl, refl, cc)
  go_on-some true d Outcome.throws chain e = absurd cc
  go_on-some true d Outcome.undefined chain e = absurd cc

  -- A chain that a round has found, from what the later rounds find.
  fetch_from-Linked :
      (rounds idx : ℕ) (chain : List VirtqDesc)
      → fetch_from rounds idx q m ≡ Outcome.done (some chain)
      → Linked idx chain × (length chain ≤ rounds)
  unfolding fetch_from
  fetch_from-Linked zero idx chain e = absurd cc
  fetch_from-Linked (suc rounds) idx chain e =
      let (d, loaded, e') = done->>= (load_desc idx q m) _ (some chain) e in
      elim (go_on-some (has_next d) d (fetch_from rounds d.next q m) chain e') [
        | inl (last, single) ↦ rw single (Linked.ends loaded last, omega arith)
        | inr (tail, more, fetched, whole) ↦
            let after = fetch_from-Linked rounds d.next tail fetched in
            rw whole (Linked.goes_on loaded more after.0, omega (arith, after.1))
      ]

  Linked-fetch_from :
      {idx : ℕ} {chain : List VirtqDesc} (rounds : ℕ)
      → Linked idx chain
      → length chain ≤ rounds
      → fetch_from rounds idx q m ≡ Outcome.done (some chain)
  unfolding fetch_from ◌>>=◌ behind go_on
  Linked-fetch_from zero (Linked.ends loaded last) short = absurd (omega arith)
  Linked-fetch_from zero (Linked.goes_on loaded more rest) short = absurd (omega arith)
  Linked-fetch_from (suc rounds) (Linked.ends loaded last) short = rw (loaded, last) refl
  Linked-fetch_from (suc rounds) (Linked.goes_on loaded more rest) short =
      rw (loaded, more, Linked-fetch_from rounds rest (omega arith)) refl

-- A chain is fetched exactly if there is a descriptor table, the chain lies in guest memory from the
-- head on, each descriptor but the last one naming the next, and it has at most as many descriptors
-- as the queue.
pub fetch_descriptor_chain-Linked :
    (head : ℕ) (q : VirtQueueState) (m : MemoryMap) (chain : List VirtqDesc)
    → (fetch_descriptor_chain head q m ≡ Outcome.done (some chain))
      ↔ ((q.desc_addr ≢ 0) × Linked q m head chain × (length chain ≤ q.size))
unfolding fetch_descriptor_chain
fetch_descriptor_chain-Linked head q m chain =
    let table = q.desc_addr == 0 in
    elim (Bool-cases table) [
      | inl missing ↦
          ((λ e. absurd (cc (missing, e))), (λ h. absurd (h.0 (ground (arith, missing)))))
      | inr there ↦ (
        (λ e.
            let found = fetch_from-Linked q m q.size head chain (rw there at e) in
            ((λ zero_addr. absurd (ground (arith, there, zero_addr))), found.0, found.1)),
        (λ h. rw there (Linked-fetch_from q m q.size h.1 h.2)),
      )
    ]
