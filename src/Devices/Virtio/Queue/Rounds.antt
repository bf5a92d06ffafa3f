-- ===== src/Devices/Virtio/Queue/Rounds.antt =====
-- The loop ends, at the driver's index.
use riscv_em.Base.{
  ℕ, zero, suc, ◌+◌, ◌-◌, ◌%◌, ◌^◌, ◌≤◌, ◌<◌, ◌≡◌, refl, sym, ap, subst, ◌∙◌, u16, u64, not, ◌||◌,
  ◌==◌, Bool, true, false, Bool-cases, inl, inr, ◌⊎◌, ◌≢◌, List, ◌∷◌, Option, some, arith,
}
use riscv_em.Base.Bits.{bit}
use riscv_em.Memory.{Outcome, MemoryMap, load}
use riscv_em.Memory.Results.{Ensures}
use riscv_em.Devices.Virtio.{VirtioBlk, Stdio}
use riscv_em.Devices.Virtio.Queue.{serve_entry, after_entry, serve_from, serve_up_to, process_queue}
use riscv_em.Devices.Virtio.Queue.Progress.{
  raised, Indexed, Progress, Served, ServedBy, Served-Indexed, serve_entry-Served,
}

raised-add : (n k : ℕ) (earlier : List Bool) → raised n (raised k earlier) ≡ raised (k + n) earlier
unfolding raised
raised-add zero k earlier = ap (λ (i : ℕ). raised i earlier) (omega arith)
raised-add (suc n) k earlier =
    let more : suc (k + n) ≡ k + suc n = omega arith in
    ap (λ l. true ∷ l) (raised-add n k earlier) ∙ ap (λ (i : ℕ). raised i earlier) more

module _ {F : Type 0} where
  flagged_later :
      (n k : ℕ) (b b' b'' : VirtioBlk F)
      → Progress n b b'
      → Progress k b' b''
      → 0 < n + k
      → bit 0 b''.interrupt_status ≡ 1
  flagged_later n zero b b' b'' first second some_served =
      ap (bit 0) (second.quiet refl) ∙ first.flagged (omega arith)
  flagged_later n (suc k) b b' b'' first second some_served = second.flagged (omega arith)

  -- The index is reached, after at most so many chains.
  pub Settled : ℕ → ℕ → VirtioBlk F → VirtioBlk F × MemoryMap → Type 0
  Settled rounds avail_idx b (b', m) =
      (b'.queue0.last_avail_idx ≡ avail_idx)
      × ((served : ℕ) × (served ≤ rounds) × Progress served b b')

  Progress-refl : (b : VirtioBlk F) → Indexed b → Progress 0 b b
  unfolding raised
  Progress-refl b indexed = record {
    used = omega (arith, indexed.used);
    told = refl;
    quiet = λ e. refl;
    flagged = λ h. absurd (omega arith);
    kept = refl;
  }

  Progress-trans :
      (n k : ℕ) (b b' b'' : VirtioBlk F)
      → Progress n b b'
      → Progress k b' b''
      → Progress (n + k) b b''
  Progress-trans n k b b' b'' first second = record {
    used = omega (arith, first.used, second.used);
    told = second.told ∙ ap (raised k) first.told ∙ raised-add k n b.told;
    quiet = λ e. second.quiet (omega arith) ∙ first.quiet (omega arith);
    flagged = λ h. flagged_later n k b b' b'' first second h;
    kept =
        second.kept
        ∙ ap
            (λ (c : VirtioBlk F). record c {
              disk = b''.disk;
              interrupt_status = b''.interrupt_status;
              told = b''.told;
              queue0 = record c.queue0 {
                last_avail_idx = b''.queue0.last_avail_idx;
                last_used_idx = b''.queue0.last_used_idx;
              };
            })
            first.kept;
  }

  -- The outcome of the loop where the index is reached already.
  reached :
      (rounds avail_idx : ℕ) (b : VirtioBlk F) (m : MemoryMap)
      → Indexed b
      → b.queue0.last_avail_idx ≡ avail_idx
      → Ensures (Settled rounds avail_idx b) (Outcome.done (b, m))
  unfolding Settled Ensures
  reached rounds avail_idx b m indexed here = (here, (0, omega arith, Progress-refl b indexed))

  -- What the rounds after a first one settle.
  Settled-after :
      (rounds avail_idx : ℕ) (b b' : VirtioBlk F) (o : Outcome (VirtioBlk F × MemoryMap))
      → Served b b'
      → Ensures (Settled rounds avail_idx b') o
      → Ensures (Settled (suc rounds) avail_idx b) o
  unfolding Settled Ensures
  Settled-after rounds avail_idx b b' (Outcome.done (b'', m)) first (at, (served, few, later)) = (
    at,
    (
      first.served + served,
      omega (arith, first.once, few),
      Progress-trans first.served served b b' b'' first.progress later,
    ),
  )
  Settled-after rounds avail_idx b b' Outcome.throws first later = tt
  Settled-after rounds avail_idx b b' Outcome.undefined first later = tt

  abbrev Ends : ℕ → ℕ → VirtioBlk F → Option (Outcome (VirtioBlk F × MemoryMap)) → Type 0
  Ends rounds avail_idx b run =
      (o : Outcome (VirtioBlk F × MemoryMap)) × (run ≡ some o)
      × Ensures (Settled rounds avail_idx b) o

  after_entry-Ends :
      (rounds avail_idx : ℕ) (b : VirtioBlk F)
      (later : VirtioBlk F → MemoryMap → Option (Outcome (VirtioBlk F × MemoryMap)))
      (o : Outcome (VirtioBlk F × MemoryMap))
      → Ensures (ServedBy b) o
      → ((b' : VirtioBlk F) (m' : MemoryMap) → Served b b' → Ends rounds avail_idx b' (later b' m'))
      → Ends (suc rounds) avail_idx b (after_entry later o)
  unfolding after_entry Ensures
  after_entry-Ends rounds avail_idx b later (Outcome.done (b', m')) first ends =
      let (o, e, settled) = ends b' m' first in
      (o, e, Settled-after rounds avail_idx b b' o first settled)
  after_entry-Ends rounds avail_idx b later Outcome.throws first ends = (Outcome.throws, refl, tt)
  after_entry-Ends rounds avail_idx b later Outcome.undefined first ends =
      (Outcome.undefined, refl, tt)

  -- The device has no queue of this number, or the queue is not set up.
  pub Idle : ℕ → VirtioBlk F → Type 0
  Idle qsel b = (qsel ≢ 0) ⊎ ((b.queue0.ready ≡ false) ⊎ (b.queue0.size ≡ 0))

  Idle_lem :
      (qsel : ℕ) (b : VirtioBlk F)
      → (not (qsel == 0) || (not b.queue0.ready || (b.queue0.size == 0))) ≡ true
      → Idle qsel b
  unfolding Idle
  Idle_lem qsel b e = ground (arith, e)

  -- What a call of the loop leaves behind: nothing has changed and
  -- there is no queue to serve, or it is served up to the
  -- index that the driver has written.
  pub Handled : ℕ → VirtioBlk F → MemoryMap → VirtioBlk F × MemoryMap → Type 0
  Handled qsel b m result =
      (Idle qsel b × (result ≡ (b, m)))
      ⊎ ((idx : ℕ) × (load (u64 (b.queue0.avail_addr + 2)) 16 m ≡ Outcome.done idx)
          × Settled ((u16 idx + 2 ^ 16 - b.queue0.last_avail_idx) % 2 ^ 16) (u16 idx) b result)

  Ensures-Handled :
      (qsel idx : ℕ) (b : VirtioBlk F) (m : MemoryMap) (o : Outcome (VirtioBlk F × MemoryMap))
      → load (u64 (b.queue0.avail_addr + 2)) 16 m ≡ Outcome.done idx
      → Ensures (Settled ((u16 idx + 2 ^ 16 - b.queue0.last_avail_idx) % 2 ^ 16) (u16 idx) b) o
      → Ensures (Handled qsel b m) o
  unfolding Ensures Handled
  Ensures-Handled qsel idx b m (Outcome.done result) loaded settled = inr (idx, loaded, settled)
  Ensures-Handled qsel idx b m Outcome.throws loaded settled = tt
  Ensures-Handled qsel idx b m Outcome.undefined loaded settled = tt

  module _ (io : Stdio F) where
    serve_from-Ends :
        (fuel rounds avail_idx : ℕ) (b : VirtioBlk F) (m : MemoryMap)
        → Indexed b
        → avail_idx < 2 ^ 16
        → rounds ≡ (avail_idx + 2 ^ 16 - b.queue0.last_avail_idx) % 2 ^ 16
        → rounds ≤ fuel
        → Ends rounds avail_idx b (serve_from io fuel avail_idx b m)
    unfolding serve_from
    serve_from-Ends zero rounds avail_idx b m indexed small distance enough =
        let here : b.queue0.last_avail_idx ≡ avail_idx = omega (arith, indexed.avail) in
        (Outcome.done (b, m), ground (arith, here), reached rounds avail_idx b m indexed here)
    serve_from-Ends (suc fuel) zero avail_idx b m indexed small distance enough =
        let here : b.queue0.last_avail_idx ≡ avail_idx = omega (arith, indexed.avail) in
        (Outcome.done (b, m), ground (arith, here), reached zero avail_idx b m indexed here)
    serve_from-Ends (suc fuel) (suc rounds) avail_idx b m indexed small distance enough =
        let there : (b.queue0.last_avail_idx == avail_idx) ≡ false =
          ground (arith, indexed.avail) in
        subst
          (λ reached_it. Ends (suc rounds) avail_idx b (elim reached_it [
            | true ↦ some (Outcome.done (b, m))
            | false ↦ after_entry (serve_from io fuel avail_idx) (serve_entry io b m)
          ]))
          (sym there)
          (after_entry-Ends rounds avail_idx b (serve_from io fuel avail_idx) (serve_entry io b m)
            (serve_entry-Served io b m indexed)
            (λ b' m' first.
              serve_from-Ends fuel rounds avail_idx b' m' (Served-Indexed b b' first) small
                (omega (arith, first.next, indexed.avail)) (omega arith)))

    serve_up_to-Handled :
        (qsel : ℕ) (read : Outcome ℕ) (b : VirtioBlk F) (m : MemoryMap)
        → Indexed b
        → load (u64 (b.queue0.avail_addr + 2)) 16 m ≡ read
        → (o : Outcome (VirtioBlk F × MemoryMap)) × (serve_up_to io read b m ≡ some o)
          × Ensures (Handled qsel b m) o
    unfolding serve_up_to Ensures
    serve_up_to-Handled qsel (Outcome.done idx) b m indexed loaded =
        let rounds = (u16 idx + 2 ^ 16 - b.queue0.last_avail_idx) % 2 ^ 16 in
        let (o, e, settled) =
          serve_from-Ends (2 ^ 16) rounds (u16 idx) b m indexed (omega arith) refl (omega arith) in
        (o, e, Ensures-Handled qsel idx b m o loaded settled)
    serve_up_to-Handled qsel Outcome.throws b m indexed loaded = (Outcome.throws, refl, tt)
    serve_up_to-Handled qsel Outcome.undefined b m indexed loaded = (Outcome.undefined, refl, tt)

-- The loop over the available ring always ends. If no access to guest memory fails, either there is
-- no queue to serve and nothing has changed, or the device has come to the index that the driver wrote: each chain that went to
-- the used ring has moved the used index by one and raised the interrupt once, there are at most as
-- many of them as entries in the ring, and only the disk, the two indexes and the interrupt differ.
pub process_queue-Handled :
    {F : Type 0} (io : Stdio F) (qsel : ℕ) (b : VirtioBlk F) (m : MemoryMap)
    → Indexed b
    → (o : Outcome (VirtioBlk F × MemoryMap)) × (process_queue io qsel b m ≡ some o)
      × Ensures (Handled qsel b m) o
unfolding process_queue Ensures Handled
process_queue-Handled io qsel b m indexed =
    elim (Bool-cases (not (qsel == 0) || (not b.queue0.ready || (b.queue0.size == 0)))) [
      | inl idle ↦ (Outcome.done (b, m), rw idle refl, inl (Idle_lem qsel b idle, refl))
      | inr busy ↦
          let (o, e, handled) =
            serve_up_to-Handled io qsel (load (u64 (b.queue0.avail_addr + 2)) 16 m) b m indexed
              refl in
          (o, rw busy e, handled)
    ]
