-- ===== src/Devices/Virtio/Queue/Progress.antt =====
-- A round of the loop takes one entry of the available ring, and what it serves is told.
use riscv_em.Base.{
  ℕ, zero, suc, ◌+◌, ◌^◌, ◌≤◌, ◌<◌, ◌≡◌, refl, sym, subst, u16, ltb, Bool, true, Bool-cases, inl,
  inr, List, [], ◌∷◌, Option, none, some, arith,
}
use riscv_em.Base.Bits.{bit, bit-bit_or}
use riscv_em.Memory.{MemoryMap}
use riscv_em.Memory.Results.{Ensures, Ensures->>=, Ensures-after}
use riscv_em.Devices.Virtio.{VirtqDesc, VirtioBlkReq, VirtioBlk, Stdio}
use riscv_em.Devices.Virtio.Disk.{split_status}
use riscv_em.Devices.Virtio.Queue.{
  raise_irq, skip, add_used, answer, serve_chain, serve_fetched, serve_entry,
}

-- So many times the level `true` before what was told earlier.
unfoldable pub raised : ℕ → List Bool → List Bool
raised zero earlier = earlier
raised (suc n) earlier = true ∷ raised n earlier

module _ {F : Type 0} where
  -- The indexes are 16-bit numbers.
  pub record Indexed (b : VirtioBlk F) : Type 0 where
    pub avail : b.queue0.last_avail_idx < 2 ^ 16
    pub used : b.queue0.last_used_idx < 2 ^ 16

  -- So many chains have gone to the used ring. Each one raises the interrupt, and nothing but the
  -- disk, the two indexes and the interrupt changes.
  pub record Progress (served : ℕ) (b b' : VirtioBlk F) : Type 0 where
    pub used : b'.queue0.last_used_idx ≡ u16 (b.queue0.last_used_idx + served)
    pub told : b'.told ≡ raised served b.told
    pub quiet : served ≡ 0 → b'.interrupt_status ≡ b.interrupt_status
    pub flagged : 0 < served → bit 0 b'.interrupt_status ≡ 1
    pub kept : b' ≡ record b {
      disk = b'.disk;
      interrupt_status = b'.interrupt_status;
      told = b'.told;
      queue0 = record b.queue0 {
        last_avail_idx = b'.queue0.last_avail_idx;
        last_used_idx = b'.queue0.last_used_idx;
      };
    }

  -- A round takes one entry of the available ring, and serves it or not.
  pub record Served (b b' : VirtioBlk F) : Type 0 where
    pub next : b'.queue0.last_avail_idx ≡ u16 (b.queue0.last_avail_idx + 1)
    pub served : ℕ
    pub once : served ≤ 1
    pub progress : Progress served b b'

  skip-Served : (b : VirtioBlk F) → Indexed b → Served b (skip b)
  unfolding skip raised
  skip-Served b indexed = record {
    next = refl;
    served = 0;
    once = omega arith;
    progress = record {
      used = omega (arith, indexed.used);
      told = refl;
      quiet = λ e. refl;
      flagged = λ h. absurd (omega arith);
      kept = refl;
    };
  }

  -- The same of what a call returns.
  abbrev pub ServedBy : VirtioBlk F → VirtioBlk F × MemoryMap → Type 0
  ServedBy b (b', m) = Served b b'

  add_used-Served :
      (head : ℕ) (b : VirtioBlk F) (disk : Option F) (m : MemoryMap)
      → Ensures (ServedBy b) (add_used head (record b { disk = disk }) m)
  unfolding add_used skip raise_irq raised Ensures
  add_used-Served head b disk m = Ensures-after (ServedBy b) _ _ λ m1.
      Ensures-after (ServedBy b) _ _ λ m2. Ensures-after (ServedBy b) _ _ λ m3. record {
        next = refl;
        served = 1;
        once = omega arith;
        progress = record {
          used = refl;
          told = refl;
          quiet = λ e. absurd (omega arith);
          flagged = λ h. ground (arith, bit-bit_or 0 b.interrupt_status 1);
          kept = refl;
        };
      }

  pub Served-Indexed : (b b' : VirtioBlk F) → Served b b' → Indexed b'
  Served-Indexed b b' first = record {
    avail = omega (arith, first.next);
    used = omega (arith, first.progress.used);
  }

  module _ (io : Stdio F) where
    -- An operation changes the disk only.
    abbrev SameBut : VirtioBlk F → VirtioBlk F × MemoryMap → Type 0
    SameBut b (b', m) = (disk : Option F) × (b' ≡ record b { disk = disk })

    answer-same :
        (req : VirtioBlkReq) (split : Option (List VirtqDesc × VirtqDesc)) (b : VirtioBlk F)
        (m : MemoryMap)
        → Ensures (SameBut b) (answer io req split b m)
    unfolding answer Ensures
    answer-same req none b m = (b.disk, refl)
    answer-same req (some (descs, status)) b m =
        Ensures-after (SameBut b) _ _
          λ result. Ensures-after (SameBut b) _ _ λ m''. (result.1, refl)

    serve_chain-Served :
        (head : ℕ) (chain : List VirtqDesc) (b : VirtioBlk F) (m : MemoryMap)
        → Indexed b
        → Ensures (ServedBy b) (serve_chain io head chain b m)
    unfolding serve_chain Ensures
    serve_chain-Served head [] b m indexed = skip-Served b indexed
    serve_chain-Served head (header ∷ []) b m indexed = skip-Served b indexed
    serve_chain-Served head (header ∷ second ∷ rest) b m indexed =
        elim (Bool-cases (ltb header.len 16)) [
          | inl short ↦ rw short (skip-Served b indexed)
          | inr long ↦ rw long (
              Ensures-after (ServedBy b) _ _ λ req.
                Ensures->>= (SameBut b) (ServedBy b) _ _
                  (answer-same req (split_status (second ∷ rest)) b m)
                  (λ result same.
                    subst (λ b'. Ensures (ServedBy b) (add_used head b' result.1)) (sym same.1)
                      (add_used-Served head b same.0 result.1)))
        ]

    serve_fetched-Served :
        (head : ℕ) (found : Option (List VirtqDesc)) (b : VirtioBlk F) (m : MemoryMap)
        → Indexed b
        → Ensures (ServedBy b) (serve_fetched io head found b m)
    unfolding serve_fetched Ensures
    serve_fetched-Served head none b m indexed = skip-Served b indexed
    serve_fetched-Served head (some chain) b m indexed = serve_chain-Served head chain b m indexed

    pub serve_entry-Served :
        (b : VirtioBlk F) (m : MemoryMap) → Indexed b → Ensures (ServedBy b) (serve_entry io b m)
    unfolding serve_entry
    serve_entry-Served b m indexed = Ensures-after (ServedBy b) _ _ λ head.
        Ensures-after (ServedBy b) _ _ λ found. serve_fetched-Served (u16 head) found b m indexed
