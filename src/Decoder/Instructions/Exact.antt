-- ===== src/Decoder/Instructions/Exact.antt =====
-- The decoder over all registered instructions gives the one that the word is meant for.
use riscv_em.Base.{
  ℕ, ◌^◌, ◌≤◌, ◌<◌, ◌≡◌, ◌≢◌, refl, sym, ap, ◌∙◌, ◌⊎◌, inl, inr, bit_and, bit_or, ◌==◌, false,
  Option, none, some, arith,
}
use riscv_em.Decoder.{Instruction, Registry, hash_mask, hash_mask_16}
use riscv_em.Decoder.Op.{Op}
use riscv_em.Decoder.Table.{Lut, popcount, build_lut}
use riscv_em.Decoder.Table.Keys.{key_shared, key_matches}
use riscv_em.Decoder.Table.Origins.{Among, Placed, Adds}
use riscv_em.Decoder.Table.Built.{Weighed, Stored, build_lut-Stored}
use riscv_em.Decoder.Cache.{find}
use riscv_em.Decoder.Cache.Registered.{OfSize}
use riscv_em.Decoder.Instructions.{run_inits, inits, nothing_registered, init_all_instrs}
use riscv_em.Decoder.Instructions.Unique.{
  all_entries, run_inits-all_entries, long_same, short_same, match-Within, mask-lt,
  short_mask-Within,
}

-- What decoding is to give for a word that matches `a`: a registered instruction that the word
-- matches too, and it is `a` unless both are short ones and it fixes more bits.
unfoldable pub MostSpecific : Instruction Op → ℕ → Option (Instruction Op) → Type 0
MostSpecific a word entry =
    (best : Instruction Op) × (entry ≡ some best)
    × Among best all_entries
    × (bit_and word best.mask ≡ best.match)
    × ((best ≡ a) ⊎ ((a.size ≡ 2) × (best.size ≡ 2) × (popcount 32 a.mask < popcount 32 best.mask)))

module _ (pext : ℕ → ℕ → ℕ) (bounded : (x m : ℕ) → pext x m < 2 ^ popcount 32 m)
    (selects : (x m : ℕ) → pext (bit_and x m) m ≡ pext x m)
    (injective : (x y m : ℕ) → m < 2 ^ 32 → pext x m ≡ pext y m → bit_and x m ≡ bit_and y m) where
  -- An entry of a table that was empty before.
  placed :
      (hash : ℕ) (P : Instruction Op → Type 0) (lut : Lut Op) (i : ℕ) (b : Instruction Op)
      → Adds pext hash P (λ j. none) lut
      → lut i ≡ some b
      → Placed pext hash P b i
  unfolding Adds
  placed hash P lut i b adds e = elim (adds i b e) [ inl before ↦ absurd cc | inr place ↦ place ]

  own_entry :
      (b : Instruction Op) (i : ℕ)
      → Placed pext hash_mask_16 (λ x. Among x all_entries × (x.size ≡ 2)) b i
      → Among b all_entries
  unfolding Placed
  own_entry b i ((other, size), at) = other

  module _ (a : Instruction Op) (word : ℕ) (place : Among a all_entries)
      (matches : bit_and word a.mask ≡ a.match) where
    long_found :
        (lut : Lut Op) (b : Instruction Op)
        → a.size ≢ 2
        → Placed pext hash_mask (λ x. Among x all_entries × (x.size ≢ 2)) b (pext word hash_mask)
        → b ≡ a
    unfolding Placed
    long_found lut b long ((other, size), (t, w, at)) = sym (
        long_same a b place other long size (
          key_shared hash_mask (omega arith) b word t w
            (injective word (bit_or (bit_and b.match hash_mask) t) hash_mask (omega arith) (sym at))
            (match-Within b other) a matches))

    short_found :
        (b : Instruction Op)
        → a.size ≡ 2
        → popcount 32 a.mask ≤ popcount 32 b.mask
        → Placed pext hash_mask_16
            (λ x. Among x all_entries × (x.size ≡ 2))
            b
            (pext word hash_mask_16)
        → (bit_and word b.mask ≡ b.match)
          × ((b ≡ a) ⊎ ((a.size ≡ 2) × (b.size ≡ 2) × (popcount 32 a.mask < popcount 32 b.mask)))
    unfolding Placed
    short_found b short le ((other, size), (t, w, at)) =
        let same_key =
          injective word (bit_or (bit_and b.match hash_mask_16) t) hash_mask_16 (omega arith)
            (sym at) in
        let shared =
          key_shared hash_mask_16 (omega arith) b word t w same_key (match-Within b other) a
            matches in
        (
          key_matches hash_mask_16 (omega arith) b word t w same_key (match-Within b other)
              (mask-lt b other) (short_mask-Within b other size),
          elim (short_same a b place other short size shared) [
            | inl same ↦ inl (sym same)
            | inr differ ↦ inr (short, size, ground (arith, differ, le))
          ],
        )

    find_long :
        (lut lut16 : Lut Op)
        → a.size ≢ 2
        → bit_and word 0x3 ≡ 0x3
        → Weighed a (lut (pext word hash_mask))
        → Adds pext hash_mask (λ x. Among x all_entries × (x.size ≢ 2)) (λ j. none) lut
        → MostSpecific a word (find pext lut lut16 word)
    unfolding MostSpecific Weighed find
    find_long lut lut16 long low (best, e, le) adds =
        let same : best ≡ a = long_found lut best long (
          placed hash_mask (λ x. Among x all_entries × (x.size ≢ 2)) lut (pext word hash_mask) best
            adds e) in
        (a, rw (find, low, e) (ap some same), place, matches, inl refl)

    find_short :
        (lut lut16 : Lut Op)
        → a.size ≡ 2
        → bit_and word 0x3 ≢ 0x3
        → Weighed a (lut16 (pext word hash_mask_16))
        → Adds pext hash_mask_16 (λ x. Among x all_entries × (x.size ≡ 2)) (λ j. none) lut16
        → MostSpecific a word (find pext lut lut16 word)
    unfolding MostSpecific Weighed find
    find_short lut lut16 short low (best, e, le) adds =
        let origin =
          placed hash_mask_16 (λ x. Among x all_entries × (x.size ≡ 2)) lut16
            (pext word hash_mask_16) best adds e in
        let other : Among best all_entries = own_entry best (pext word hash_mask_16) origin in
        let found = short_found best short le origin in
        let test : (bit_and word 0x3 == 0x3) ≡ false = ground (arith, low) in
        let entry : lut16 (pext (bit_and word 0xffff) hash_mask_16) ≡ some best =
          ap lut16 (selects word hash_mask_16) ∙ e in
        (best, rw (find, test, entry) refl, other, found.0, found.1)

  init_all_instrs-build_lut :
      (r : Registry Op)
      → run_inits inits nothing_registered ≡ some r
      → r.instructions ≡ all_entries
      → init_all_instrs pext ≡ build_lut pext all_entries (λ j. none) (λ j. none)
  unfolding init_all_instrs
  init_all_instrs-build_lut r done listed =
      rw (init_all_instrs, done) (ap (λ l. build_lut pext l (λ j. none) (λ j. none)) listed)

  of_size :
      (a : Instruction Op) (word : ℕ) (lut lut16 : Lut Op)
      → Among a all_entries
      → bit_and word a.mask ≡ a.match
      → OfSize a word
      → Stored pext bounded selects a lut lut16
      → Adds pext hash_mask (λ x. Among x all_entries × (x.size ≢ 2)) (λ j. none) lut
      → Adds pext hash_mask_16 (λ x. Among x all_entries × (x.size ≡ 2)) (λ j. none) lut16
      → MostSpecific a word (find pext lut lut16 word)
  unfolding OfSize Stored
  of_size a word lut lut16 place matches (inl (short, low)) stored new new16 =
      find_short a word place matches lut lut16 short low ((stored word matches).0 short) new16
  of_size a word lut lut16 place matches (inr (long, low)) stored new new16 =
      find_long a word place matches lut lut16 long low ((stored word matches).1 long) new

  -- The decoder as `init_all_instrs` builds it: no assertion fails and its tables are complete. A
  -- word that matches a registered instruction of its size is decoded to a registered instruction
  -- that it matches: to that one, or, between short ones, to one that fixes more bits. `_pext_u32`
  -- gives a number of as many bits as its mask has ones, made of the bits under the mask only, and
  -- different ones for different bits.
  pub init_all_instrs-MostSpecific :
      (lut : Lut Op) × (lut16 : Lut Op) × (init_all_instrs pext ≡ some (lut, lut16))
      × ((a : Instruction Op) (word : ℕ)
          → Among a all_entries
          → bit_and word a.mask ≡ a.match
          → OfSize a word
          → MostSpecific a word (find pext lut lut16 word))
  init_all_instrs-MostSpecific =
      let (r, done, listed) = run_inits-all_entries in
      let (lut, lut16, built, kept, kept16, stored, new, new16) =
        build_lut-Stored pext bounded selects all_entries (λ j. none) (λ j. none) in
      (
        lut,
        lut16,
        init_all_instrs-build_lut r done listed ∙ built,
        λ a word place matches sized.
            of_size a word lut lut16 place matches sized (stored a place) new new16,
      )
