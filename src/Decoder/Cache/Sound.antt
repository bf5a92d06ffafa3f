-- ===== src/Decoder/Cache/Sound.antt =====
-- The cache changes nothing but the time: what it returns is what the tables give.
use riscv_em.Base.{ℕ, ◌≡◌, refl, ◌∙◌, ◌==◌, if◌then◌else◌, true, false, Bool-cases, inl, inr, arith}
use riscv_em.Hart.{Hart}
use riscv_em.Isa.{InstructionData}
use riscv_em.Decoder.Table.{Lut}
use riscv_em.Decoder.Cache.{
  InstructionCache, CacheSet, Cache, hit, set_index, fresh, decode_inst, decode_inst_slow,
  exec_fence_i,
}

module _ {F : Type 0} (pext : ℕ → ℕ → ℕ) (lut lut16 : Lut F) where
  -- A way that counts holds what the tables give for its address and its word.
  unfoldable pub WaySound : InstructionCache F → Type 0
  WaySound e = e.valid ≡ true → e ≡ fresh pext lut lut16 e.pc e.inst_raw

  unfoldable pub Sound : Cache F → Type 0
  Sound cache = (i : ℕ) → WaySound (cache i).way0 × WaySound (cache i).way1

  fresh-WaySound : (pc inst : ℕ) → WaySound (fresh pext lut lut16 pc inst)
  unfolding WaySound fresh
  fresh-WaySound pc inst v = refl

  hit-fresh :
      (pc inst : ℕ) (e : InstructionCache F)
      → WaySound e
      → hit pc inst e ≡ true
      → e ≡ fresh pext lut lut16 pc inst
  unfolding WaySound
  hit-fresh pc inst e sound found =
      let parts : (e.valid ≡ true) × (e.pc ≡ pc) × (e.inst_raw ≡ inst) = ground arith in
      sound parts.0 ∙ λ i. fresh pext lut lut16 (parts.1 i) (parts.2 i)

  -- The set that a miss writes.
  replaced : (pc inst : ℕ) (old : CacheSet F) → CacheSet F
  replaced pc inst old =
      if old.victim
      then record old { way1 = fresh pext lut lut16 pc inst; victim = false }
      else record old { way0 = fresh pext lut lut16 pc inst; victim = true }

  replaced-WaySound :
      (pc inst : ℕ) (old : CacheSet F)
      → WaySound old.way0
      → WaySound old.way1
      → WaySound (replaced pc inst old).way0 × WaySound (replaced pc inst old).way1
  unfolding replaced
  replaced-WaySound pc inst old w0 w1 = elim (Bool-cases old.victim) [
    | inl b ↦ rw b (w0, fresh-WaySound pc inst)
    | inr b ↦ rw b (fresh-WaySound pc inst, w1)
  ]

  decode_inst_slow-Sound :
      (pc inst : ℕ) (cache : Cache F)
      → Sound cache
      → Sound (decode_inst_slow pext lut lut16 pc inst cache).1
  unfolding Sound decode_inst_slow replaced
  decode_inst_slow-Sound pc inst cache sound i = elim (Bool-cases (i == set_index pc)) [
    | inl here ↦ rw here (
        replaced-WaySound pc inst (cache (set_index pc)) (sound (set_index pc)).0
          (sound (set_index pc)).1)
    | inr there ↦ rw there (sound i)
  ]

  -- For a sound cache, a decoded entry is the one that the tables give for the address and the word,
  -- whether it was found in the cache or not, and the cache stays sound.
  pub decode_inst-Sound :
      (pc inst : ℕ) (cache : Cache F)
      → Sound cache
      → ((decode_inst pext lut lut16 pc inst cache).0 ≡ fresh pext lut lut16 pc inst)
        × Sound (decode_inst pext lut lut16 pc inst cache).1
  unfolding decode_inst
  decode_inst-Sound pc inst cache sound =
      let set = cache (set_index pc) in
      let w : WaySound set.way0 × WaySound set.way1 = unfold Sound in sound (set_index pc) in
      elim (Bool-cases (hit pc inst set.way0)) [
        | inl h ↦ rw h (hit-fresh pc inst set.way0 w.0 h, sound)
        | inr m ↦ elim (Bool-cases (hit pc inst set.way1)) [
          | inl h ↦ rw (m, h) (hit-fresh pc inst set.way1 w.1 h, sound)
          | inr n ↦
              rw (m, n)
                ((unfold decode_inst_slow in refl), decode_inst_slow-Sound pc inst cache sound)
        ]
      ]

  pub exec_fence_i-Sound :
      (d : InstructionData) (h : Hart) (cache : Cache F) → Sound (exec_fence_i d h cache).2
  unfolding Sound exec_fence_i WaySound
  exec_fence_i-Sound d h cache i = (λ v. cc, λ v. cc)
