-- ===== src/Adapter/Prefetch.antt =====
-- Reading VRAM through the prefetch latch of runtime/snes_adapter.c.
use ct_recomp.Base.{
  ℕ, zero, suc, true, List, [], ◌∷◌, ◌≡◌, refl, ap, ◌∙◌, ◌+◌, ◌/◌, ◌^◌, ◌<◌, if◌then◌else◌, bit_and,
  arith, u8, u16, word,
}
use ct_recomp.Base.Bits.{bit_or-fields}
use ct_recomp.Adapter.{Ppu, PpuSide}
use ct_recomp.Adapter.PpuPorts.{
  vram_prefetch_increment, vram_read_low, vram_read_high, ppu_reg_store,
}

-- `n` words read through $2139 and then $213A.
unfoldable pub read_words : ℕ → PpuSide → List ℕ
read_words zero s = []
read_words (suc n) s =
    let low = vram_read_low s in
    let high = vram_read_high low.1 in word low.0 high.0 ∷ read_words n high.1

-- `n` words of VRAM from the word address `at` on, `step` apart.
unfoldable pub vram_words : ℕ → (ℕ → ℕ) → ℕ → ℕ → List ℕ
vram_words zero vram step at = []
vram_words (suc n) vram step at =
    vram (bit_and at 0x7FFF) ∷ vram_words n vram step (u16 (at + step))

word_of_bytes : (w : ℕ) → w < 2 ^ 16 → word (u8 w) (u8 (w / 2 ^ 8)) ≡ w
word_of_bytes w h = bit_or-fields 8 (u8 (w / 2 ^ 8)) (u8 w) (omega arith) ∙ omega arith

-- The state after one word.
after_word : PpuSide → PpuSide
after_word s = vram_prefetch_increment (record s { ppu1_mdr = u8 (s.vram_latch / 2 ^ 8) })

low_then_high :
    (s : PpuSide)
    → s.ppu.vram_increment_on_high ≡ true
    → (vram_read_high (vram_read_low s).1).1 ≡ after_word s
unfolding vram_read_low vram_read_high after_word
low_then_high s h =
    let s1 : PpuSide = record s { ppu1_mdr = u8 s.vram_latch } in
    ap (λ t. (vram_read_high t).1) (ap (λ b. if b then s1 else vram_prefetch_increment s1) h)
    ∙ ap (λ b. if b then after_word s else record s { ppu1_mdr = u8 (s.vram_latch / 2 ^ 8) }) h

high_value :
    (s : PpuSide)
    → s.ppu.vram_increment_on_high ≡ true
    → (vram_read_high (vram_read_low s).1).0 ≡ u8 (s.vram_latch / 2 ^ 8)
unfolding vram_read_low vram_read_high
high_value s h =
    let s1 : PpuSide = record s { ppu1_mdr = u8 s.vram_latch } in
    ap (λ t. (vram_read_high t).0) (ap (λ b. if b then s1 else vram_prefetch_increment s1) h)

read_words_step :
    (n : ℕ) (s : PpuSide)
    → s.ppu.vram_increment_on_high ≡ true
    → s.vram_latch < 2 ^ 16
    → read_words (suc n) s ≡ s.vram_latch ∷ read_words n (after_word s)
unfolding read_words
read_words_step n s h b =
    ap (λ v. word (vram_read_low s).0 v ∷ read_words n (vram_read_high (vram_read_low s).1).1)
      (high_value s h)
    ∙ (ap (λ t. word (vram_read_low s).0 (u8 (s.vram_latch / 2 ^ 8)) ∷ read_words n t)
          (low_then_high s h)
        ∙ ap (λ v. v ∷ read_words n (after_word s)) low)
  where
    low : word (vram_read_low s).0 (u8 (s.vram_latch / 2 ^ 8)) ≡ s.vram_latch
    low = unfold vram_read_low in word_of_bytes s.vram_latch b

-- Where the address moves after $213A, the words come from the latch and then from the address on.
read_words-latch :
    (n : ℕ) (s : PpuSide)
    → s.ppu.vram_increment_on_high ≡ true
    → s.vram_latch < 2 ^ 16
    → ((k : ℕ) → s.ppu.vram k < 2 ^ 16)
    → read_words (suc n) s
      ≡ s.vram_latch ∷ vram_words n s.ppu.vram s.ppu.vram_increment s.ppu.vram_pointer
unfolding vram_words after_word vram_prefetch_increment
read_words-latch zero s h b f =
    read_words_step zero s h b ∙ ap (λ t. s.vram_latch ∷ t) (unfold read_words in refl)
read_words-latch (suc n) s h b f =
    read_words_step (suc n) s h b
    ∙ ap (λ t. s.vram_latch ∷ t)
        (read_words-latch n (after_word s) h (f (bit_and s.ppu.vram_pointer 0x7FFF)) f)

-- After a write of $2117, with the address moving after $213A and 16-bit words in VRAM, the first
-- word that $2139 and $213A give is the one at the address, and the following words start with
-- that one again and go on by the increment, the address wrapping in 16 bits.
pub ppu_reg_store-read_words :
    (ppu_write : ℕ → ℕ → Ppu → Ppu) (n v : ℕ) (s : PpuSide)
    → (ppu_write 0x17 v s.ppu).vram_increment_on_high ≡ true
    → ((k : ℕ) → (ppu_write 0x17 v s.ppu).vram k < 2 ^ 16)
    → read_words (suc n) (ppu_reg_store ppu_write 0x2117 v s)
      ≡ (ppu_write 0x17 v s.ppu).vram (bit_and (ppu_write 0x17 v s.ppu).vram_pointer 0x7FFF)
        ∷ vram_words n
            (ppu_write 0x17 v s.ppu).vram
            (ppu_write 0x17 v s.ppu).vram_increment
            (ppu_write 0x17 v s.ppu).vram_pointer
unfolding ppu_reg_store
ppu_reg_store-read_words ppu_write n v s h f =
    read_words-latch n (ppu_reg_store ppu_write 0x2117 v s) h
      (f (bit_and (ppu_write 0x17 v s.ppu).vram_pointer 0x7FFF)) f
