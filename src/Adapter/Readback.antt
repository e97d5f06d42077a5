-- ===== src/Adapter/Readback.antt =====
-- The 544 bytes of OAM, written through the ports of runtime/snes_adapter.c and read back.
use ct_recomp.Base.{
  ℕ, zero, suc, false, List, [], ◌∷◌, ◌≡◌, refl, ap, ◌∙◌, ◌+◌, ◌*◌, ◌/◌, ◌%◌, ◌^◌, ◌<◌, ◌≤◌, ◌==◌,
  ltb, arith, Bool-cases, inl, inr, if_both,
}
use mathlib.Core.Path.{subst}
use ct_recomp.Base.Bits.{bit_and-mask}
use ct_recomp.Adapter.{Ppu, PpuSide}
use ct_recomp.Adapter.Oam.{oam_byte, oam_next, oam_write}
use ct_recomp.Adapter.PpuPorts.{oam_read}
use ct_recomp.Adapter.Uploaded.{At, Holds, oam_address-At, oam_next-At, oam_write-Holds}

-- `n` writes of $2104, of the bytes of `f` from `at` on.
unfoldable pub write_bytes : ℕ → ℕ → (ℕ → ℕ) → Ppu → Ppu
write_bytes zero at f p = p
write_bytes (suc n) at f p = write_bytes n (at + 1) f (oam_write (f at) p)

-- `n` reads of $2138.
unfoldable pub read_ports : ℕ → PpuSide → List ℕ
read_ports zero s = []
read_ports (suc n) s = (oam_read s).0 ∷ read_ports n (oam_read s).1

unfoldable pub bytes_from : ℕ → ℕ → (ℕ → ℕ) → List ℕ
bytes_from zero at f = []
bytes_from (suc n) at f = f at ∷ bytes_from n (at + 1) f

-- The address set to 0.
abbrev pub rewound : Ppu → Ppu
rewound p = record p { oam_adr = 0; oam_second_write = false }

write_bytes-Holds :
    (n at : ℕ) (f : ℕ → ℕ) (p : Ppu)
    → ((k : ℕ) → f k < 256)
    → at + n ≤ 544
    → Holds at f p
    → Holds (at + n) f (write_bytes n at f p)
unfolding write_bytes
write_bytes-Holds zero at f p b h t = ap_holds (omega arith) t
  where
    ap_holds : {m : ℕ} → at ≡ m → Holds at f p → Holds m f p
    ap_holds e = subst (λ m. Holds m f p) e
write_bytes-Holds (suc n) at f p b h t =
    subst (λ m. Holds m f (write_bytes n (at + 1) f (oam_write (f at) p))) {x = at + 1 + n}
      {y = at + suc n} (omega arith)
      (write_bytes-Holds n (at + 1) f (oam_write (f at) p) b (omega arith)
        (oam_write-Holds at f p b t (omega arith)))

-- One byte of a word, by the parity of its address.
even_byte : (w b : ℕ) → b % 2 ≡ 0 → w / 2 ^ (b % 2 * 8) % 256 ≡ w % 256
even_byte w b e = ap (λ t. w / 2 ^ (t * 8) % 256) e ∙ omega arith

odd_byte : (w b : ℕ) → b % 2 ≡ 1 → w / 2 ^ (b % 2 * 8) % 256 ≡ w / 256 % 256
odd_byte w b e = ap (λ t. w / 2 ^ (t * 8) % 256) e

module _ (f : ℕ → ℕ) (p : Ppu) (b : ℕ) (bytes : (k : ℕ) → f k < 256) (h : Holds 544 f p) where
  low_byte : b < 512 → p.oam (b / 2) / 2 ^ (b % 2 * 8) % 256 ≡ f b
  low_byte lt =
      let pair = h.pairs (b / 2) (omega arith) (omega arith) in
      elim (Bool-cases (b % 2 == 0)) [
        | inl e ↦
            even_byte (p.oam (b / 2)) b (ground arith)
            ∙ omega
                (arith, pair, bytes (2 * (b / 2)), ap f {x = 2 * (b / 2)} {y = b} (ground arith))
        | inr e ↦
            odd_byte (p.oam (b / 2)) b (ground arith)
            ∙ omega (
              arith,
              pair,
              bytes (2 * (b / 2)),
              bytes b,
              ap f {x = 2 * (b / 2) + 1} {y = b} (ground arith),
            )
      ]

  high_byte : 512 ≤ b → b < 544 → p.oam (256 + b % 32 / 2) / 2 ^ (b % 2 * 8) % 256 ≡ f b
  high_byte ge lt =
      let k = b % 32 / 2 in
      elim (Bool-cases (b % 2 == 0)) [
        | inl e ↦
            even_byte (p.oam (256 + k)) b (ground arith)
            ∙ (h.lows k (omega arith) (omega arith) ∙ ap f {x = 512 + 2 * k} {y = b} (ground arith))
        | inr e ↦
            odd_byte (p.oam (256 + k)) b (ground arith)
            ∙ (omega (arith, h.fits (256 + k))
                ∙ (h.highs k (omega arith) (omega arith)
                    ∙ ap f {x = 513 + 2 * k} {y = b} (ground arith)))
      ]

  -- Each byte of a full OAM.
  oam_byte-Holds : b < 544 → oam_byte p b ≡ f b
  unfolding oam_byte
  oam_byte-Holds lt =
      rw (bit_and-mask 5 b, bit_and-mask 1 b)
        (if_both (λ w. p.oam w / 2 ^ (b % 2 * 8) % 256 ≡ f b) (ltb b 512) (b / 2) (256 + b % 32 / 2)
          (λ c. low_byte (ground arith)) (λ c. high_byte (ground arith) lt))

oam_byte-oam_next : (b k : ℕ) (p : Ppu) → oam_byte (oam_next b p) k ≡ oam_byte p k
unfolding oam_byte oam_next
oam_byte-oam_next b k p = refl

oam_byte-rewound : (k : ℕ) (p : Ppu) → oam_byte (rewound p) k ≡ oam_byte p k
unfolding oam_byte
oam_byte-rewound k p = refl

read_ports-bytes :
    (n at : ℕ) (f : ℕ → ℕ) (s : PpuSide)
    → at + n ≤ 544
    → At at s.ppu
    → ((k : ℕ) → k < 544 → oam_byte s.ppu k ≡ f k)
    → read_ports n s ≡ bytes_from n at f
unfolding read_ports bytes_from oam_read
read_ports-bytes zero at f s h a e = refl
read_ports-bytes (suc n) at f s h a e =
    let next : PpuSide = record s { ppu1_mdr = oam_byte s.ppu at; ppu = oam_next at s.ppu } in
    rw (oam_address-At at s.ppu (omega arith) a) (
      ap (λ v. v ∷ read_ports n next) (e at (omega arith))
      ∙ ap (λ t. f at ∷ t)
          (read_ports-bytes n (at + 1) f next (omega arith) (oam_next-At at s.ppu (omega arith))
            (λ k q. oam_byte-oam_next at k s.ppu ∙ e k q)))

-- From OAM address 0, if the words of OAM are 16 bits wide, 544 bytes written to $2104 are the 544
-- bytes that $2138 then reads, in order, once the address is 0 again.
pub oam_write-oam_read :
    (f : ℕ → ℕ) (s : PpuSide)
    → ((k : ℕ) → f k < 256)
    → ((k : ℕ) → s.ppu.oam k < 2 ^ 16)
    → read_ports 544 (record s { ppu = rewound (write_bytes 544 0 f (rewound s.ppu)) })
      ≡ bytes_from 544 0 f
oam_write-oam_read f s bytes fits =
    let full : Holds 544 f (write_bytes 544 0 f (rewound s.ppu)) =
      write_bytes-Holds 544 0 f (rewound s.ppu) bytes (omega arith) (record {
        at = record { word = refl; second = refl };
        fits = fits;
        pairs = λ k q r. absurd (omega arith);
        kept = λ o q. absurd (omega arith);
        lows = λ k q r. absurd (omega arith);
        highs = λ k q r. absurd (omega arith);
      }) in
    read_ports-bytes 544 0 f _ (omega arith) (record { word = refl; second = refl })
      (λ k q.
        oam_byte-rewound k (write_bytes 544 0 f (rewound s.ppu))
        ∙ oam_byte-Holds f (write_bytes 544 0 f (rewound s.ppu)) k bytes full q)
