-- ===== src/Adapter/Uploaded.antt =====
-- The 544 bytes of OAM through the ports of runtime/snes_adapter.c: written from address 0, they are
-- read back.
use ct_recomp.Base.{
  ℕ, ◌≡◌, ◌≢◌, ◌⊎◌, refl, if_both, ==_iff, ap, sym, ◌∙◌, ◌+◌, ◌-◌, ◌*◌, ◌/◌, ◌%◌, ◌^◌, ◌<◌, ◌≤◌,
  ◌==◌, ltb, flag, bit_and, bit_or, update, arith, not, Bool-cases, inl, inr, ==_true, ==_false,
  u16,
}
use ct_recomp.Base.Bits.{bit_and-mask, bit_or-fields}
use ct_recomp.Base.Bytes.{high_low, bit_or_comm}
use mathlib.Core.Path.{subst}
use ct_recomp.Adapter.{Ppu}
use ct_recomp.Adapter.Oam.{oam_address, oam_next, oam_write, oam_write_low, oam_write_high}

-- The byte of the port's next access is `n`.
pub record At (n : ℕ) (p : Ppu) : Type 0 where
  pub word : p.oam_adr ≡ n / 2
  pub second : flag p.oam_second_write ≡ n % 2

pub oam_address-At : (n : ℕ) (p : Ppu) → n < 1024 → At n p → oam_address p ≡ n
unfolding oam_address
oam_address-At n p h a =
    bit_and-mask 10 (bit_or (p.oam_adr * 2 ^ 1) (flag p.oam_second_write))
    ∙ omega (arith, bit_or-fields 1 p.oam_adr (flag p.oam_second_write), a.word, a.second)

odd_flag : (b : ℕ) → flag (not (bit_and b 1 == 0)) ≡ b % 2
odd_flag b = ap (λ t. flag (not (t == 0))) (bit_and-mask 1 b) ∙ ground arith

pub oam_next-At : (n : ℕ) (p : Ppu) → n < 1023 → At (n + 1) (oam_next n p)
unfolding oam_next
oam_next-At n p h =
    let b : bit_and (n + 1) 0x3FF ≡ n + 1 = bit_and-mask 10 (n + 1) ∙ omega arith in
    record {
      word = ap (λ t. u16 (t / 2)) b ∙ omega arith;
      second = odd_flag (bit_and (n + 1) 0x3FF) ∙ ap (λ t. t % 2) b;
    }

-- After `n` bytes of `f`: the port is at byte `n`, and the words hold the bytes written.
pub record Holds (n : ℕ) (f : ℕ → ℕ) (p : Ppu) : Type 0 where
  pub at : At n p
  pub fits : (k : ℕ) → p.oam k < 2 ^ 16
  pub pairs : (k : ℕ) → k < 256 → 2 * k + 2 ≤ n → p.oam k ≡ f (2 * k + 1) * 256 + f (2 * k)
  pub kept : n % 2 ≡ 1 → n < 512 → p.oam_buffer ≡ f (n - 1)
  pub lows : (k : ℕ) → k < 16 → 513 + 2 * k ≤ n → p.oam (256 + k) % 256 ≡ f (512 + 2 * k)
  pub highs : (k : ℕ) → k < 16 → 514 + 2 * k ≤ n → p.oam (256 + k) / 256 ≡ f (513 + 2 * k)

write_low_even : (n v : ℕ) (p : Ppu) → n % 2 ≡ 0 → oam_write_low n v p ≡ record p { oam_buffer = v }
unfolding oam_write_low
write_low_even n v p e = rw (bit_and-mask 1 n, ==_true (n % 2) 0 e) refl

write_low_odd :
    (n v : ℕ) (p : Ppu)
    → n % 2 ≡ 1
    → v < 256
    → p.oam_buffer < 256
    → oam_write_low n v p ≡ record p { oam = update p.oam (n / 2) (v * 256 + p.oam_buffer) }
unfolding oam_write_low
write_low_odd n v p e h k =
    rw (bit_and-mask 1 n, ==_false (n % 2) 0 (omega arith))
      (ap (λ t. record p { oam = update p.oam (n / 2) t })
        {x = u16 (bit_or (v * 2 ^ 8) p.oam_buffer)}
        (omega (arith, bit_or-fields 8 v p.oam_buffer k)))

write_high_even :
    (n v : ℕ) (p : Ppu)
    → n % 2 ≡ 0
    → v < 256
    → p.oam (256 + n % 32 / 2) < 2 ^ 16
    → oam_write_high n v p ≡ record p {
      oam = update p.oam (256 + n % 32 / 2) (p.oam (256 + n % 32 / 2) / 256 * 256 + v);
    }
unfolding oam_write_high
write_high_even n v p e h k =
    rw (bit_and-mask 1 n, bit_and-mask 5 n, ==_true (n % 2) 0 e)
      (ap (λ t. record p { oam = update p.oam (256 + n % 32 / 2) t })
        (high_low (p.oam (256 + n % 32 / 2)) v k h))

write_high_odd :
    (n v : ℕ) (p : Ppu)
    → n % 2 ≡ 1
    → v < 256
    → oam_write_high n v p ≡ record p {
      oam = update p.oam (256 + n % 32 / 2) (v * 256 + p.oam (256 + n % 32 / 2) % 256);
    }
unfolding oam_write_high
write_high_odd n v p e h =
    rw (bit_and-mask 1 n, bit_and-mask 5 n, ==_false (n % 2) 0 (omega arith))
      (ap (λ t. record p { oam = update p.oam (256 + n % 32 / 2) t })
        (ap (λ t. u16 t)
            (bit_or_comm (bit_and (p.oam (256 + n % 32 / 2)) 0xFF) (v * 2 ^ 8)
              ∙ (ap (bit_or (v * 2 ^ 8)) (bit_and-mask 8 (p.oam (256 + n % 32 / 2)))
                  ∙ bit_or-fields 8 v (p.oam (256 + n % 32 / 2) % 256) (omega arith)))
          ∙ omega arith))

updated :
    (P : ℕ → Type 0) (g : ℕ → ℕ) (i v j : ℕ)
    → (j ≡ i → P v)
    → (j ≢ i → P (g j))
    → P (update g i v j)
updated P g i v j a b =
    if_both P (j == i) v (g j) (λ e. a ((==_iff j i).0 e)) (λ e. b (λ q. absurd (ground arith)))

-- The bytes that a step keeps, and the one that it adds.
module _ (n : ℕ) (f : ℕ → ℕ) (p : Ppu) (bytes : (k : ℕ) → f k < 256) (h : Holds n f p) where
  step_low_even : n < 512 → n % 2 ≡ 0 → Holds (n + 1) f (oam_next n (record p { oam_buffer = f n }))
  unfolding oam_next
  step_low_even lt e = record {
    at = oam_next-At n (record p { oam_buffer = f n }) (omega arith);
    fits = h.fits;
    pairs = λ k q r. h.pairs k q (omega arith);
    kept = λ o q. ap f {x = n} {y = n + 1 - 1} (omega arith);
    lows = λ k q r. absurd (omega arith);
    highs = λ k q r. absurd (omega arith);
  }

  step_low_odd :
      n < 512
      → n % 2 ≡ 1
      → Holds
          (n + 1)
          f
          (oam_next n (record p { oam = update p.oam (n / 2) (f n * 256 + p.oam_buffer) }))
  unfolding oam_next
  step_low_odd lt e =
      let b : p.oam_buffer ≡ f (n - 1) = h.kept e lt in
      record {
        at =
            oam_next-At n (record p { oam = update p.oam (n / 2) (f n * 256 + p.oam_buffer) })
              (omega arith);
        fits = λ k.
            updated (λ t. t < 2 ^ 16) p.oam (n / 2) (f n * 256 + p.oam_buffer) k
              (λ q. omega (arith, b, bytes n, bytes (n - 1))) (λ q. h.fits k);
        pairs = λ k q r.
            updated (λ t. t ≡ f (2 * k + 1) * 256 + f (2 * k)) p.oam (n / 2)
              (f n * 256 + p.oam_buffer) k
              (λ u. omega (
                arith,
                b,
                ap f {x = n} {y = 2 * k + 1} (omega arith),
                ap f {x = n - 1} {y = 2 * k} (omega arith),
              ))
              (λ u. h.pairs k q (omega arith));
        kept = λ o q. absurd (omega arith);
        lows = λ k q r. absurd (omega arith);
        highs = λ k q r. absurd (omega arith);
      }

  module _ (ge : 512 ≤ n) (lt : n < 544) where
    here : ℕ
    here = 256 + n % 32 / 2

    step_high_even :
        n % 2 ≡ 0
        → Holds
            (n + 1)
            f
            (oam_next n (record p { oam = update p.oam here (p.oam here / 256 * 256 + f n) }))
    unfolding oam_next here
    step_high_even e =
        let new = p.oam here / 256 * 256 + f n in
        record {
          at = oam_next-At n (record p { oam = update p.oam here new }) (omega arith);
          fits = λ k.
              updated (λ t. t < 2 ^ 16) p.oam here new k (λ q. omega (arith, bytes n, h.fits here))
                (λ q. h.fits k);
          pairs = λ k q r.
              updated (λ t. t ≡ f (2 * k + 1) * 256 + f (2 * k)) p.oam here new k
                (λ u. absurd (omega arith)) (λ u. h.pairs k q (omega arith));
          kept = λ o q. absurd (omega arith);
          lows = λ k q r.
              updated (λ t. t % 256 ≡ f (512 + 2 * k)) p.oam here new (256 + k)
                (λ u. omega (arith, bytes n, ap f {x = n} {y = 512 + 2 * k} (omega arith)))
                (λ u. h.lows k q (omega arith));
          highs = λ k q r.
              updated (λ t. t / 256 ≡ f (513 + 2 * k)) p.oam here new (256 + k)
                (λ u. absurd (omega arith)) (λ u. h.highs k q (omega arith));
        }

    step_high_odd :
        n % 2 ≡ 1
        → Holds
            (n + 1)
            f
            (oam_next n (record p { oam = update p.oam here (f n * 256 + p.oam here % 256) }))
    unfolding oam_next here
    step_high_odd e =
        let new = f n * 256 + p.oam here % 256 in
        record {
          at = oam_next-At n (record p { oam = update p.oam here new }) (omega arith);
          fits = λ k.
              updated (λ t. t < 2 ^ 16) p.oam here new k (λ q. omega (arith, bytes n))
                (λ q. h.fits k);
          pairs = λ k q r.
              updated (λ t. t ≡ f (2 * k + 1) * 256 + f (2 * k)) p.oam here new k
                (λ u. absurd (omega arith)) (λ u. h.pairs k q (omega arith));
          kept = λ o q. absurd (omega arith);
          lows = λ k q r.
              updated (λ t. t % 256 ≡ f (512 + 2 * k)) p.oam here new (256 + k)
                (λ u. omega (arith, h.lows k q (omega arith), ap p.oam u))
                (λ u. h.lows k q (omega arith));
          highs = λ k q r.
              updated (λ t. t / 256 ≡ f (513 + 2 * k)) p.oam here new (256 + k)
                (λ u. omega (arith, bytes n, ap f {x = n} {y = 513 + 2 * k} (omega arith)))
                (λ u. h.highs k q (omega arith));
        }

  even_or_odd : (n % 2 ≡ 0) ⊎ (n % 2 ≡ 1)
  even_or_odd = elim (Bool-cases (n % 2 == 0)) [
    | inl e ↦ inl (ground arith)
    | inr e ↦ inr (ground arith)
  ]

  pub oam_write-Holds : n < 544 → Holds (n + 1) f (oam_write (f n) p)
  unfolding oam_write here
  oam_write-Holds lt = rw (oam_address-At n p (omega arith) h.at) (
      if_both (λ q. Holds (n + 1) f (oam_next n q)) (ltb n 0x200) (oam_write_low n (f n) p)
        (oam_write_high n (f n) p)
        (λ c.
          let low : n < 512 = ground arith in
          elim even_or_odd [
            | inl e ↦
                subst (λ q. Holds (n + 1) f (oam_next n q)) (sym (write_low_even n (f n) p e))
                  (step_low_even low e)
            | inr e ↦
                subst (λ q. Holds (n + 1) f (oam_next n q))
                  (sym (
                    write_low_odd n (f n) p e (bytes n)
                      (omega (arith, h.kept e low, bytes (n - 1)))))
                  (step_low_odd low e)
          ])
        (λ c.
          let high : 512 ≤ n = ground arith in
          elim even_or_odd [
            | inl e ↦
                subst (λ q. Holds (n + 1) f (oam_next n q))
                  (sym (write_high_even n (f n) p e (bytes n) (h.fits (256 + n % 32 / 2))))
                  (step_high_even high lt e)
            | inr e ↦
                subst (λ q. Holds (n + 1) f (oam_next n q))
                  (sym (write_high_odd n (f n) p e (bytes n))) (step_high_odd high lt e)
          ]))
