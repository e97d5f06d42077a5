-- ===== src/Agree/Values.antt =====
-- Read-modify-write values and the accumulator of both implementations.
use ct_recomp.Base.{
  ℕ, Bool, true, false, not, ◌≡◌, ◌+◌, ◌*◌, ◌/◌, ◌≤◌, ◌^◌, arith, u8, sub8, flag, ◌==◌, bit_and,
  bit_or, ◌⊎◌, inl, inr,
}
use ct_recomp.Base.Bits.{bit_and-mask, bit_and-pow, bit_or-lt}
use ct_recomp.Cpu.{Cpu, IsCpu}
use ct_recomp.Ops.Values.{
  asl8, rol8, lsr8, ror8, inc8, dec8, asl16, rol16, lsr16, ror16, inc16, dec16,
}
use ct_recomp.Interp.Registers.{Rmw, asl, rol, lsr, ror, inc, dec, rmw}
use ct_recomp.Sound.State.{IsByte, IsWord}
use ct_recomp.Sound.Access.{IsWidth}

-- The function of ops.h that generated code calls for a read-modify-write at a width.
unfoldable pub generated_rmw : Rmw → Bool → ℕ → Cpu → ℕ × Cpu
generated_rmw asl true = asl16
generated_rmw asl false = asl8
generated_rmw rol true = rol16
generated_rmw rol false = rol8
generated_rmw lsr true = lsr16
generated_rmw lsr false = lsr8
generated_rmw ror true = ror16
generated_rmw ror false = ror8
generated_rmw inc true = inc16
generated_rmw inc false = inc8
generated_rmw dec true = dec16
generated_rmw dec false = dec8

bit_cases : (n : ℕ) → n ≤ 1 → (n ≡ 0) ⊎ (n ≡ 1)
bit_cases n h = omega arith

top_bit : (v : ℕ) → IsByte v → flag (not (bit_and v 0x80 == 0)) ≡ v / 2 ^ 7
top_bit v h = ground (arith, bit_and-pow 7 v)

top_bit16 : (v : ℕ) → IsWord v → flag (not (bit_and v 0x8000 == 0)) ≡ v / 2 ^ 15
top_bit16 v h = ground (arith, bit_and-pow 15 v)

-- In well-formed registers, for a value of the width, the read-modify-write functions of ops.h
-- (ASL, ROL, LSR, ROR, INC, DEC in 8 and 16 bits) return the value and the registers of the
-- interpreter's rmw.
pub generated_rmw-eq-rmw :
    (op : Rmw) (wide : Bool) (v : ℕ) (c : Cpu)
    → IsCpu c
    → IsWidth wide v
    → generated_rmw op wide v c ≡ rmw op v wide c
unfolding generated_rmw rmw asl8 rol8 lsr8 ror8 inc8 dec8 asl16 rol16 lsr16 ror16 inc16 dec16
generated_rmw-eq-rmw asl true v c h p = ground (arith, top_bit16 v p)
generated_rmw-eq-rmw asl false v c h p =
    ground (arith, top_bit v p, bit_and-mask 1 (u8 (v * 2 ^ 1) / 2 ^ 7))
generated_rmw-eq-rmw rol true v c h p = ground (arith, top_bit16 v p)
generated_rmw-eq-rmw rol false v c h p =
    ground (arith, top_bit v p, bit_and-mask 1 (u8 (bit_or (v * 2 ^ 1) c.fc) / 2 ^ 7))
generated_rmw-eq-rmw lsr true v c h p = ground arith
generated_rmw-eq-rmw lsr false v c h p = ground (arith, bit_and-mask 1 (v / 2 / 2 ^ 7))
generated_rmw-eq-rmw ror true v c h p = elim (bit_cases c.fc h.fc_fits) [
  | inl z ↦ ground (arith, bit_or-lt 16 (v / 2) 0)
  | inr o ↦ ground (arith, bit_or-lt 16 (v / 2) (2 ^ 15))
]
generated_rmw-eq-rmw ror false v c h p = elim (bit_cases c.fc h.fc_fits) [
  | inl z ↦ ground (arith, bit_or-lt 8 (v / 2) 0, bit_and-mask 1 (bit_or (v / 2) 0 / 2 ^ 7))
  | inr o ↦
      ground (arith, bit_or-lt 8 (v / 2) (2 ^ 7), bit_and-mask 1 (bit_or (v / 2) (2 ^ 7) / 2 ^ 7))
]
generated_rmw-eq-rmw inc true v c h p = ground arith
generated_rmw-eq-rmw inc false v c h p = ground (arith, bit_and-mask 1 (u8 (v + 1) / 2 ^ 7))
generated_rmw-eq-rmw dec true v c h p = ground arith
generated_rmw-eq-rmw dec false v c h p = ground (arith, bit_and-mask 1 (sub8 v 1 / 2 ^ 7))
