-- ===== src/Agree/Add.antt =====
-- Binary addition of both implementations, and what it computes.
use ct_recomp.Base.{
  ℕ, zero, suc, Bool, true, false, not, ◌≡◌, ap, ◌+◌, ◌-◌, ◌*◌, ◌%◌, ◌/◌, ◌<◌, ◌^◌, arith, u8,
  not32, flag, ◌==◌, ltb, leb, ◌||◌, bit_and, bit_xor, min, not8, not16, if◌then◌else◌, refl,
}
use ct_recomp.Base.Bits.{bit_and-bit, bit_xor-bit, bit_and-mask, bit_and-pow, bit_xor-lt}
use ct_recomp.Base.Bytes.{high_low}
use ct_recomp.Cpu.{Cpu, IsCpu}
use ct_recomp.Ops.Flags.{set_nz8, set_nz16, a8, set_a8}
use ct_recomp.Ops.Values.{add8, add16, adc8, adc16, sbc8, sbc16}
use ct_recomp.Machine.{
  Machine, M, Result, Fault, done, fatal, ct_fatal, ◌>>=◌, gets, on_cpu, with_cpu,
}
use ct_recomp.Interp.Instr.{Alu, adc, sbc}
use ct_recomp.Interp.Exec.{alu_value}
use ct_recomp.Interp.Registers.{nz, add_binary, add, set_a, get_a}
use ct_recomp.Sound.State.{IsByte, IsWord}

-- A byte or a word read as a signed number, plus half the range.
unfoldable pub biased8 : ℕ → ℕ
biased8 v = (v + 2 ^ 7) % 2 ^ 8

unfoldable pub biased16 : ℕ → ℕ
biased16 v = (v + 2 ^ 15) % 2 ^ 16

-- The overflow test on the sign bits, in the form of ops.h.
sign8 :
    (a b r : ℕ)
    → a < 2 ^ 32
    → b < 2 ^ 32
    → bit_and (bit_and (not32 (bit_xor a b)) (bit_xor a r) / 2 ^ 7) 1
      ≡ min (1 - (a / 2 ^ 7 + b / 2 ^ 7) % 2) ((a / 2 ^ 7 + r / 2 ^ 7) % 2)
sign8 a b r p q = omega (
  arith,
  bit_and-mask 1 (bit_and (not32 (bit_xor a b)) (bit_xor a r) / 2 ^ 7),
  bit_and-bit 7 (not32 (bit_xor a b)) (bit_xor a r),
  bit_xor-bit 7 a b,
  bit_xor-bit 7 a r,
  bit_xor-lt 32 a b p q,
)

sign16 :
    (a b r : ℕ)
    → a < 2 ^ 32
    → b < 2 ^ 32
    → bit_and (bit_and (not32 (bit_xor a b)) (bit_xor a r) / 2 ^ 15) 1
      ≡ min (1 - (a / 2 ^ 15 + b / 2 ^ 15) % 2) ((a / 2 ^ 15 + r / 2 ^ 15) % 2)
sign16 a b r p q = omega (
  arith,
  bit_and-mask 1 (bit_and (not32 (bit_xor a b)) (bit_xor a r) / 2 ^ 15),
  bit_and-bit 15 (not32 (bit_xor a b)) (bit_xor a r),
  bit_xor-bit 15 a b,
  bit_xor-bit 15 a r,
  bit_xor-lt 32 a b p q,
)

-- The same test in the form of interp.c.
sign8' :
    (a b r : ℕ)
    → flag (not (bit_and (bit_and (bit_xor a r) (bit_xor b r)) 0x80 == 0))
      ≡ min ((a / 2 ^ 7 + r / 2 ^ 7) % 2) ((b / 2 ^ 7 + r / 2 ^ 7) % 2)
sign8' a b r = ground (
  arith,
  bit_and-pow 7 (bit_and (bit_xor a r) (bit_xor b r)),
  bit_and-bit 7 (bit_xor a r) (bit_xor b r),
  bit_xor-bit 7 a r,
  bit_xor-bit 7 b r,
)

sign16' :
    (a b r : ℕ)
    → flag (not (bit_and (bit_and (bit_xor a r) (bit_xor b r)) 0x8000 == 0))
      ≡ min ((a / 2 ^ 15 + r / 2 ^ 15) % 2) ((b / 2 ^ 15 + r / 2 ^ 15) % 2)
sign16' a b r = ground (
  arith,
  bit_and-pow 15 (bit_and (bit_xor a r) (bit_xor b r)),
  bit_and-bit 15 (bit_xor a r) (bit_xor b r),
  bit_xor-bit 15 a r,
  bit_xor-bit 15 b r,
)

-- In well-formed registers, for a byte operand, binary adc8 makes carry and low byte of A the sum
-- of the low byte, the operand and the carry, keeps the high byte of A, and sets V exactly when
-- the signed sum does not fit a byte.
pub add8-sum :
    (b : ℕ) (c : Cpu)
    → IsByte b
    → IsCpu c
    → ((add8 b c).fc * 2 ^ 8 + a8 (add8 b c) ≡ a8 c + b + c.fc)
      × ((add8 b c).a / 2 ^ 8 ≡ c.a / 2 ^ 8)
      × ((add8 b c).fv
          ≡ flag (
              ltb (biased8 (a8 c) + biased8 b + c.fc) (2 ^ 7)
              || leb (2 ^ 7 + 2 ^ 8) (biased8 (a8 c) + biased8 b + c.fc)))
unfolding add8 a8 set_a8 set_nz8 biased8
add8-sum b c p h = ground (
  arith,
  high_low c.a (u8 (u8 c.a + b + c.fc)) h.a_fits,
  sign8 (u8 c.a) b (u8 c.a + b + c.fc),
  h.fc_fits,
  h.a_fits,
)

-- In well-formed registers, for a word operand, binary adc16 makes carry and A the sum of A, the
-- operand and the carry, and sets V exactly when the signed sum does not fit a word.
pub add16-sum :
    (b : ℕ) (c : Cpu)
    → IsWord b
    → IsCpu c
    → ((add16 b c).fc * 2 ^ 16 + (add16 b c).a ≡ c.a + b + c.fc)
      × ((add16 b c).fv
          ≡ flag (
              ltb (biased16 c.a + biased16 b + c.fc) (2 ^ 15)
              || leb (2 ^ 15 + 2 ^ 16) (biased16 c.a + biased16 b + c.fc)))
unfolding add16 set_nz16 biased16
add16-sum b c p h = ground (arith, sign16 c.a b (c.a + b + c.fc), h.fc_fits, h.a_fits)

-- The registers after the addition, for each width of A; `v` is the operand that the interpreter has.
add16-eq-add_binary :
    (b v : ℕ) (c : Cpu)
    → IsWord b
    → IsCpu c
    → c.fm ≡ 0
    → v ≡ b
    → add16 b c ≡ set_a (add_binary (get_a c) v true c).0 (add_binary (get_a c) v true c).1
unfolding add16 set_nz16 add_binary nz set_a get_a
add16-eq-add_binary b v c p h m e =
    ground
      (arith, sign16 c.a b (c.a + b + c.fc), sign16' c.a b (c.a + b + c.fc), h.fc_fits, h.a_fits)

add8-eq-add_binary :
    (b v : ℕ) (c : Cpu)
    → IsByte b
    → IsCpu c
    → c.fm ≡ 1
    → v ≡ b
    → add8 b c ≡ set_a (add_binary (get_a c) v false c).0 (add_binary (get_a c) v false c).1
unfolding add8 a8 set_a8 set_nz8 add_binary nz set_a get_a
add8-eq-add_binary b v c p h m e =
    let r = u8 c.a + b + c.fc in
    ground (
      arith,
      sign8 (u8 c.a) b r,
      sign8' (u8 c.a) b r,
      bit_and-mask 1 (u8 r / 2 ^ 7),
      h.fc_fits,
      h.a_fits,
    )

-- Both runs return with the same machine, or both end in ct_fatal (with messages of their own).
abbrev pub SameEnd : Result (Unit {0}) → Result (Unit {0}) → Type 0
SameEnd (done x w) (done y u) = w ≡ u
SameEnd (done x w) (fatal e) = ⊥
SameEnd (fatal d) (done y u) = ⊥
SameEnd (fatal d) (fatal e) = Unit

-- The instruction of ops.h that is translated for the value of m: adc16 or sbc16, adc8 or sbc8.
abbrev pub generated_add : Bool → ℕ → ℕ → ℕ → M (Unit {0})
generated_add false zero b at = adc16 b at
generated_add true zero b at = sbc16 b at
generated_add false (suc m) b at = adc8 b at
generated_add true (suc m) b at = sbc8 b at

-- The operation of the interpreter.
abbrev pub adder : Bool → Alu
adder false = adc
adder true = sbc

module _ (f : Cpu → Cpu) (g : Cpu → ℕ × Cpu) (d e : Fault) (w : Machine) where
  both_add :
      (b : Bool)
      → f w.cpu ≡ set_a (g w.cpu).0 (g w.cpu).1
      → SameEnd
          ((if b then on_cpu f else ct_fatal d) w)
          (((if b then with_cpu g else ct_fatal e) >>= λ r. on_cpu (set_a r)) w)
  unfolding ◌>>=◌ on_cpu with_cpu ct_fatal
  both_add true h = ap (λ c. record w { cpu = c }) h
  both_add false h = tt

  -- The subtraction of ops.h tests D before its addition does.
  tested_twice :
      (b : Bool)
      → f w.cpu ≡ set_a (g w.cpu).0 (g w.cpu).1
      → (m : M (Unit {0})) → m w ≡ (if b then on_cpu f else ct_fatal d) w
      → (d' : Fault)
      → SameEnd
          ((if b then m else ct_fatal d') w)
          (((if b then with_cpu g else ct_fatal e) >>= λ r. on_cpu (set_a r)) w)
  unfolding ◌>>=◌ on_cpu with_cpu ct_fatal
  tested_twice true h m k d' = rw k (ap (λ c. record w { cpu = c }) h)
  tested_twice false h m k d' = tt

by_width :
    (negated : Bool) (m b at : ℕ) (w : Machine)
    → IsCpu w.cpu
    → w.cpu.fm ≡ m
    → b < (if m == 0 then 2 ^ 16 else 2 ^ 8)
    → SameEnd
        (generated_add negated m b at w)
        (alu_value (adder negated) (get_a w.cpu) b (m == 0) at w)
unfolding adc8 adc16 sbc8 sbc16 alu_value add ◌>>=◌ gets
by_width false zero b at w h m p =
    both_add (add16 b) _ _ _ w _ (add16-eq-add_binary b b w.cpu p h m refl)
by_width true zero b at w h m p =
    tested_twice (add16 (not16 b)) _ _ _ w _
      (add16-eq-add_binary (not16 b) _ w.cpu (omega arith) h m (omega arith)) (adc16 (not16 b) at)
      refl _
by_width false (suc zero) b at w h m p =
    both_add (add8 b) _ _ _ w _ (add8-eq-add_binary b b w.cpu p h m refl)
by_width true (suc zero) b at w h m p =
    tested_twice (add8 (not8 b)) _ _ _ w _
      (add8-eq-add_binary (not8 b) _ w.cpu (omega arith) h m (omega arith)) (adc8 (not8 b) at) refl
      _
by_width negated (suc (suc k)) b at w h m p = absurd (omega (arith, h.fm_fits))

-- In well-formed registers, for an operand of the width of A (a word when m = 0, a byte when
-- m = 1), the ADC and SBC of ops.h for that width, adc16 and sbc16 or adc8 and sbc8, leave the
-- machine that the interpreter's ADC and SBC leave, or both end in ct_fatal.
pub adds-eq-alu_value :
    (negated : Bool) (b at : ℕ) (w : Machine)
    → IsCpu w.cpu
    → b < (if w.cpu.fm == 0 then 2 ^ 16 else 2 ^ 8)
    → SameEnd
        (generated_add negated w.cpu.fm b at w)
        (alu_value (adder negated) (get_a w.cpu) b (w.cpu.fm == 0) at w)
adds-eq-alu_value negated b at w h p = by_width negated w.cpu.fm b at w h refl p
