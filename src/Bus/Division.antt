-- ===== src/Bus/Division.antt =====
-- The multiply/divide unit of runtime/bus.c as the program sees it: operands through the write
-- registers, results through the read registers.
use ct_recomp.Base.{
  ℕ, Option, none, some, ◌≡◌, ap, ◌∙◌, ◌+◌, ◌*◌, ◌/◌, ◌%◌, ◌<◌, ◌^◌, arith, u8, u16, bit_and,
  bit_or, ◌==◌, if◌then◌else◌,
}
use native.Mathlib.Nat.{div-le_self, mod-le}
use ct_recomp.Base.Bits.{bit_and-mask, bit_or-fields}
use ct_recomp.Base.Bytes.{high_low, bit_or_comm}
use ct_recomp.Bus.{MathUnit}
use ct_recomp.Bus.Math.{divide, math_write, math_read}

infixl 5 ◌>>=◌
abbrev ◌>>=◌ {ℓ} : {A B : Type ℓ} → Option A → (A → Option B) → Option B
none >>= f = none
some a >>= f = f a

-- Two result registers read as a word.
unfoldable pub read_result : ℕ → MathUnit → Option ℕ
read_result reg alu = do
  lo ← math_read reg alu
  hi ← math_read (reg + 1) alu
  some (hi * 2 ^ 8 + lo)

-- A division: the dividend in two bytes, then the divisor.
unfoldable pub write_division : ℕ → ℕ → ℕ → MathUnit → Option MathUnit
write_division lo hi v alu = do
  u1 ← math_write 0x4204 lo alu
  u2 ← math_write 0x4205 hi u1
  math_write 0x4206 v u2

unfoldable pub write_product : ℕ → ℕ → MathUnit → Option MathUnit
write_product a b alu = do u ← math_write 0x4202 a alu; math_write 0x4203 b u

-- What comes back: the product, the quotient and the remainder.
unfoldable pub product_back : ℕ → ℕ → MathUnit → Option ℕ
unfolding write_product read_result
product_back a b alu = write_product a b alu >>= read_result 0x4216

unfoldable pub quotient_back : ℕ → ℕ → ℕ → MathUnit → Option ℕ
unfolding write_division read_result
quotient_back lo hi v alu = write_division lo hi v alu >>= read_result 0x4214

unfoldable pub remainder_back : ℕ → ℕ → ℕ → MathUnit → Option ℕ
unfolding write_division read_result
remainder_back lo hi v alu = write_division lo hi v alu >>= read_result 0x4216

-- The dividend that the two byte writes make.
dividend :
    (w lo hi : ℕ)
    → w < 2 ^ 16
    → lo < 2 ^ 8
    → hi < 2 ^ 8
    → u16 (bit_or (bit_and (u16 (bit_or (bit_and w 0xFF00) lo)) 0x00FF) (hi * 2 ^ 8))
      ≡ hi * 2 ^ 8 + lo
dividend w lo hi h p q =
    let x = u16 (bit_or (bit_and w 0xFF00) lo) in
    let low : bit_and x 0x00FF ≡ lo = omega (arith, bit_and-mask 8 x, high_low w lo h p) in
    omega (
      arith,
      ap (λ y. bit_or y (hi * 2 ^ 8)) low,
      bit_or_comm lo (hi * 2 ^ 8),
      bit_or-fields 8 hi lo p,
    )

product_lem : (a b : ℕ) → a < 2 ^ 8 → b < 2 ^ 8 → a * b < 2 ^ 16
product_lem a b p q = grind arith

-- The result registers of a division by the dividend's value.
divided :
    (v d : ℕ) (alu : MathUnit)
    → d < 2 ^ 16
    → alu.wrdiv ≡ d
    → ((divide v alu).rddiv ≡ (if v == 0 then 0xFFFF else d / v))
      × ((divide v alu).rdmpy ≡ (if v == 0 then d else d % v))
      × ((divide v alu).rddiv < 2 ^ 16)
      × ((divide v alu).rdmpy < 2 ^ 16)
unfolding divide
divided v d alu h e =
    ground (arith, div-le_self d v, mod-le d v, ap (λ x. x / v) e, ap (λ x. x % v) e)

bytes_back : (w : ℕ) → w < 2 ^ 16 → u8 (w / 2 ^ 8) * 2 ^ 8 + u8 w ≡ w
bytes_back w h = omega arith

-- Two bytes written to the multiplication registers are read back as their product in the result
-- registers.
pub product-read :
    (a b : ℕ) (alu : MathUnit) → a < 2 ^ 8 → b < 2 ^ 8 → product_back a b alu ≡ some (a * b)
unfolding product_back math_write math_read
product-read a b alu p q = ap some (omega (arith, product_lem a b p q))

-- A division through the registers (two bytes of dividend, then the divisor byte) leaves in the
-- result registers the quotient and the remainder, and for the divisor 0 the hardware's 0xFFFF and
-- the dividend, whatever word the dividend register held before.
pub division-read :
    (lo hi v : ℕ) (alu : MathUnit)
    → lo < 2 ^ 8
    → hi < 2 ^ 8
    → v < 2 ^ 8
    → alu.wrdiv < 2 ^ 16
    → (quotient_back lo hi v alu ≡ some (if v == 0 then 0xFFFF else (hi * 2 ^ 8 + lo) / v))
      × (remainder_back lo hi v alu
          ≡ some (if v == 0 then hi * 2 ^ 8 + lo else (hi * 2 ^ 8 + lo) % v))
unfolding quotient_back remainder_back math_write math_read divide
division-read lo hi v alu p q r h =
    let u = record alu {
      wrdiv =
          u16 (bit_or (bit_and (u16 (bit_or (bit_and alu.wrdiv 0xFF00) lo)) 0x00FF) (hi * 2 ^ 8));
    } in
    let (quotient, remainder, small, small') =
      divided v (hi * 2 ^ 8 + lo) u (omega arith) (dividend alu.wrdiv lo hi h p q) in
    (
      ap some (omega (arith, bytes_back (divide v u).rddiv small) ∙ quotient),
      ap some (omega (arith, bytes_back (divide v u).rdmpy small') ∙ remainder),
    )
