-- ===== src/Base/Bytes.antt =====
-- Words put together from bytes, and masks of two bits.
use ct_recomp.Base.{
  ℕ, zero, suc, ◌≡◌, ap, ◌+◌, ◌*◌, ◌/◌, ◌%◌, ◌<◌, ◌≤◌, ◌^◌, arith, u16, word, bit_and, bit_or,
}
use ct_recomp.Base.Bits.{
  bit_and-mask, bit_and-even, bit_and-odd, bit_and-zero, bit_or-fields, bit_or-zero, zero-bit_or,
  bit_or_step,
}

or-comm_fuel : (n a b : ℕ) → a ≤ n → bit_or a b ≡ bit_or b a
or-comm_fuel n zero b h = omega (arith, zero-bit_or b, bit_or-zero b)
or-comm_fuel zero (suc a) b h = absurd (omega arith)
or-comm_fuel (suc n) (suc a) b h = omega (
  arith,
  bit_or_step (suc a) b,
  bit_or_step b (suc a),
  or-comm_fuel n (suc a / 2) (b / 2) (omega arith),
)

pub bit_or_comm : (a b : ℕ) → bit_or a b ≡ bit_or b a
bit_or_comm a b = or-comm_fuel a a b (omega arith)

pub high_part : (a : ℕ) → a < 2 ^ 16 → bit_and a 0xFF00 ≡ a / 2 ^ 8 * 2 ^ 8
high_part a p = omega (
  arith,
  bit_and-even (a) 0x7f80,
  bit_and-even (a / 2) 0x3fc0,
  bit_and-even (a / 2 / 2) 0x1fe0,
  bit_and-even (a / 2 / 2 / 2) 0xff0,
  bit_and-even (a / 2 / 2 / 2 / 2) 0x7f8,
  bit_and-even (a / 2 / 2 / 2 / 2 / 2) 0x3fc,
  bit_and-even (a / 2 / 2 / 2 / 2 / 2 / 2) 0x1fe,
  bit_and-even (a / 2 / 2 / 2 / 2 / 2 / 2 / 2) 0xff,
  bit_and-mask 8 (a / 2 / 2 / 2 / 2 / 2 / 2 / 2 / 2),
)

-- `(a & 0xFF00) | v` for a byte `v`.
pub high_low :
    (a v : ℕ) → a < 2 ^ 16 → v < 2 ^ 8 → u16 (bit_or (bit_and a 0xFF00) v) ≡ a / 2 ^ 8 * 2 ^ 8 + v
high_low a v p q =
    omega (arith, bit_or-fields 8 (a / 2 ^ 8) v q, ap (λ y. bit_or y v) (high_part a p))

-- `lo | (hi << 8)`, in either order.
pub word-sum : (lo hi : ℕ) → lo < 2 ^ 8 → word lo hi ≡ hi * 2 ^ 8 + lo
word-sum lo hi h = bit_or-fields 8 hi lo h

-- Masks with two bits, and with the bits 9 to 14.
pub two_bits : (a : ℕ) → bit_and a 0x408000 ≡ a / 2 ^ 22 % 2 * 2 ^ 22 + a / 2 ^ 15 % 2 * 2 ^ 15
two_bits a = omega (
  arith,
  bit_and-even (a) 0x204000,
  bit_and-even (a / 2) 0x102000,
  bit_and-even (a / 2 / 2) 0x81000,
  bit_and-even (a / 2 / 2 / 2) 0x40800,
  bit_and-even (a / 2 / 2 / 2 / 2) 0x20400,
  bit_and-even (a / 2 / 2 / 2 / 2 / 2) 0x10200,
  bit_and-even (a / 2 / 2 / 2 / 2 / 2 / 2) 0x8100,
  bit_and-even (a / 2 / 2 / 2 / 2 / 2 / 2 / 2) 0x4080,
  bit_and-even (a / 2 / 2 / 2 / 2 / 2 / 2 / 2 / 2) 0x2040,
  bit_and-even (a / 2 / 2 / 2 / 2 / 2 / 2 / 2 / 2 / 2) 0x1020,
  bit_and-even (a / 2 / 2 / 2 / 2 / 2 / 2 / 2 / 2 / 2 / 2) 0x810,
  bit_and-even (a / 2 / 2 / 2 / 2 / 2 / 2 / 2 / 2 / 2 / 2 / 2) 0x408,
  bit_and-even (a / 2 / 2 / 2 / 2 / 2 / 2 / 2 / 2 / 2 / 2 / 2 / 2) 0x204,
  bit_and-even (a / 2 / 2 / 2 / 2 / 2 / 2 / 2 / 2 / 2 / 2 / 2 / 2 / 2) 0x102,
  bit_and-even (a / 2 / 2 / 2 / 2 / 2 / 2 / 2 / 2 / 2 / 2 / 2 / 2 / 2 / 2) 0x81,
  bit_and-odd (a / 2 / 2 / 2 / 2 / 2 / 2 / 2 / 2 / 2 / 2 / 2 / 2 / 2 / 2 / 2) 0x40,
  bit_and-even (a / 2 / 2 / 2 / 2 / 2 / 2 / 2 / 2 / 2 / 2 / 2 / 2 / 2 / 2 / 2 / 2) 0x20,
  bit_and-even (a / 2 / 2 / 2 / 2 / 2 / 2 / 2 / 2 / 2 / 2 / 2 / 2 / 2 / 2 / 2 / 2 / 2) 0x10,
  bit_and-even (a / 2 / 2 / 2 / 2 / 2 / 2 / 2 / 2 / 2 / 2 / 2 / 2 / 2 / 2 / 2 / 2 / 2 / 2) 0x8,
  bit_and-even (a / 2 / 2 / 2 / 2 / 2 / 2 / 2 / 2 / 2 / 2 / 2 / 2 / 2 / 2 / 2 / 2 / 2 / 2 / 2) 0x4,
  bit_and-even (a / 2 / 2 / 2 / 2 / 2 / 2 / 2 / 2 / 2 / 2 / 2 / 2 / 2 / 2 / 2 / 2 / 2 / 2 / 2 / 2)
      0x2,
  bit_and-even
      (a / 2 / 2 / 2 / 2 / 2 / 2 / 2 / 2 / 2 / 2 / 2 / 2 / 2 / 2 / 2 / 2 / 2 / 2 / 2 / 2 / 2) 0x1,
  bit_and-odd
      (a / 2 / 2 / 2 / 2 / 2 / 2 / 2 / 2 / 2 / 2 / 2 / 2 / 2 / 2 / 2 / 2 / 2 / 2 / 2 / 2 / 2 / 2)
      0x0,
  bit_and-zero (
      a / 2 / 2 / 2 / 2 / 2 / 2 / 2 / 2 / 2 / 2 / 2 / 2 / 2 / 2 / 2 / 2 / 2 / 2 / 2 / 2 / 2 / 2
      / 2),
)

pub page_bits : (x : ℕ) → bit_and x 0x7E00 ≡ x / 2 ^ 9 % 2 ^ 6 * 2 ^ 9
page_bits x = omega (
  arith,
  bit_and-even (x) 0x3f00,
  bit_and-even (x / 2) 0x1f80,
  bit_and-even (x / 2 / 2) 0xfc0,
  bit_and-even (x / 2 / 2 / 2) 0x7e0,
  bit_and-even (x / 2 / 2 / 2 / 2) 0x3f0,
  bit_and-even (x / 2 / 2 / 2 / 2 / 2) 0x1f8,
  bit_and-even (x / 2 / 2 / 2 / 2 / 2 / 2) 0xfc,
  bit_and-even (x / 2 / 2 / 2 / 2 / 2 / 2 / 2) 0x7e,
  bit_and-even (x / 2 / 2 / 2 / 2 / 2 / 2 / 2 / 2) 0x3f,
  bit_and-mask 6 (x / 2 / 2 / 2 / 2 / 2 / 2 / 2 / 2 / 2),
)
