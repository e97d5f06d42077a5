-- ===== src/Base/Bits.antt =====
-- Bounds and single bits of `&`, `|` and `^`.
mod Step
pub mod Xor
pub use Step.{bit_or_step}
use Step.{bit_and_step, bit_xor_step, differ_lem}
use Prim.Native.Nat.{ℕ, zero, suc, ◌+◌, ◌*◌, ◌/◌, ◌%◌, ◌^◌, ◌≤◌, ◌<◌, ◌-◌, min, max}
use Prim.Native.Nat.{bit_and, bit_or, bit_xor, bit_and-bitwise, bit_or-bitwise}
use mathlib.Core.Path.{◌≡◌, refl, ap, ◌∙◌, sym}
use native.Mathlib.Nat.{pow-suc, one-le-pow, div-div-eq-div-mul}
use native.Mathlib.Nat.{mod-eq-sub-div-mul, div-mul-le_self}
use native.Mathlib.Omega.{arith}

half_pow : (k : ℕ) → 2 ^ suc k ≡ 2 * 2 ^ k
half_pow k = omega (arith, pow-suc 2 k)

pub bit_or-lt : (k a b : ℕ) → a < 2 ^ k → b < 2 ^ k → bit_or a b < 2 ^ k
bit_or-lt zero zero zero p q = omega arith
bit_or-lt zero zero (suc b) p q = absurd (omega arith)
bit_or-lt zero (suc a) b p q = absurd (omega arith)
bit_or-lt (suc k) a b p q = omega (
  arith,
  half_pow k,
  bit_or_step a b,
  bit_or-lt k (a / 2) (b / 2) (omega (arith, half_pow k)) (omega (arith, half_pow k)),
)

pub bit_xor-lt : (k a b : ℕ) → a < 2 ^ k → b < 2 ^ k → bit_xor a b < 2 ^ k
bit_xor-lt zero zero zero p q = omega arith
bit_xor-lt zero zero (suc b) p q = absurd (omega arith)
bit_xor-lt zero (suc a) b p q = absurd (omega arith)
bit_xor-lt (suc k) a b p q = omega (
  arith,
  half_pow k,
  bit_xor_step a b,
  differ_lem (a % 2) (b % 2) (omega arith) (omega arith),
  bit_xor-lt k (a / 2) (b / 2) (omega (arith, half_pow k)) (omega (arith, half_pow k)),
)

zero-bit_and : (b : ℕ) → bit_and 0 b ≡ 0
zero-bit_and b = bit_and-bitwise 0 b

pub zero-bit_or : (b : ℕ) → bit_or 0 b ≡ b
zero-bit_or b = bit_or-bitwise 0 b

and-le_fuel : (n a b : ℕ) → a ≤ n → bit_and a b ≤ a
and-le_fuel n zero b h = omega (arith, zero-bit_and b)
and-le_fuel zero (suc a) b h = absurd (omega arith)
and-le_fuel (suc n) (suc a) b h =
    omega (arith, bit_and_step (suc a) b, and-le_fuel n (suc a / 2) (b / 2) (omega arith))

pub bit_and-le : (a b : ℕ) → bit_and a b ≤ a
bit_and-le a b = and-le_fuel a a b (omega arith)

pub bit_and-zero : (a : ℕ) → bit_and a 0 ≡ 0
bit_and-zero a = and-zero_fuel a a (omega arith)
  where
    and-zero_fuel : (n a : ℕ) → a ≤ n → bit_and a 0 ≡ 0
    and-zero_fuel n zero h = refl
    and-zero_fuel zero (suc a) h = absurd (omega arith)
    and-zero_fuel (suc n) (suc a) h =
        omega (arith, bit_and_step (suc a) 0, and-zero_fuel n (suc a / 2) (omega arith))

-- Shifting by `suc k` is halving, then shifting by `k`.
shift_suc : (k a : ℕ) → a / 2 ^ suc k ≡ a / 2 / 2 ^ k
shift_suc k a = ap (λ d. a / d) (half_pow k) ∙ sym (div-div-eq-div-mul a 2 (2 ^ k))

mod_pow_suc : (k a : ℕ) → a % 2 ^ suc k ≡ 2 * (a / 2 % 2 ^ k) + a % 2
mod_pow_suc k a = omega (
  arith,
  shift_suc k a,
  mod-eq-sub-div-mul a (2 ^ suc k),
  mod-eq-sub-div-mul (a / 2) (2 ^ k),
  half_pow k,
  ap (λ (t : ℕ). t * 2 ^ suc k) (shift_suc k a),
  ap (λ (t : ℕ). a / 2 / 2 ^ k * t) (half_pow k),
  div-mul-le_self (a / 2) (2 ^ k),
)

-- The test of one bit, `a & (1 << k)`.
pub bit_and-even : (a m : ℕ) → bit_and a (m * 2) ≡ bit_and (a / 2) m * 2
bit_and-even a m = omega (
  arith,
  bit_and_step a (m * 2),
  ap (λ (t : ℕ). bit_and (a / 2) t) {x = m * 2 / 2} {y = m} (omega arith),
)

pub bit_and-odd : (a m : ℕ) → bit_and a (m * 2 + 1) ≡ bit_and (a / 2) m * 2 + a % 2
bit_and-odd a m = omega (
  arith,
  bit_and_step a (m * 2 + 1),
  ap (λ (t : ℕ). bit_and (a / 2) t) {x = (m * 2 + 1) / 2} {y = m} (omega arith),
)

pub bit_and-pow : (k a : ℕ) → bit_and a (2 ^ k) ≡ a / 2 ^ k % 2 * 2 ^ k
bit_and-pow zero a = omega (arith, bit_and_step a 1, bit_and-zero (a / 2))
bit_and-pow (suc k) a =
    let ih = bit_and-pow k (a / 2) in
    bit_and_step a (2 ^ suc k)
    ∙ rw (shift_suc k a, half_pow k)
        (omega (
          arith,
          ap (λ (t : ℕ). bit_and (a / 2) t) {x = 2 * 2 ^ k / 2} {y = 2 ^ k} (omega arith),
          ih,
        ))

-- The mask of the `k` low bits.
pub bit_and-mask : (k a : ℕ) → bit_and a (2 ^ k - 1) ≡ a % 2 ^ k
bit_and-mask zero a = omega (arith, bit_and-zero a)
bit_and-mask (suc k) a = omega (
  arith,
  bit_and_step a (2 ^ suc k - 1),
  half_pow k,
  one-le-pow k 2,
  mod_pow_suc k a,
  bit_and-mask k (a / 2),
  ap (λ (t : ℕ). bit_and (a / 2) t) {x = (2 ^ suc k - 1) / 2} {y = 2 ^ k - 1}
      (omega (arith, half_pow k, one-le-pow k 2)),
)

-- Bit `k` of each operation is the operation on the bits.
pub bit_and-bit : (k a b : ℕ) → bit_and a b / 2 ^ k % 2 ≡ min (a / 2 ^ k % 2) (b / 2 ^ k % 2)
bit_and-bit zero a b = omega (arith, bit_and_step a b)
bit_and-bit (suc k) a b =
    rw (shift_suc k a, shift_suc k b, shift_suc k (bit_and a b))
      (rw (halve) (bit_and-bit k (a / 2) (b / 2)))
  where
    halve : bit_and a b / 2 ≡ bit_and (a / 2) (b / 2)
    halve = omega (arith, bit_and_step a b)

pub bit_xor-bit : (k a b : ℕ) → bit_xor a b / 2 ^ k % 2 ≡ (a / 2 ^ k + b / 2 ^ k) % 2
bit_xor-bit zero a b =
    omega (arith, bit_xor_step a b, differ_lem (a % 2) (b % 2) (omega arith) (omega arith))
bit_xor-bit (suc k) a b =
    rw (shift_suc k a, shift_suc k b, shift_suc k (bit_xor a b))
      (rw (halve) (bit_xor-bit k (a / 2) (b / 2)))
  where
    halve : bit_xor a b / 2 ≡ bit_xor (a / 2) (b / 2)
    halve = omega (arith, bit_xor_step a b, differ_lem (a % 2) (b % 2) (omega arith) (omega arith))

pub bit_or-zero : (a : ℕ) → bit_or a 0 ≡ a
bit_or-zero a = with_fuel a a (omega arith)
  where
    with_fuel : (n a : ℕ) → a ≤ n → bit_or a 0 ≡ a
    with_fuel n zero h = refl
    with_fuel zero (suc a) h = absurd (omega arith)
    with_fuel (suc n) (suc a) h =
        omega (arith, bit_or_step (suc a) 0, with_fuel n (suc a / 2) (omega arith))

-- `|` of disjoint fields is a sum.
pub bit_or-fields : (k q r : ℕ) → r < 2 ^ k → bit_or (q * 2 ^ k) r ≡ q * 2 ^ k + r
bit_or-fields zero q r h = omega (
  arith,
  bit_or_step q r,
  bit_or-zero q,
  ap (λ (t : ℕ). bit_or q t) {x = r} {y = 0} (omega arith),
  ap (λ (t : ℕ). bit_or t r) {x = q * 1} {y = q} (omega arith),
)
bit_or-fields (suc k) q r h = omega (
  arith,
  bit_or_step (q * 2 ^ suc k) r,
  half_pow k,
  ap (λ (t : ℕ). q * t) (half_pow k),
  ap (λ (t : ℕ). bit_or t (r / 2)) {x = q * 2 ^ suc k / 2} {y = q * 2 ^ k}
      (omega (arith, ap (λ (t : ℕ). q * t) (half_pow k))),
  bit_or-fields k q (r / 2) (omega (arith, half_pow k)),
)

pub bit_or_comm : (a b : ℕ) → bit_or a b ≡ bit_or b a
bit_or_comm a b = with_fuel a a b (omega arith)
  where
    with_fuel : (n a b : ℕ) → a ≤ n → bit_or a b ≡ bit_or b a
    with_fuel n zero b h = zero-bit_or b ∙ sym (bit_or-zero b)
    with_fuel zero (suc a) b h = absurd (omega arith)
    with_fuel (suc n) (suc a) b h = omega (
      arith,
      bit_or_step (suc a) b,
      bit_or_step b (suc a),
      with_fuel n (suc a / 2) (b / 2) (omega arith),
    )

-- The same with the upper field on the right.
pub bit_or-above : (k q r : ℕ) → r < 2 ^ k → bit_or r (q * 2 ^ k) ≡ q * 2 ^ k + r
bit_or-above k q r h = bit_or_comm r (q * 2 ^ k) ∙ bit_or-fields k q r h
